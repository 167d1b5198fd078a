-- ===== src/Tests/Index.antt =====
-- A hash table of colliding entries, two indexes and a master index.
use vlbe.Base.{ℕ, ◌+◌, ◌≡◌, ◌≢◌, ◌<◌, refl, List, [], ◌∷◌, some, none, arith}
use vlbe.Restic.Blob.{ContentId, handle_key}
use vlbe.Index.Hashed.{IndexEntry, IndexMap, new_index_map, foreach_with_id, get, first_index}
use vlbe.Index.Hashed
use vlbe.Index.Hashed.Content.{content, IsIndexMap, new_index_map-IsIndexMap, add-IsIndexMap}
use vlbe.Index.Hashed.Lookup.{matching, newest_of, oldest_position, lookups_lem}
use vlbe.Index.Hashed.Positions.{first_index-add}
use vlbe.Index.ArrayTree.{
  ArrayTree, alloc, ref_at, row, column, grow_blocks, double_blocks, merge_pairs, start_block,
  set_item, item, make_items,
}
use vlbe.Index.ArrayTree.Array.{joined}
use vlbe.Index.ArrayTree.Growing.{IsTree}
use vlbe.Index.ArrayTree.Allocated.{IsGrown, alloc-ref_at}

abbrev pub toy_sum : ℕ → ContentId → ℕ
toy_sum seed id = seed + id

abbrev entry : ContentId → ℕ → IndexEntry
entry id offset = record {
  id = id;
  pack_index = 0;
  offset = offset;
  length = 1;
  uncompressed_length = 0;
}

-- three entries in one bucket, two of them of one identifier
abbrev collided : IndexMap
collided =
    Hashed.add toy_sum (entry 3 2)
      (Hashed.add toy_sum (entry 67 1) (Hashed.add toy_sum (entry 3 0) (new_index_map 5)))

collided-IsIndexMap : IsIndexMap toy_sum collided
collided-IsIndexMap =
    (add-IsIndexMap toy_sum (entry 3 2) _
      (add-IsIndexMap toy_sum (entry 67 1) _
        (add-IsIndexMap toy_sum (entry 3 0) (new_index_map 5)
          (new_index_map-IsIndexMap toy_sum 5)).0).0).0

add-IsIndexMap_example :
    IsIndexMap toy_sum (Hashed.add toy_sum (entry 131 3) collided)
    × (content (Hashed.add toy_sum (entry 131 3) collided) ≡ entry 131 3 ∷ content collided)
add-IsIndexMap_example = add-IsIndexMap toy_sum (entry 131 3) collided collided-IsIndexMap

lookups_lem_example :
    (foreach_with_id toy_sum 3 collided ≡ matching 3 (content collided))
    × (get toy_sum 3 collided ≡ newest_of 3 (content collided))
    × (first_index toy_sum 3 collided ≡ oldest_position 3 (content collided))
lookups_lem_example = lookups_lem toy_sum 3 collided collided-IsIndexMap

first_at : first_index toy_sum 67 collided ≡ some 2
unfolding first_index Hashed.add Hashed.least_with_id Hashed.chain_of Hashed.prepend
    Hashed.set_bucket Hashed.make_room Hashed.init Hashed.zeros Hashed.hash Hashed.chain
    Hashed.bucket_at Hashed.resolve Hashed.smaller
first_at = refl

first_index-add_example : first_index toy_sum 67 (Hashed.add toy_sum (entry 67 3) collided) ≡ some 2
first_index-add_example =
    first_index-add toy_sum collided (entry 67 3) 67 2 collided-IsIndexMap first_at

-- an array tree of which all blocks are full, so that the next item doubles them
abbrev full_tree : ArrayTree ℕ
full_tree = record {
  mask = 3;
  mask_shift = 2;
  block_size = 4;
  size = 16;
  block_list =
      (10 ∷ 11 ∷ 12 ∷ 13 ∷ [])
      ∷ (20 ∷ 21 ∷ 22 ∷ 23 ∷ [])
      ∷ (30 ∷ 31 ∷ 32 ∷ 33 ∷ [])
      ∷ (40 ∷ 41 ∷ 42 ∷ 43 ∷ [])
      ∷ [];
}

abbrev full_items : List ℕ
full_items = 10 ∷ 11 ∷ 12 ∷ 13 ∷ 20 ∷ 21 ∷ 22 ∷ 23 ∷ 30 ∷ 31 ∷ 32 ∷ 33 ∷ 40 ∷ 41 ∷ 42 ∷ 43 ∷ []

full_tree-IsTree : IsTree full_tree full_items
unfolding joined make_items
full_tree-IsTree = record {
  full = full_tree.block_list;
  spare = 0;
  half = 2;
  blocks = refl;
  same = (refl, (refl, (refl, (refl, tt))));
  counted = refl;
  doubled = refl;
  positive = omega arith;
  shifted = refl;
  masked = refl;
  items = refl;
  enough = omega arith;
  tight = omega arith;
}

-- the doubled tree reads as before
doubled_reads : ref_at ((alloc 0 full_tree).0) 13 ≡ some 41
unfolding ref_at alloc row column grow_blocks double_blocks merge_pairs start_block set_item item
    make_items
doubled_reads = refl

alloc-ref_at_example :
    ((alloc 0 full_tree).1 ≡ 16)
    × (((alloc 0 full_tree).0).size ≡ 17)
    × IsGrown ((alloc 0 full_tree).0) full_items
    × ((pos : ℕ) → pos < 16 → ref_at ((alloc 0 full_tree).0) pos ≡ ref_at full_tree pos)
    × ((pos : ℕ) → pos < 17 → ref_at ((alloc 0 full_tree).0) pos ≢ none)
alloc-ref_at_example = alloc-ref_at 0 full_tree full_items full_tree-IsTree

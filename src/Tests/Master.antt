-- ===== src/Tests/Master.antt =====
-- Two indexes and a master index.
use vlbe.Base.{
  ℕ, ◌≤◌, ◌≡◌, ◌↔◌, ◌⊎◌, refl, ap, ◌∙◌, true, false, not, ◌||◌, ◌&&◌, List, [], ◌∷◌, ◌++◌, some,
  arith, All, In, has, map,
}
use vlbe.Restic.Blob.{
  ContentId, BlobHandle, handle_key, same_handle, BlobType, data_blob, tree_blob, invalid_blob,
  num_blob_types, Blob, PackedBlob,
}
use vlbe.Index.Hashed
use vlbe.Index.Hashed.{IndexEntry, IndexMap, new_index_map, foreach, oldest_first, newest_first}
use vlbe.Index.Hashed.Content.{content, IsIndexMap, new_index_map-IsIndexMap, add-IsIndexMap}
use vlbe.Index.PackIndex.{
  Index, IndexAnswer, ok, err, already_set, finalized_store, new_index, to_packed_blob, pack_at,
  get_ids, set_id, store_pack, lookup, merge_index,
}
use vlbe.Index.PackIndex.Lookup.{IsIndex, IsOfPacks, new_index-IsIndex}
use vlbe.Index.PackIndex.Stored.{Fits, asked_of, store_pack-lookup}
use vlbe.Index.PackIndex.Merged.{merge_index-lookup}
use vlbe.Index.Master.{
  MasterIndex, add_pending, is_known, size_of, finalize_not_final_indexes, has_ids,
  merge_final_indexes, blob_index, stable_len,
}
use vlbe.Index.Master.Offsets.{blob_index-IsInjective}
use vlbe.Index.PackIndex
use vlbe.Index.Master
use vlbe.Index.Master.Known.{is_of, add_pending-is_known, store_pack-is_known}
use vlbe.Index.Master.Sizes.{first_blob, size_in, is_some, size_of-lookup}
use vlbe.Index.Master.Finalized.{IsFinal, open_ones, close, finalize_not_final_indexes-is_known}
use vlbe.Index.Master.Merged.{merge_final_indexes-lookup}
use vlbe.Index.Saved.{PackJson, packs_json, each, each_of, generate_pack_list, decode_index}
use vlbe.Index.Saved.Listing.{IsSavable}
use vlbe.Index.Saved.Decoding.{decode_index-generate_pack_list}
use vlbe.Tests.Index.{toy_sum}

abbrev seeds : BlobType → ℕ
seeds t = 5

abbrev blob : ContentId → BlobType → ℕ → Blob
blob id t offset = record {
  handle = record { id = id; tpe = t };
  length = 10;
  offset = offset;
  uncompressed_length = 0;
}

abbrev bh : BlobHandle
bh = record { id = 1; tpe = data_blob }

abbrev other_two : List Blob
other_two = blob 1 data_blob 7 ∷ blob 2 tree_blob 17 ∷ []

other_two_fit : All Fits other_two
other_two_fit =
    ((omega arith, omega arith, omega arith), ((omega arith, omega arith, omega arith), tt))

-- an index with the pack 7
abbrev entry : ContentId → ℕ → IndexEntry
entry id offset = record {
  id = id;
  pack_index = 0;
  offset = offset;
  length = 10;
  uncompressed_length = 0;
}

abbrev data_table : IndexMap
data_table = Hashed.add toy_sum (entry 65 10) (Hashed.add toy_sum (entry 1 0) (new_index_map 5))

abbrev table : BlobType → IndexMap
table data_blob = data_table
table _ = new_index_map 5

abbrev held : Index
held = record { by_type = table; packs = 7 ∷ []; final = false; ids = [] }

data_table-IsIndexMap :
    IsIndexMap toy_sum data_table × (content data_table ≡ entry 65 10 ∷ entry 1 0 ∷ [])
unfolding content newest_first
data_table-IsIndexMap =
    let (one, one_is) =
      add-IsIndexMap toy_sum (entry 1 0) (new_index_map 5) (new_index_map-IsIndexMap toy_sum 5) in
    let (two, two_is) =
      add-IsIndexMap toy_sum (entry 65 10) (Hashed.add toy_sum (entry 1 0) (new_index_map 5)) one in
    (two, two_is ∙ ap (λ l. entry 65 10 ∷ l) one_is)

held-IsIndexMap : (t : BlobType) → IsIndexMap toy_sum (table t)
held-IsIndexMap data_blob = data_table-IsIndexMap.0
held-IsIndexMap invalid_blob = new_index_map-IsIndexMap toy_sum 5
held-IsIndexMap tree_blob = new_index_map-IsIndexMap toy_sum 5
held-IsIndexMap num_blob_types = new_index_map-IsIndexMap toy_sum 5

held_in_range : (t : BlobType) → All (IsOfPacks (7 ∷ [])) (content (table t))
unfolding content newest_first
held_in_range data_blob = rw (data_table-IsIndexMap.1) (omega arith, (omega arith, tt))
held_in_range invalid_blob = tt
held_in_range tree_blob = tt
held_in_range num_blob_types = tt

held-IsIndex : IsIndex toy_sum held
held-IsIndex = record { tables = held-IsIndexMap; in_range = held_in_range }

store_pack-lookup_example :
    (after : Index) × (store_pack toy_sum 8 other_two held ≡ ok after)
    × IsIndex toy_sum after
    × (after.final ≡ false)
    × ((h : BlobHandle)
        → lookup toy_sum h after [] ≡ asked_of 8 h other_two ++ lookup toy_sum h held [])
store_pack-lookup_example =
    store_pack-lookup toy_sum 8 other_two held held-IsIndex refl other_two_fit

abbrev saved : Index
saved = record held { final = true; ids = 9 ∷ [] }

saved-IsIndex : IsIndex toy_sum saved
saved-IsIndex = record { tables = held-IsIndexMap; in_range = held_in_range }

merge_index-lookup_example :
    (after : Index) × (merge_index toy_sum held saved ≡ ok after)
    × IsIndex toy_sum after
    × (after.final ≡ held.final)
    × (after.ids ≡ held.ids ++ (9 ∷ []))
    × ((pb : PackedBlob)
        → In pb (lookup toy_sum bh after [])
          ↔ (In pb (lookup toy_sum bh held []) ⊎ In pb (lookup toy_sum bh saved [])))
merge_index-lookup_example =
    merge_index-lookup toy_sum held saved held-IsIndex saved-IsIndex bh (λ e. ground arith) refl

abbrev master : MasterIndex
master = record {
  idx = record (new_index seeds) { final = true } ∷ saved ∷ held ∷ [];
  pending_blobs = record { id = 4; tpe = tree_blob } ∷ [];
}

first-IsIndex : IsIndex toy_sum (record (new_index seeds) { final = true })
first-IsIndex =
    let h = new_index-IsIndex toy_sum seeds in record { tables = h.tables; in_range = h.in_range }

add_pending-is_known_example :
    ((add_pending toy_sum bh master).1 ≡ not (is_known toy_sum bh master))
    × ((add_pending toy_sum bh master).0.idx ≡ master.idx)
    × ((other : BlobHandle)
        → is_known toy_sum other (add_pending toy_sum bh master).0
          ≡ (same_handle bh other || is_known toy_sum other master))
add_pending-is_known_example = add_pending-is_known toy_sum bh master

store_pack-is_known_example :
    (after : MasterIndex) × (Master.store_pack toy_sum seeds 8 other_two master ≡ ok after)
    × All (IsIndex toy_sum) after.idx
    × ((h : BlobHandle)
        → (is_known toy_sum h after ≡ (is_of h other_two || is_known toy_sum h master))
          × (has h after.pending_blobs ≡ (not (is_of h other_two) && has h master.pending_blobs)))
store_pack-is_known_example =
    store_pack-is_known toy_sum seeds 8 other_two master
      (first-IsIndex, (saved-IsIndex, (held-IsIndex, tt))) other_two_fit

finalize_not_final_indexes-is_known_example :
    ((finalize_not_final_indexes master).1 ≡ map PackIndex.finalize (open_ones master.idx))
    × ((finalize_not_final_indexes master).0 ≡ record master { idx = map close master.idx })
    × All IsFinal (finalize_not_final_indexes master).0.idx
    × (finalize_not_final_indexes (finalize_not_final_indexes master).0
        ≡ ((finalize_not_final_indexes master).0, []))
    × ((h : BlobHandle)
        → is_known toy_sum h (finalize_not_final_indexes master).0 ≡ is_known toy_sum h master)
finalize_not_final_indexes-is_known_example = finalize_not_final_indexes-is_known toy_sum master

size_of-lookup_example :
    (size_of toy_sum bh master ≡ size_in (first_blob (Master.lookup toy_sum bh master)))
    × (is_known toy_sum bh master
        ≡ (has bh master.pending_blobs || is_some (first_blob (Master.lookup toy_sum bh master))))
size_of-lookup_example = size_of-lookup toy_sum bh master

merge_final_indexes-lookup_example :
    (merged : Index) × (others : List Index) × (merge_final_indexes toy_sum master
      ≡ ok (record master { idx = merged ∷ others }))
    × All (IsIndex toy_sum) (merged ∷ others)
    × (merged.final ≡ true)
    × All (λ (i : Index). (i.final && has_ids i) ≡ false) others
    × ((pb : PackedBlob)
        → In pb (Master.lookup toy_sum bh (record master { idx = merged ∷ others }))
          ↔ In pb (Master.lookup toy_sum bh master))
merge_final_indexes-lookup_example =
    merge_final_indexes-lookup toy_sum bh (λ e. ground arith) master
      (record (new_index seeds) { final = true }) (saved ∷ held ∷ []) refl
      (first-IsIndex, (saved-IsIndex, (held-IsIndex, tt)))

saved_IsSavable : All IsSavable (each saved)
unfolding each each_of foreach oldest_first to_packed_blob pack_at Hashed.add Hashed.prepend
    Hashed.make_room Hashed.init Hashed.set_bucket Hashed.zeros Hashed.hash
saved_IsSavable = (
  (λ e. ground arith, (omega arith, omega arith, omega arith)),
  ((λ e. ground arith, (omega arith, omega arith, omega arith)), tt),
)

decode_index-generate_pack_list_example :
    (js : List PackJson) × (after : Index) × (generate_pack_list saved ≡ ok js)
    × (decode_index toy_sum seeds false (packs_json js) 6 ≡ ok (after, false))
    × IsIndex toy_sum after
    × (after.final ≡ true)
    × ((pb : PackedBlob) → In pb (lookup toy_sum bh after []) ↔ In pb (lookup toy_sum bh saved []))
decode_index-generate_pack_list_example =
    decode_index-generate_pack_list toy_sum seeds false 6 saved bh saved-IsIndex saved_IsSavable
      (λ e. ground arith)

offset_of : blob_index toy_sum (record { idx = held ∷ []; pending_blobs = [] }) bh ≡ some 1
unfolding blob_index PackIndex.blob_index Hashed.first_index Hashed.add Hashed.least_with_id
    Hashed.chain_of Hashed.prepend Hashed.set_bucket Hashed.make_room Hashed.init Hashed.zeros
    Hashed.hash Hashed.chain Hashed.bucket_at Hashed.resolve Hashed.smaller
offset_of = refl

blob_index-IsInjective_example :
    (Path BlobHandle bh bh)
    × (1 ≤ 1)
    × (1 ≤ stable_len (record { idx = held ∷ []; pending_blobs = [] }) data_blob)
blob_index-IsInjective_example =
    blob_index-IsInjective toy_sum (record { idx = held ∷ []; pending_blobs = [] }) bh bh 1
      (held-IsIndex, tt) offset_of offset_of refl

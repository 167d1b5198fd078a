-- ===== src/Index/Master.antt =====
-- internal/repository/index/master_index.go: the indexes of a repository, and the blobs that are being
-- saved. The lock is left out: each operation is one step. The seeds of a new index and its age are
-- parameters.
pub mod Known
pub mod Finalized
pub mod Merged
pub mod Offsets
pub mod Sizes
use vlbe.Base.{
  ℕ, Bool, true, false, ◌&&◌, ◌||◌, not, List, [], ◌∷◌, ◌++◌, Option, none, some, length, ltb, ◌==◌,
  if◌then◌else◌, add, has, remove, merge, sub, ℕ_key,
}
use vlbe.Restic.Blob.{ContentId, BlobType, BlobHandle, handle_key, Blob, PackedBlob}
use vlbe.Index.PackIndex.{
  Index, IndexAnswer, ok, err, ◌>>=◌, new_index, IndexError, out_of_range, get_ids, packs_of,
  index_full, has_blob, merge_index,
}
use vlbe.Index.PackIndex

-- `MasterIndex`
pub record MasterIndex : Type 0 where
  pub idx : List Index
  pub pending_blobs : List BlobHandle

-- `NewMasterIndex`, with `clear`
unfoldable pub new_master_index : (BlobType → ℕ) → MasterIndex
new_master_index seeds = record {
  idx = PackIndex.finalize (new_index seeds) ∷ [];
  pending_blobs = [];
}

-- the ids of the final indexes, as the loop of `IDs` collects them
unfoldable pub collect_ids : List Index → List ContentId → List ContentId
collect_ids [] ids = ids
collect_ids (i ∷ is) ids = if not i.final then collect_ids is ids else elim (get_ids i) [
  | err e ↦ collect_ids is ids
  | ok index_ids ↦ collect_ids is (merge ids index_ids)
]

-- `IDs`
unfoldable pub ids : MasterIndex → List ContentId
ids mi = collect_ids mi.idx []

-- `Packs`
unfoldable pub collect_packs : List ContentId → List Index → List ContentId → List ContentId
collect_packs blacklist [] packs = packs
collect_packs blacklist (i ∷ is) packs =
    let of_index =
      if i.final && ltb 0 (length blacklist) then sub (packs_of i) blacklist else packs_of i in
    collect_packs blacklist is (merge packs of_index)

unfoldable pub packs : List ContentId → MasterIndex → List ContentId
packs blacklist mi = collect_packs blacklist mi.idx []

-- `Insert`
unfoldable pub insert_index : Index → MasterIndex → MasterIndex
insert_index i mi = record mi { idx = mi.idx ++ (i ∷ []) }

-- `finalizeNotFinalIndexes`: the loop, with the indexes afterwards and the list
unfoldable pub finalize_all : List Index → List Index × List Index
finalize_all [] = ([], [])
finalize_all (i ∷ is) =
    let (after, list) = finalize_all is in
    if not i.final
    then (PackIndex.finalize i ∷ after, PackIndex.finalize i ∷ list)
    else (i ∷ after, list)

-- `finalizeFullIndexes`; `old` tells the age
unfoldable pub finalize_full : (Index → Bool) → List Index → List Index × List Index
finalize_full old [] = ([], [])
finalize_full old (i ∷ is) =
    let (after, list) = finalize_full old is in
    if i.final
    then (i ∷ after, list)
    else if index_full (old i) i
    then (PackIndex.finalize i ∷ after, PackIndex.finalize i ∷ list)
    else (i ∷ after, list)

unfoldable pub finalize_not_final_indexes : MasterIndex → MasterIndex × List Index
finalize_not_final_indexes mi =
    let (idx, list) = finalize_all mi.idx in (record mi { idx = idx }, list)

unfoldable pub finalize_full_indexes : (Index → Bool) → MasterIndex → MasterIndex × List Index
finalize_full_indexes old mi =
    let (idx, list) = finalize_full old mi.idx in (record mi { idx = idx }, list)

-- `mi.pendingBlobs.Delete` of every blob
unfoldable pub delete_pending : List Blob → List BlobHandle → List BlobHandle
delete_pending [] pending = pending
delete_pending (b ∷ bs) pending = delete_pending bs (remove b.handle pending)

-- are the ids of an index set? `IDs` fails on one that is not final.
unfoldable pub has_ids : Index → Bool
has_ids i = elim (get_ids i) [ err e ↦ false | ok ids ↦ not (length ids == 0) ]

module _ (sum64 : ℕ → ContentId → ℕ) where
  -- `Lookup`
  unfoldable pub lookup_all : BlobHandle → List Index → List PackedBlob → List PackedBlob
  lookup_all bh [] pbs = pbs
  lookup_all bh (i ∷ is) pbs = lookup_all bh is (PackIndex.lookup sum64 bh i pbs)

  unfoldable pub lookup : BlobHandle → MasterIndex → List PackedBlob
  lookup bh mi = lookup_all bh mi.idx []

  -- `LookupSize`
  unfoldable pub first_size : BlobHandle → List Index → Option ℕ
  first_size bh [] = none
  first_size bh (i ∷ is) = elim (PackIndex.lookup_size sum64 bh i) [
    | none ↦ first_size bh is
    | some size ↦ some size
  ]

  unfoldable pub size_of : BlobHandle → MasterIndex → Option ℕ
  size_of bh mi = first_size bh mi.idx

  -- the loop over the indexes in `Has` and `AddPending`
  unfoldable pub any_has : BlobHandle → List Index → Bool
  any_has bh [] = false
  any_has bh (i ∷ is) = has_blob sum64 bh i || any_has bh is

  -- `Has`
  unfoldable pub is_known : BlobHandle → MasterIndex → Bool
  is_known bh mi = has bh mi.pending_blobs || any_has bh mi.idx

  -- `AddPending`
  unfoldable pub add_pending : BlobHandle → MasterIndex → MasterIndex × Bool
  add_pending bh mi =
      if has bh mi.pending_blobs
      then (mi, false)
      else if any_has bh mi.idx
      then (mi, false)
      else (record mi { pending_blobs = add bh mi.pending_blobs }, true)

  -- the end of `StorePack`: into the first index that is not final, or a new one
  unfoldable pub store_in_first :
      (BlobType → ℕ) → ContentId → List Blob → List Index → IndexAnswer (List Index)
  store_in_first seeds id blobs [] =
      PackIndex.store_pack sum64 id blobs (new_index seeds) >>= λ i. ok (i ∷ [])
  store_in_first seeds id blobs (i ∷ is) =
      let rest = store_in_first seeds id blobs is in
      if not i.final
      then (PackIndex.store_pack sum64 id blobs i >>= λ after. ok (after ∷ is))
      else (rest >>= λ after. ok (i ∷ after))

  -- `StorePack`
  unfoldable pub store_pack :
      (BlobType → ℕ) → ContentId → List Blob → MasterIndex → IndexAnswer MasterIndex
  store_pack seeds id blobs mi = store_in_first seeds id blobs mi.idx >>= λ idx.
      ok (record { idx = idx; pending_blobs = delete_pending blobs mi.pending_blobs })

  -- the loop of `MergeFinalIndexes`: the first index, the others, and those that stay
  unfoldable pub merge_rest : Index → List Index → List Index → IndexAnswer (List Index)
  merge_rest first [] kept = ok (first ∷ kept)
  merge_rest first (i ∷ is) kept =
      if not i.final || not (has_ids i)
      then merge_rest first is (kept ++ (i ∷ []))
      else elim (merge_index sum64 first i) [
        | err e ↦ err e
        | ok merged ↦ merge_rest merged is kept
      ]

  -- `MergeFinalIndexes`
  unfoldable pub merge_final_indexes : MasterIndex → IndexAnswer MasterIndex
  merge_final_indexes mi = elim mi.idx [
    | [] ↦ err out_of_range
    | first ∷ rest ↦ merge_rest first rest [] >>= λ idx. ok (record mi { idx = idx })
  ]

  -- `blobIndex`, which panics where there is no index
  unfoldable pub blob_index : MasterIndex → BlobHandle → Option ℕ
  blob_index mi h = elim mi.idx [ [] ↦ none | first ∷ rest ↦ PackIndex.blob_index sum64 h first ]

-- `stableLen`
unfoldable pub stable_len : MasterIndex → BlobType → ℕ
stable_len mi t = elim mi.idx [ [] ↦ 0 | first ∷ rest ↦ PackIndex.len t first ]

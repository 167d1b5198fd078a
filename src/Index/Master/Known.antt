-- ===== src/Index/Master/Known.antt =====
-- Which blobs the master index knows.
use vlbe.Base.{
  ℕ, ◌≡◌, inl, inr, refl, ap, ◌∙◌, Bool, true, false, not, ◌&&◌, ◌||◌, Bool-cases, List, [], ◌∷◌,
  ◌++◌, Option, none, some, ◌==◌, map, arith, All, has, remove, has-add, has-remove,
}
use vlbe.Restic.Blob.{
  ContentId, BlobType, BlobHandle, same_handle, same_handle_iff, handle_key, Blob,
}
use vlbe.Index.Hashed.{IndexEntry}
use vlbe.Index.Hashed
use vlbe.Index.Hashed.Content.{content}
use vlbe.Index.Hashed.Lookup.{matching, newest_of, lookups_lem}
use vlbe.Index.PackIndex.{Index, IndexAnswer, ok, err, ◌>>=◌, new_index, to_packed_blob, has_blob}
use vlbe.Index.PackIndex
use vlbe.Index.PackIndex.Lookup.{IsIndex, found, new_index-IsIndex}
use vlbe.Index.PackIndex.Stored.{Fits, asked_of, store_pack-found}
use vlbe.Index.Master.{
  MasterIndex, any_has, is_known, add_pending, delete_pending, store_in_first, store_pack,
}

unfoldable not_empty : {A : Type 0} → List A → Bool
not_empty [] = false
not_empty (x ∷ xs) = true

not_empty-append :
    {A : Type 0} (xs ys : List A) → not_empty (xs ++ ys) ≡ (not_empty xs || not_empty ys)
unfolding not_empty
not_empty-append [] ys = refl
not_empty-append (x ∷ xs) ys = refl

-- is the handle of one of the blobs asked for?
unfoldable pub is_of : BlobHandle → List Blob → Bool
is_of bh [] = false
is_of bh (b ∷ bs) = same_handle b.handle bh || is_of bh bs

asked_of-is_of :
    (id : ContentId) (bh : BlobHandle) (bs : List Blob)
    → not_empty (asked_of id bh bs) ≡ is_of bh bs
unfolding asked_of is_of not_empty
asked_of-is_of id bh [] = refl
asked_of-is_of id bh (b ∷ bs) = elim (Bool-cases (same_handle b.handle bh)) [
  | inl here ↦
      rw here (
        not_empty-append (asked_of id bh bs) (record { blob = b; pack_id = id } ∷ [])
        ∙ ground arith)
  | inr other ↦
      rw other (not_empty-append (asked_of id bh bs) [] ∙ ground (arith, asked_of-is_of id bh bs))
]

some_newest :
    (packs : List ContentId) (t : BlobType) (id : ContentId) (es : List IndexEntry)
    → (elim (newest_of id es) as (λ o. Bool) [ none ↦ false | some e ↦ true ])
      ≡ not_empty (map (to_packed_blob packs t) (matching id es))
unfolding newest_of matching not_empty
some_newest packs t id [] = refl
some_newest packs t id (e ∷ es) = elim (Bool-cases (e.id == id)) [
  | inl here ↦ rw here refl
  | inr other ↦ rw other (some_newest packs t id es)
]

module _ (sum64 : ℕ → ContentId → ℕ) where
  has_blob-found :
      (bh : BlobHandle) (i : Index)
      → IsIndex sum64 i
      → has_blob sum64 bh i ≡ not_empty (found sum64 bh i)
  unfolding has_blob
  has_blob-found bh i h =
      ap (λ (o : Option IndexEntry). elim o as (λ o. Bool) [ none ↦ false | some e ↦ true ])
        (lookups_lem sum64 bh.id (i.by_type bh.tpe) (h.tables bh.tpe)).1
      ∙ some_newest i.packs bh.tpe bh.id (content (i.by_type bh.tpe))

  -- `AddPending` succeeds exactly on a blob that is not known, pending or in an index. It changes no index, and afterwards the known blobs are this one and those that were known.
  pub add_pending-is_known :
      (bh : BlobHandle) (mi : MasterIndex)
      → ((add_pending sum64 bh mi).1 ≡ not (is_known sum64 bh mi))
        × ((add_pending sum64 bh mi).0.idx ≡ mi.idx)
        × ((other : BlobHandle)
            → is_known sum64 other (add_pending sum64 bh mi).0
              ≡ (same_handle bh other || is_known sum64 other mi))
  unfolding add_pending is_known
  add_pending-is_known bh mi = (
    ground arith,
    ground arith,
    λ other. ground (arith, has-add bh other mi.pending_blobs, same_handle_iff bh other),
  )

  -- what one index has after it has stored a pack
  store_one :
      (id : ContentId) (bs : List Blob) (i : Index)
      → IsIndex sum64 i
      → i.final ≡ false
      → All Fits bs
      → (after : Index) × (PackIndex.store_pack sum64 id bs i ≡ ok after)
        × IsIndex sum64 after
        × ((bh : BlobHandle) → has_blob sum64 bh after ≡ (is_of bh bs || has_blob sum64 bh i))
  store_one id bs i h writable fits =
      let (after, done, valid, final, holds) = store_pack-found sum64 id bs i h writable fits in
      (
        after,
        done,
        valid,
        λ bh.
            has_blob-found bh after valid
            ∙ ap not_empty (holds bh)
            ∙ not_empty-append (asked_of id bh bs) (found sum64 bh i)
            ∙ rw (asked_of-is_of id bh bs, ← has_blob-found bh i h) refl,
      )

  new_index_has :
      (seeds : BlobType → ℕ) (bh : BlobHandle) → has_blob sum64 bh (new_index seeds) ≡ false
  unfolding content Hashed.newest_first matching not_empty
  new_index_has seeds bh = has_blob-found bh (new_index seeds) (new_index-IsIndex sum64 seeds)

  module _ (i : Index) (is : List Index) (seeds : BlobType → ℕ) (id : ContentId)
      (bs : List Blob) where
    later_index :
        (after : List Index)
        → i.final ≡ true
        → store_in_first sum64 seeds id bs is ≡ ok after
        → store_in_first sum64 seeds id bs (i ∷ is) ≡ ok (i ∷ after)
    unfolding store_in_first
    later_index after closed done = ground arith

    this_index :
        (after : Index)
        → i.final ≡ false
        → PackIndex.store_pack sum64 id bs i ≡ ok after
        → store_in_first sum64 seeds id bs (i ∷ is) ≡ ok (after ∷ is)
    unfolding store_in_first
    this_index after writable done = ground arith

  -- the indexes after `StorePack`
  store_in_first_lem :
      (seeds : BlobType → ℕ) (id : ContentId) (bs : List Blob) (is : List Index)
      → All (IsIndex sum64) is
      → All Fits bs
      → (after : List Index) × (store_in_first sum64 seeds id bs is ≡ ok after)
        × All (IsIndex sum64) after
        × ((bh : BlobHandle) → any_has sum64 bh after ≡ (is_of bh bs || any_has sum64 bh is))
  unfolding store_in_first any_has
  store_in_first_lem seeds id bs [] h fits =
      let (after, done, valid, holds) =
        store_one id bs (new_index seeds) (new_index-IsIndex sum64 seeds) refl fits in
      (
        after ∷ [],
        rw (store_in_first, done) refl,
        (valid, tt),
        λ bh. ground (arith, holds bh, new_index_has seeds bh),
      )
  store_in_first_lem seeds id bs (i ∷ is) (here, rest) fits = elim (Bool-cases i.final) [
    | inl closed ↦
        let (after, done, valid, holds) = store_in_first_lem seeds id bs is rest fits in
        (
          i ∷ after,
          later_index i is seeds id bs after closed done,
          (here, valid),
          λ bh. ground (arith, holds bh),
        )
    | inr writable ↦
        let (after, done, valid, holds) = store_one id bs i here writable fits in
        (
          after ∷ is,
          this_index i is seeds id bs after writable done,
          (valid, rest),
          λ bh. ground (arith, holds bh),
        )
  ]

  delete_pending-is_of :
      (bh : BlobHandle) (bs : List Blob) (pending : List BlobHandle)
      → has bh (delete_pending bs pending) ≡ (not (is_of bh bs) && has bh pending)
  unfolding delete_pending is_of
  delete_pending-is_of bh [] pending = refl
  delete_pending-is_of bh (b ∷ bs) pending =
      ground (
        arith,
        delete_pending-is_of bh bs (remove b.handle pending),
        has-remove b.handle bh pending,
      )

  -- `StorePack` on well-formed indexes, with sizes below 2^32, succeeds whether or not an index is still open, and keeps every index well formed. Afterwards the known blobs are those of the pack and those that were known, pending or not, and no blob of the pack is pending any more.
  pub store_pack-is_known :
      (seeds : BlobType → ℕ) (id : ContentId) (bs : List Blob) (mi : MasterIndex)
      → All (IsIndex sum64) mi.idx
      → All Fits bs
      → (after : MasterIndex) × (store_pack sum64 seeds id bs mi ≡ ok after)
        × All (IsIndex sum64) after.idx
        × ((bh : BlobHandle)
            → (is_known sum64 bh after ≡ (is_of bh bs || is_known sum64 bh mi))
              × (has bh after.pending_blobs ≡ (not (is_of bh bs) && has bh mi.pending_blobs)))
  unfolding store_pack is_known
  store_pack-is_known seeds id bs mi h fits =
      let (idx, done, valid, holds) = store_in_first_lem seeds id bs mi.idx h fits in
      (
        record { idx = idx; pending_blobs = delete_pending bs mi.pending_blobs },
        rw (store_pack, done) refl,
        valid,
        λ bh. (
          ground (arith, holds bh, delete_pending-is_of bh bs mi.pending_blobs),
          delete_pending-is_of bh bs mi.pending_blobs,
        ),
      )

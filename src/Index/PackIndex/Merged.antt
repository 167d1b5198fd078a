-- ===== src/Index/PackIndex/Merged.antt =====
-- The merge of two indexes holds what either holds.
use vlbe.Base.{
  ℕ, ◌≡◌, ◌≢◌, ◌↔◌, refl, sym, ap, subst, ◌⊎◌, inl, inr, true, not, List, [], ◌∷◌, ◌++◌, length,
  if◌then◌else◌, arith, All, All-append, In,
}
use vlbe.Restic.Blob.{
  ContentId, BlobType, invalid_blob, data_blob, tree_blob, num_blob_types, same_type, type_code,
  BlobHandle, PackedBlob,
}
use vlbe.Index.Hashed.{IndexEntry, IndexMap, Linked, newest_first, oldest_first, foreach}
use vlbe.Index.Hashed.Content.{content}
use vlbe.Index.PackIndex.{
  Index, ok, err, merged_not_final, all_types, set_map, merge_entries, merge_types, merge_index,
  lookup,
}
use vlbe.Index.PackIndex.Lookup.{
  IsOfPacks, IsIndex, found, lookup_lem, packed-append, IsOfPacks-append,
}
use vlbe.Index.PackIndex.Merging.{packed, IsTable, Gains, packed-oldest_first, merge_entries_lem}

All-oldest_first :
    (P : IndexEntry → Type 0) (es : List Linked) → All P (newest_first es) → All P (oldest_first es)
unfolding newest_first oldest_first
All-oldest_first P [] h = tt
All-oldest_first P (e ∷ es) (here, rest) =
    All-append P (oldest_first es) (e.entry ∷ []) (All-oldest_first P es rest) (here, tt)

module _ (sum64 : ℕ → ContentId → ℕ) (idx idx2 : Index) (h : IsIndex sum64 idx)
    (h2 : IsIndex sum64 idx2) where
  abbrev joined : Index
  joined = record idx { packs = idx.packs ++ idx2.packs }

  abbrev merged : Index
  merged = merge_types sum64 (length idx.packs) idx2 all_types joined

  abbrev merged_table : BlobType → IndexMap
  merged_table t =
      merge_entries sum64 (length idx.packs) joined.packs idx2.packs t (foreach (idx2.by_type t))
        (idx.by_type t)

  merged-by_type : (t : BlobType) → t ≢ num_blob_types → merged.by_type t ≡ merged_table t
  unfolding merge_types set_map same_type type_code
  merged-by_type invalid_blob real = refl
  merged-by_type data_blob real = refl
  merged-by_type tree_blob real = refl
  merged-by_type num_blob_types real = absurd (real refl)

  merged-num_blob_types : merged.by_type num_blob_types ≡ idx.by_type num_blob_types
  unfolding merge_types set_map same_type type_code
  merged-num_blob_types = refl

  merged-packs : merged.packs ≡ joined.packs
  unfolding merge_types
  merged-packs = refl

  before-IsTable : (t : BlobType) → IsTable sum64 idx.packs idx2.packs t (idx.by_type t)
  before-IsTable t =
      (h.tables t, IsOfPacks-append idx.packs idx2.packs (content (idx.by_type t)) (h.in_range t))

  merged_table_lem :
      (t : BlobType)
      → IsTable sum64 idx.packs idx2.packs t (merged_table t)
        × Gains sum64 idx.packs idx2.packs t
            (idx.by_type t)
            (foreach (idx2.by_type t))
            (merged_table t)
  unfolding foreach content
  merged_table_lem t =
      merge_entries_lem sum64 idx.packs idx2.packs t (foreach (idx2.by_type t)) (idx.by_type t)
        (before-IsTable t)
        (All-oldest_first (IsOfPacks idx2.packs) (idx2.by_type t).block_list (h2.in_range t))

  after-IsTable : (t : BlobType) → IsTable sum64 idx.packs idx2.packs t (merged.by_type t)
  after-IsTable num_blob_types =
      subst (IsTable sum64 idx.packs idx2.packs num_blob_types) (sym merged-num_blob_types)
        (before-IsTable num_blob_types)
  after-IsTable invalid_blob =
      subst (IsTable sum64 idx.packs idx2.packs invalid_blob)
        (sym (merged-by_type invalid_blob (λ e. ground arith))) (merged_table_lem invalid_blob).0
  after-IsTable data_blob =
      subst (IsTable sum64 idx.packs idx2.packs data_blob)
        (sym (merged-by_type data_blob (λ e. ground arith))) (merged_table_lem data_blob).0
  after-IsTable tree_blob =
      subst (IsTable sum64 idx.packs idx2.packs tree_blob)
        (sym (merged-by_type tree_blob (λ e. ground arith))) (merged_table_lem tree_blob).0

  merged-IsIndex : IsIndex sum64 merged
  unfolding merge_types
  merged-IsIndex = record { tables = λ t. (after-IsTable t).0; in_range = λ t. (after-IsTable t).1 }

  -- what is found for a handle of a real type
  found_after :
      (bh : BlobHandle) (pb : PackedBlob)
      → bh.tpe ≢ num_blob_types
      → In pb (found sum64 bh merged) ↔ (In pb (found sum64 bh idx) ⊎ In pb (found sum64 bh idx2))
  unfolding merge_types foreach content
  found_after bh pb real =
      let (out, into) = (merged_table_lem bh.tpe).1 bh.id pb in
      let whole : found sum64 bh merged
          ≡ packed joined.packs bh.tpe bh.id (content (merged_table bh.tpe)) =
        ap (λ m. packed joined.packs bh.tpe bh.id (content m)) (merged-by_type bh.tpe real) in
      let old =
        packed-append idx.packs idx2.packs bh.tpe bh.id (content (idx.by_type bh.tpe))
          (h.in_range bh.tpe) in
      let others =
        packed-oldest_first idx2.packs bh.tpe bh.id pb (idx2.by_type bh.tpe).block_list in
      (
        λ i. elim (out (subst (In pb) whole i)) [
          | inl a ↦ inl (subst (In pb) old a)
          | inr b ↦ inr (others.0 b)
        ],
        λ s.
            subst (In pb) (sym whole) (
              into (elim s [ inl a ↦ inl (subst (In pb) (sym old) a) | inr b ↦ inr (others.1 b) ])),
      )

  -- Merging a finalized index into another, both well-formed, succeeds and gives a well-formed index with
  -- the ids of both. For a handle of a real type, `Lookup` then finds exactly the packed blobs that it found in
  -- either index before.
  pub merge_index-lookup :
      (bh : BlobHandle)
      → bh.tpe ≢ num_blob_types
      → idx2.final ≡ true
      → (after : Index) × (merge_index sum64 idx idx2 ≡ ok after)
        × IsIndex sum64 after
        × (after.final ≡ idx.final)
        × (after.ids ≡ idx.ids ++ idx2.ids)
        × ((pb : PackedBlob)
            → In pb (lookup sum64 bh after [])
              ↔ (In pb (lookup sum64 bh idx []) ⊎ In pb (lookup sum64 bh idx2 [])))
  unfolding merge_index merge_types
  merge_index-lookup bh real final2 =
      let after : Index = record merged { ids = merged.ids ++ idx2.ids } in
      let valid : IsIndex sum64 after = record {
        tables = merged-IsIndex.tables;
        in_range = merged-IsIndex.in_range;
      } in
      (
        after,
        ap (λ c. if not c then err merged_not_final else ok after) final2,
        valid,
        refl,
        refl,
        λ pb.
            rw
              (
                lookup_lem sum64 bh after [] valid,
                lookup_lem sum64 bh idx [] h,
                lookup_lem sum64 bh idx2 [] h2,
              )
              (found_after bh pb real),
      )

-- ===== src/Index/Master/Merged.antt =====
-- Merging the final indexes of the master index.
use vlbe.Base.{
  ℕ, ◌≡◌, ◌≢◌, ◌↔◌, ◌⊎◌, inl, inr, refl, ◌∙◌, Bool, true, false, ◌&&◌, Bool-cases, List, [], ◌∷◌,
  ◌++◌, arith, All, All-append, In, In-append,
}
use vlbe.Restic.Blob.{ContentId, BlobHandle, num_blob_types, PackedBlob}
use vlbe.Index.PackIndex.{Index, IndexAnswer, ok, err, ◌>>=◌, merge_index}
use vlbe.Index.PackIndex
use vlbe.Index.PackIndex.Lookup.{IsIndex}
use vlbe.Index.PackIndex.Merged.{merge_index-lookup}
use vlbe.Index.Master.{MasterIndex, has_ids, merge_rest, merge_final_indexes, lookup_all, lookup}

module _ (sum64 : ℕ → ContentId → ℕ) (bh : BlobHandle) where
  -- one of the indexes finds the packed blob
  abbrev AnyFinds : PackedBlob → List Index → Type 0
  AnyFinds pb [] = ⊥
  AnyFinds pb (i ∷ is) = In pb (PackIndex.lookup sum64 bh i []) ⊎ AnyFinds pb is

  AnyFinds-append :
      (pb : PackedBlob) (is js : List Index)
      → AnyFinds pb (is ++ js) ↔ (AnyFinds pb is ⊎ AnyFinds pb js)
  AnyFinds-append pb [] js = (inr, λ s. elim s [ inl a ↦ absurd a | inr b ↦ b ])
  AnyFinds-append pb (i ∷ is) js = ground (arith, AnyFinds-append pb is js)

  In-lookup_all :
      (pb : PackedBlob) (is : List Index) (pbs : List PackedBlob)
      → In pb (lookup_all sum64 bh is pbs) ↔ (In pb pbs ⊎ AnyFinds pb is)
  unfolding lookup_all PackIndex.lookup
  In-lookup_all pb [] pbs = (inl, λ s. elim s [ inl a ↦ a | inr b ↦ absurd b ])
  In-lookup_all pb (i ∷ is) pbs = ground (
    arith,
    In-lookup_all pb is (PackIndex.lookup sum64 bh i pbs),
    In-append pb pbs (PackIndex.lookup sum64 bh i []),
  )

  -- an index that is merged into the first
  abbrev merges : Index → Bool
  merges i = i.final && has_ids i

  module _ (first i : Index) (is kept : List Index) where
    step_goes :
        (merged : Index)
        → merges i ≡ true
        → merge_index sum64 first i ≡ ok merged
        → merge_rest sum64 first (i ∷ is) kept ≡ merge_rest sum64 merged is kept
    unfolding merge_rest
    step_goes merged goes done = ground arith

    step_stays :
        merges i ≡ false
        → merge_rest sum64 first (i ∷ is) kept ≡ merge_rest sum64 first is (kept ++ (i ∷ []))
    unfolding merge_rest
    step_stays stays = ground arith

  merge_from :
      (mi : MasterIndex) (first : Index) (is : List Index) (merged : Index) (others : List Index)
      → mi.idx ≡ first ∷ is
      → merge_rest sum64 first is [] ≡ ok (merged ∷ others)
      → merge_final_indexes sum64 mi ≡ ok (record mi { idx = merged ∷ others })
  unfolding merge_final_indexes
  merge_from mi first is merged others whole done = ground arith

  module _ (real : bh.tpe ≢ num_blob_types) where
    merge_rest_lem :
        (first : Index) (is kept : List Index)
        → IsIndex sum64 first
        → All (IsIndex sum64) is
        → All (IsIndex sum64) kept
        → All (λ i. merges i ≡ false) kept
        → (merged : Index) × (others : List Index) × (merge_rest sum64 first is kept
            ≡ ok (merged ∷ others))
          × All (IsIndex sum64) (merged ∷ others)
          × (merged.final ≡ first.final)
          × All (λ i. merges i ≡ false) others
          × ((pb : PackedBlob)
              → AnyFinds pb (merged ∷ others) ↔ (AnyFinds pb (first ∷ is) ⊎ AnyFinds pb kept))
    unfolding merge_rest
    merge_rest_lem first [] kept valid hs ks stay =
        (first, kept, refl, (valid, ks), refl, stay, λ pb. ground arith)
    merge_rest_lem first (i ∷ is) kept valid (h, hs) ks stay = elim (Bool-cases (merges i)) [
      | inl goes ↦
          let closed : i.final ≡ true = ground arith in
          let (one, done, one_valid, one_final, one_ids, finds_one) =
            merge_index-lookup sum64 first i valid h bh real closed in
          let (merged, others, result, valid_all, final, left, finds) =
            merge_rest_lem one is kept one_valid hs ks stay in
          (
            merged,
            others,
            step_goes first i is kept one goes done ∙ result,
            valid_all,
            final ∙ one_final,
            left,
            λ pb. ground (arith, finds pb, finds_one pb),
          )
      | inr stays ↦
          let (merged, others, result, valid_all, final, left, finds) =
            merge_rest_lem first is (kept ++ (i ∷ [])) valid hs
              (All-append (IsIndex sum64) kept (i ∷ []) ks (h, tt))
              (All-append (λ i. merges i ≡ false) kept (i ∷ []) stay (stays, tt)) in
          (
            merged,
            others,
            step_stays first i is kept stays ∙ result,
            valid_all,
            final,
            left,
            λ pb. ground (arith, finds pb, AnyFinds-append pb kept (i ∷ [])),
          )
    ]

    -- `MergeFinalIndexes` on a master index with well-formed indexes, of which there is at least one, succeeds. Afterwards no index but the first is both final and has ids, every index is well formed and the first is as final as before. For a handle of a real type, `Lookup` finds exactly the packed blobs that it found before.
    pub merge_final_indexes-lookup :
        (mi : MasterIndex) (first : Index) (is : List Index)
        → mi.idx ≡ first ∷ is
        → All (IsIndex sum64) (first ∷ is)
        → (merged : Index) × (others : List Index) × (merge_final_indexes sum64 mi
            ≡ ok (record mi { idx = merged ∷ others }))
          × All (IsIndex sum64) (merged ∷ others)
          × (merged.final ≡ first.final)
          × All (λ i. (i.final && has_ids i) ≡ false) others
          × ((pb : PackedBlob)
              → In pb (lookup sum64 bh (record mi { idx = merged ∷ others }))
                ↔ In pb (lookup sum64 bh mi))
    unfolding merge_final_indexes lookup
    merge_final_indexes-lookup mi first is whole (valid, hs) =
        let (merged, others, done, valid_all, final, left, finds) =
          merge_rest_lem first is [] valid hs tt tt in
        (
          merged,
          others,
          merge_from mi first is merged others whole done,
          valid_all,
          final,
          left,
          λ pb. rw whole (
              ground (
                arith,
                finds pb,
                In-lookup_all pb (merged ∷ others) [],
                In-lookup_all pb (first ∷ is) [],
              )),
        )

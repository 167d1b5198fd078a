-- ===== src/Index/PackIndex/Merging.antt =====
-- What an index finds after another index was merged into it.
use vlbe.Base.{
  ℕ, ◌+◌, ◌≡◌, ◌↔◌, refl, sym, ap, subst, ◌⊎◌, inl, inr, true, Bool-cases, ==_iff, List, [], ◌∷◌,
  ◌++◌, length, length-append, ◌==◌, map, arith, All, In, In-append,
}
use vlbe.Restic.Blob.{ContentId, BlobType, PackedBlob, same_packed_blob, same_packed_blob_iff}
use vlbe.Index.Hashed.{
  IndexEntry, IndexMap, Linked, newest_first, oldest_first, foreach, foreach_with_id,
}
use vlbe.Index.Hashed
use vlbe.Index.Hashed.Content.{content, IsIndexMap, add-IsIndexMap}
use vlbe.Index.Hashed.Lookup.{matching, lookups_lem}
use vlbe.Index.PackIndex.{to_packed_blob, any_identical, merge_entry, merge_entries}
use vlbe.Index.PackIndex.Lookup.{IsOfPacks, pack_at_shift}

-- the packed blobs of some entries that an identifier asks for
abbrev pub packed : List ContentId → BlobType → ContentId → List IndexEntry → List PackedBlob
packed packs t id es = map (to_packed_blob packs t) (matching id es)

any_identical-In :
    (packs : List ContentId) (t : BlobType) (b2 : PackedBlob) (es : List IndexEntry)
    → any_identical packs t b2 es ≡ true
    → In b2 (map (to_packed_blob packs t) es)
unfolding any_identical
any_identical-In packs t b2 [] e = absurd (ground arith)
any_identical-In packs t b2 (f ∷ es) e =
    elim (Bool-cases (same_packed_blob (to_packed_blob packs t f) b2)) [
      | inl same ↦ inl (sym ((same_packed_blob_iff (to_packed_blob packs t f) b2).0 same))
      | inr other ↦ inr (any_identical-In packs t b2 es (ground arith))
    ]

packed_both :
    (packs : List ContentId) (t : BlobType) (id : ContentId) (es fs : List IndexEntry)
    → packed packs t id (es ++ fs) ≡ packed packs t id es ++ packed packs t id fs
unfolding matching
packed_both packs t id [] fs = refl
packed_both packs t id (e ∷ es) fs = elim (Bool-cases (e.id == id)) [
  | inl here ↦ rw here (ap (λ l. to_packed_blob packs t e ∷ l) (packed_both packs t id es fs))
  | inr other ↦ rw other (packed_both packs t id es fs)
]

module _ (packs : List ContentId) (t : BlobType) (id : ContentId) (pb : PackedBlob) where
  In-packed :
      (es fs : List IndexEntry)
      → In pb (packed packs t id (es ++ fs))
        ↔ (In pb (packed packs t id es) ⊎ In pb (packed packs t id fs))
  In-packed es fs =
      rw (packed_both packs t id es fs) (In-append pb (packed packs t id es) (packed packs t id fs))

  pub packed-oldest_first :
      (es : List Linked)
      → In pb (packed packs t id (oldest_first es)) ↔ In pb (packed packs t id (newest_first es))
  unfolding oldest_first newest_first
  packed-oldest_first [] = (λ i. i, λ i. i)
  packed-oldest_first (e ∷ es) = ground (
    arith,
    In-packed (oldest_first es) (e.entry ∷ []),
    In-packed (e.entry ∷ []) (newest_first es),
    packed-oldest_first es,
  )

module _ (sum64 : ℕ → ContentId → ℕ) (packs packs2 : List ContentId) (t : BlobType) where
  abbrev pub both : List ContentId
  both = packs ++ packs2

  -- a table of the merged index
  abbrev pub IsTable : IndexMap → Type 0
  IsTable m = IsIndexMap sum64 m × All (IsOfPacks both) (content m)

  abbrev pub Gains : IndexMap → List IndexEntry → IndexMap → Type 0
  Gains m es after =
      (id : ContentId) (pb : PackedBlob)
      → In pb (packed both t id (content after))
        ↔ (In pb (packed both t id (content m)) ⊎ In pb (packed packs2 t id es))

  merge_entry_known :
      (e2 : IndexEntry) (m : IndexMap)
      → IsTable m
      → any_identical both t (to_packed_blob packs2 t e2) (foreach_with_id sum64 e2.id m) ≡ true
      → Gains m (e2 ∷ []) m
  unfolding matching
  merge_entry_known e2 m (valid, ranged) known id pb =
      let there : In (to_packed_blob packs2 t e2) (packed both t e2.id (content m)) =
        subst (λ es. In (to_packed_blob packs2 t e2) (map (to_packed_blob both t) es))
          (lookups_lem sum64 e2.id m valid).0
          (any_identical-In both t (to_packed_blob packs2 t e2) (foreach_with_id sum64 e2.id m)
            known) in
      elim (Bool-cases (e2.id == id)) [
        | inl here ↦
            let asked : In (to_packed_blob packs2 t e2) (packed both t id (content m)) =
              subst (λ j. In (to_packed_blob packs2 t e2) (packed both t j (content m)))
                ((==_iff e2.id id).0 here) there in
            rw here (
              inl,
              λ s. elim s [
                | inl i ↦ i
                | inr (inl eq) ↦ subst (λ q. In q (packed both t id (content m))) (sym eq) asked
                | inr (inr i) ↦ absurd i
              ],
            )
        | inr other ↦ rw other (inl, λ s. elim s [ inl i ↦ i | inr i ↦ absurd i ])
      ]

  moved_entry :
      (e2 : IndexEntry) (id : ContentId)
      → packed both t id (record e2 { pack_index = e2.pack_index + length packs } ∷ [])
        ≡ packed packs2 t id (e2 ∷ [])
  unfolding matching to_packed_blob
  moved_entry e2 id = elim (Bool-cases (e2.id == id)) [
    | inl here ↦ rw (here, pack_at_shift packs packs2 e2.pack_index) refl
    | inr other ↦ rw other refl
  ]

  merge_entry_new :
      (e2 : IndexEntry) (m : IndexMap)
      → IsTable m
      → IsOfPacks packs2 e2
      → IsTable (Hashed.add sum64 (record e2 { pack_index = e2.pack_index + length packs }) m)
        × Gains m
            (e2 ∷ [])
            (Hashed.add sum64 (record e2 { pack_index = e2.pack_index + length packs }) m)
  merge_entry_new e2 m (valid, ranged) own =
      let e = record e2 { pack_index = e2.pack_index + length packs } in
      let (grown, same) = add-IsIndexMap sum64 e m valid in
      (
        (grown, rw same (omega (arith, length-append {0} packs packs2), ranged)),
        λ id pb.
            let (out, into) = In-packed both t id pb (e ∷ []) (content m) in
            let moved = moved_entry e2 id in
            rw same (
              λ i. elim (out i) [ inl a ↦ inr (subst (In pb) moved a) | inr b ↦ inl b ],
              λ s. elim s [
                | inl b ↦ into (inr b)
                | inr a ↦ into (inl (subst (In pb) (sym moved) a))
              ],
            ),
      )

  -- the other index's entries, one after another
  merge_entry_lem :
      (e2 : IndexEntry) (m : IndexMap)
      → IsTable m
      → IsOfPacks packs2 e2
      → IsTable (merge_entry sum64 (length packs) both packs2 t e2 m)
        × Gains m (e2 ∷ []) (merge_entry sum64 (length packs) both packs2 t e2 m)
  unfolding merge_entry
  merge_entry_lem e2 m table own =
      elim (Bool-cases
        (any_identical both t (to_packed_blob packs2 t e2) (foreach_with_id sum64 e2.id m))) [
          | inl known ↦ rw (merge_entry, known) (table, merge_entry_known e2 m table known)
          | inr fresh ↦ rw (merge_entry, fresh) (merge_entry_new e2 m table own)
        ]

  pub merge_entries_lem :
      (es2 : List IndexEntry) (m : IndexMap)
      → IsTable m
      → All (IsOfPacks packs2) es2
      → IsTable (merge_entries sum64 (length packs) both packs2 t es2 m)
        × Gains m es2 (merge_entries sum64 (length packs) both packs2 t es2 m)
  unfolding merge_entries matching
  merge_entries_lem [] m table own =
      (table, λ id pb. (inl, λ s. elim s [ inl i ↦ i | inr i ↦ absurd i ]))
  merge_entries_lem (e2 ∷ es2) m table (own, rest) =
      let (first, gains_one) = merge_entry_lem e2 m table own in
      let (done, gains_rest) =
        merge_entries_lem es2 (merge_entry sum64 (length packs) both packs2 t e2 m) first rest in
      (
        done,
        λ id pb.
            ground
              (arith, gains_one id pb, gains_rest id pb, In-packed packs2 t id pb (e2 ∷ []) es2),
      )

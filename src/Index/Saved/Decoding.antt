-- ===== src/Index/Saved/Decoding.antt =====
-- An index that is saved and loaded finds what it found before.
use vlbe.Base.{
  ℕ, ◌≡◌, ◌≢◌, ◌↔◌, ◌⊎◌, inl, inr, refl, sym, ap, subst, ◌∙◌, Bool, true, false, Bool-cases, List,
  [], ◌∷◌, ◌++◌, length, if◌then◌else◌, arith, All, In, In-append,
}
use vlbe.Restic.Blob.{
  ContentId, BlobType, num_blob_types, BlobHandle, same_handle, same_handle_iff, Blob, PackedBlob,
}
use vlbe.Index.Hashed.{newest_first}
use vlbe.Index.Hashed.Content.{content}
use vlbe.Index.Hashed.Lookup.{matching}
use vlbe.Index.PackIndex.{
  Index, finalized_store, ok, err, new_index, all_types, store_all, store_pack, lookup,
}
use vlbe.Index.PackIndex.Lookup.{IsIndex, found, lookup_lem, new_index-IsIndex}
use vlbe.Index.PackIndex.Stored.{asked_of, store_pack-found}
use vlbe.Index.Saved.{PackJson, each, generate_pack_list, packs_json, add_packs, decode_index}
use vlbe.Index.Saved.Types.{real_type, found_of_each, each_of-found}
use vlbe.Index.Saved.Listing.{of_pack, listed, AllFit, IsSavable, generate_pack_list_lem}

apart : (b : Blob) (bh : BlobHandle) → same_handle b.handle bh ≡ false → b.handle ≢ bh
apart b bh other same = ground (arith, same_handle_iff b.handle bh)

-- what a pack gives for a handle
asked_of-of_pack :
    (pb : PackedBlob) (id : ContentId) (bh : BlobHandle) (bs : List Blob)
    → In pb (asked_of id bh bs) ↔ (In pb (of_pack id bs) × (pb.handle ≡ bh))
unfolding asked_of
asked_of-of_pack pb id bh [] = (λ i. absurd i, λ s. absurd s.0)
asked_of-of_pack pb id bh (b ∷ bs) =
    let (out, into) = asked_of-of_pack pb id bh bs in
    let (split, join) =
      In-append pb (asked_of id bh bs)
        (if same_handle b.handle bh then record { blob = b; pack_id = id } ∷ [] else []) in
    elim (Bool-cases (same_handle b.handle bh)) [
      | inl same ↦
          let (split, join) =
            In-append pb (asked_of id bh bs) (record { blob = b; pack_id = id } ∷ []) in
          let eq = (same_handle_iff b.handle bh).0 same in
          rw same (
            λ i. elim (split i) [
              | inl a ↦ (inr (out a).0, (out a).1)
              | inr (inl e) ↦ (inl e, ap (λ (q : PackedBlob). q.handle) e ∙ eq)
              | inr (inr a) ↦ absurd a
            ],
            λ (i, handle). elim i [
              | inl e ↦ join (inr (inl e))
              | inr a ↦ join (inl (into (a, handle)))
            ],
          )
      | inr other ↦
          let (split, join) = In-append pb (asked_of id bh bs) [] in
          rw other (
            λ i. elim (split i) [ inl a ↦ (inr (out a).0, (out a).1) | inr a ↦ absurd a ],
            λ (i, handle). elim i [
              | inl e ↦
                  absurd (apart b bh other (sym (ap (λ (q : PackedBlob). q.handle) e) ∙ handle))
              | inr a ↦ join (inl (into (a, handle)))
            ],
          )
    ]

module _ (sum64 : ℕ → ContentId → ℕ) where
  stored_pack :
      (id : ContentId) (bs : List Blob) (idx after : Index)
      → idx.final ≡ false
      → store_pack sum64 id bs idx ≡ ok after
      → store_all sum64 (length idx.packs) bs (record idx { packs = idx.packs ++ (id ∷ []) })
        ≡ ok after
  unfolding store_pack
  stored_pack id bs idx after writable done =
      sym (
        ap
          (λ c.
            if c
            then err finalized_store
            else store_all sum64 (length idx.packs) bs
                (record idx { packs = idx.packs ++ (id ∷ []) }))
          writable)
      ∙ done

  -- the packs of a file, one after another
  add_packs_lem :
      (js : List PackJson) (idx : Index)
      → IsIndex sum64 idx
      → idx.final ≡ false
      → AllFit js
      → (after : Index) × (add_packs sum64 js idx ≡ ok after)
        × IsIndex sum64 after
        × ((bh : BlobHandle) (pb : PackedBlob)
            → In pb (found sum64 bh after)
              ↔ (In pb (found sum64 bh idx) ⊎ (In pb (listed js) × (pb.handle ≡ bh))))
  unfolding add_packs
  add_packs_lem [] idx h writable fits =
      (idx, refl, h, λ bh pb. (inl, λ s. elim s [ inl a ↦ a | inr (b, e) ↦ absurd b ]))
  add_packs_lem (j ∷ js) idx h writable (fit, fits) =
      let (one, done, one_valid, one_final, holds_one) =
        store_pack-found sum64 j.id j.blobs idx h writable fit in
      let (after, result, valid, holds) = add_packs_lem js one one_valid one_final fits in
      (
        after,
        rw (stored_pack j.id j.blobs idx one writable done) result,
        valid,
        λ bh pb.
            let one_found : In pb (found sum64 bh one)
                ↔ (In pb (asked_of j.id bh j.blobs) ⊎ In pb (found sum64 bh idx)) =
              rw (holds_one bh) (In-append pb (asked_of j.id bh j.blobs) (found sum64 bh idx)) in
            ground (
              arith,
              holds bh pb,
              one_found,
              asked_of-of_pack pb j.id bh j.blobs,
              In-append pb (of_pack j.id j.blobs) (listed js),
            ),
      )

  found_in_new : (seeds : BlobType → ℕ) (bh : BlobHandle) → found sum64 bh (new_index seeds) ≡ []
  unfolding content newest_first matching
  found_in_new seeds bh = refl

  -- An index is saved and loaded: where no pack id is null and the sizes are below 2^32, `generatePackList` on a well-formed index succeeds, and `DecodeIndex` of that list gives a finalized, well-formed index. For a handle of a real type its `Lookup` finds exactly the packed blobs that `Lookup` on the old index finds.
  pub decode_index-generate_pack_list :
      (seeds : BlobType → ℕ) (deprecated : Bool) (id : ContentId) (idx : Index) (bh : BlobHandle)
      → IsIndex sum64 idx
      → All IsSavable (each idx)
      → bh.tpe ≢ num_blob_types
      → (js : List PackJson) × (after : Index) × (generate_pack_list idx ≡ ok js)
        × (decode_index sum64 seeds deprecated (packs_json js) id ≡ ok (after, false))
        × IsIndex sum64 after
        × (after.final ≡ true)
        × ((pb : PackedBlob) → In pb (lookup sum64 bh after []) ↔ In pb (lookup sum64 bh idx []))
  unfolding decode_index each
  decode_index-generate_pack_list seeds deprecated id idx bh h savable real =
      let (js, listing, fits, holds) = generate_pack_list_lem idx savable in
      let (loaded, done, valid, loads) =
        add_packs_lem js (new_index seeds) (new_index-IsIndex sum64 seeds) refl fits in
      let after : Index = record loaded { ids = loaded.ids ++ (id ∷ []); final = true } in
      let after_valid : IsIndex sum64 after = record {
        tables = valid.tables;
        in_range = valid.in_range;
      } in
      (
        js,
        after,
        listing,
        rw done refl,
        after_valid,
        refl,
        λ pb.
            let (out, into) = loads bh pb in
            let nothing : found sum64 bh (new_index seeds) ≡ [] = found_in_new seeds bh in
            rw (lookup_lem sum64 bh after [] after_valid, lookup_lem sum64 bh idx [] h)
              (
                λ i. elim (out i) [
                  | inl a ↦ absurd (subst (In pb) nothing a)
                  | inr (there, handle) ↦
                      found_of_each sum64 bh idx pb all_types ((holds pb).0 there) handle
                ],
                λ i.
                    let (there, handle) =
                      each_of-found sum64 bh idx pb all_types (real_type bh.tpe real) i in
                    into (inr ((holds pb).1 there, handle)),
              ),
      )

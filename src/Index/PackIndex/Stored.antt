-- ===== src/Index/PackIndex/Stored.antt =====
-- What an index finds after it has stored a pack.
use vlbe.Base.{
  ℕ, ◌+◌, ◌≤◌, ◌<◌, ◌≡◌, refl, sym, ap, ◌∙◌, inl, inr, false, Bool-cases, List, [], ◌∷◌, ◌++◌,
  length, length-append, ltb, ◌==◌, if◌then◌else◌, arith, All,
}
use mathlib.Core.List.{append_assoc}
use vlbe.Restic.Blob.{
  ContentId, BlobType, same_type, same_type_iff, same_handle, BlobHandle, Blob, PackedBlob,
}
use vlbe.Index.Hashed.{IndexEntry, IndexMap}
use vlbe.Index.Hashed
use vlbe.Index.Hashed.Content.{content, IsIndexMap, add-IsIndexMap}
use vlbe.Index.Hashed.Lookup.{matching}
use vlbe.Index.PackIndex.{
  Index, ok, err, finalized_store, max_uint32, set_map, pack_at, to_packed_blob, store, store_all,
  store_pack, lookup,
}
use vlbe.Index.PackIndex.Lookup.{
  IsOfPacks, IsIndex, found, lookup_lem, pack_at_shift, packed-append, IsOfPacks-append,
}

-- the blobs of a pack that a handle asks for, the last one first
unfoldable pub asked_of : ContentId → BlobHandle → List Blob → List PackedBlob
asked_of pack bh [] = []
asked_of pack bh (b ∷ bs) =
    asked_of pack bh bs
    ++ (if same_handle b.handle bh then record { blob = b; pack_id = pack } ∷ [] else [])

-- the sizes fit into an entry
abbrev pub Fits : Blob → Type 0
Fits b = (b.offset ≤ max_uint32) × (b.length ≤ max_uint32) × (b.uncompressed_length ≤ max_uint32)

module _ (sum64 : ℕ → ContentId → ℕ) where
  -- the entry that `store` makes
  abbrev entry_of : ℕ → Blob → IndexEntry
  entry_of k b = record {
    id = b.handle.id;
    pack_index = k;
    offset = b.offset;
    length = b.length;
    uncompressed_length = b.uncompressed_length;
  }

  abbrev stored : ℕ → Blob → Index → Index
  stored k b idx = record idx {
    by_type =
        set_map b.handle.tpe (Hashed.add sum64 (entry_of k b) (idx.by_type b.handle.tpe))
          idx.by_type;
  }

  store-Fits : (k : ℕ) (b : Blob) (idx : Index) → Fits b → store sum64 k b idx ≡ ok (stored k b idx)
  unfolding store
  store-Fits k b idx (o, l, u) =
      let o_fits : ltb max_uint32 b.offset ≡ false = ground arith in
      let l_fits : ltb max_uint32 b.length ≡ false = ground arith in
      let u_fits : ltb max_uint32 b.uncompressed_length ≡ false = ground arith in
      rw (store, o_fits, l_fits, u_fits) refl

  -- the table of a type after a store
  stored-table :
      (k : ℕ) (b : Blob) (idx : Index) (t : BlobType)
      → IsIndex sum64 idx
      → IsIndexMap sum64 ((stored k b idx).by_type t)
        × (content ((stored k b idx).by_type t) ≡ (
            if same_type b.handle.tpe t
            then entry_of k b ∷ content (idx.by_type t)
            else content (idx.by_type t)))
  unfolding set_map
  stored-table k b idx t h = elim (Bool-cases (same_type b.handle.tpe t)) [
    | inl same ↦
        let eq = (same_type_iff b.handle.tpe t).0 same in
        rw (same, eq) (add-IsIndexMap sum64 (entry_of k b) (idx.by_type t) (h.tables t))
    | inr other ↦ rw other (h.tables t, refl)
  ]

  stored-IsIndex :
      (k : ℕ) (b : Blob) (idx : Index)
      → k < length idx.packs
      → IsIndex sum64 idx
      → IsIndex sum64 (stored k b idx)
  stored-IsIndex k b idx below h =
      let in_range_cons : (t : BlobType)
          → All (IsOfPacks idx.packs) (
              if same_type b.handle.tpe t
              then entry_of k b ∷ content (idx.by_type t)
              else content (idx.by_type t)) =
        λ t. elim (Bool-cases (same_type b.handle.tpe t)) [
          | inl same ↦ rw same (below, h.in_range t)
          | inr other ↦ rw other (h.in_range t)
        ] in
      record {
        tables = λ t. (stored-table k b idx t h).0;
        in_range = λ t. rw ((stored-table k b idx t h).1) (in_range_cons t);
      }

  stored-found :
      (k : ℕ) (b : Blob) (idx : Index) (bh : BlobHandle)
      → IsIndex sum64 idx
      → found sum64 bh (stored k b idx)
        ≡ (if same_handle b.handle bh
            then record { blob = b; pack_id = pack_at idx.packs k } ∷ []
            else [])
          ++ found sum64 bh idx
  unfolding same_handle matching to_packed_blob
  stored-found k b idx bh h =
      let held = (stored-table k b idx bh.tpe h).1 in
      elim (Bool-cases (same_type b.handle.tpe bh.tpe)) [
        | inl same ↦
            let eq = (same_type_iff b.handle.tpe bh.tpe).0 same in
            elim (Bool-cases (b.handle.id == bh.id)) [
              | inl here ↦
                  rw (held, same, here)
                    (ap
                      (λ t.
                        record {
                          blob = record b { handle = record { id = b.handle.id; tpe = t } };
                          pack_id = pack_at idx.packs k;
                        }
                        ∷ found sum64 bh idx)
                      (sym eq))
              | inr other ↦ rw (held, same, other) refl
            ]
        | inr apart ↦ elim (Bool-cases (b.handle.id == bh.id)) [
          | inl here ↦ rw (held, apart, here) refl
          | inr other ↦ rw (held, apart, other) refl
        ]
      ]

  pub store_all_lem :
      (k : ℕ) (bs : List Blob) (idx : Index)
      → IsIndex sum64 idx
      → k < length idx.packs
      → All Fits bs
      → (after : Index) × (store_all sum64 k bs idx ≡ ok after)
        × IsIndex sum64 after
        × (after.packs ≡ idx.packs)
        × (after.final ≡ idx.final)
        × (after.ids ≡ idx.ids)
        × ((bh : BlobHandle)
            → found sum64 bh after ≡ asked_of (pack_at idx.packs k) bh bs ++ found sum64 bh idx)
  unfolding store_all asked_of
  store_all_lem k [] idx h below fits = (idx, refl, h, refl, refl, refl, λ bh. refl)
  store_all_lem k (b ∷ bs) idx h below (fit, fits) =
      let (after, done, valid, packs, final, ids, holds) =
        store_all_lem k bs (stored k b idx) (stored-IsIndex k b idx below h) below fits in
      (
        after,
        rw (store_all, store-Fits k b idx fit, done) refl,
        valid,
        packs,
        final,
        ids,
        λ bh.
            holds bh
            ∙ ap (λ l. asked_of (pack_at idx.packs k) bh bs ++ l) (stored-found k b idx bh h)
            ∙ sym (append_assoc (asked_of (pack_at idx.packs k) bh bs) _ (found sum64 bh idx)),
      )

  -- `StorePack` in terms of what is found
  pub store_pack-found :
      (id : ContentId) (bs : List Blob) (idx : Index)
      → IsIndex sum64 idx
      → idx.final ≡ false
      → All Fits bs
      → (after : Index) × (store_pack sum64 id bs idx ≡ ok after)
        × IsIndex sum64 after
        × (after.final ≡ false)
        × ((bh : BlobHandle) → found sum64 bh after ≡ asked_of id bh bs ++ found sum64 bh idx)
  unfolding store_pack pack_at
  store_pack-found id bs idx h writable fits =
      let packs = idx.packs ++ (id ∷ []) in
      let begun : Index = record idx { packs = packs } in
      let begun-IsIndex : IsIndex sum64 begun = record {
        tables = h.tables;
        in_range =
            λ t. IsOfPacks-append idx.packs (id ∷ []) (content (idx.by_type t)) (h.in_range t);
      } in
      let last_at : length idx.packs ≡ 0 + length idx.packs = omega arith in
      let last : pack_at packs (length idx.packs) ≡ id =
        ap (pack_at packs) last_at ∙ pack_at_shift idx.packs (id ∷ []) 0 in
      let (after, done, valid, same_packs, final, ids, holds) =
        store_all_lem (length idx.packs) bs begun begun-IsIndex
          (omega (arith, length-append {0} idx.packs (id ∷ []))) fits in
      (
        after,
        ap (λ c. if c then err finalized_store else store_all sum64 (length idx.packs) bs begun)
              writable
            ∙ done,
        valid,
        final ∙ writable,
        λ bh.
            holds bh
            ∙ rw last (
                ap (λ l. asked_of id bh bs ++ l)
                  (packed-append idx.packs (id ∷ []) bh.tpe bh.id (content (idx.by_type bh.tpe))
                    (h.in_range bh.tpe))),
      )

  -- `StorePack` on a well-formed index that is not finalized, with sizes below 2^32, succeeds and keeps the
  -- index well formed and not finalized. Afterwards `Lookup` finds, for every handle, the blobs of the new
  -- pack with that handle, each with this pack, in front of what it found before.
  pub store_pack-lookup :
      (id : ContentId) (bs : List Blob) (idx : Index)
      → IsIndex sum64 idx
      → idx.final ≡ false
      → All Fits bs
      → (after : Index) × (store_pack sum64 id bs idx ≡ ok after)
        × IsIndex sum64 after
        × (after.final ≡ false)
        × ((bh : BlobHandle)
            → lookup sum64 bh after [] ≡ asked_of id bh bs ++ lookup sum64 bh idx [])
  store_pack-lookup id bs idx h writable fits =
      let (after, done, valid, final, holds) = store_pack-found id bs idx h writable fits in
      (
        after,
        done,
        valid,
        final,
        λ bh.
            lookup_lem sum64 bh after [] valid
            ∙ holds bh
            ∙ ap (λ l. asked_of id bh bs ++ l) (sym (lookup_lem sum64 bh idx [] h)),
      )

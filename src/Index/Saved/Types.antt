-- ===== src/Index/Saved/Types.antt =====
-- `Each` passes the blobs that `Lookup` finds.
use vlbe.Base.{
  ℕ, ◌≡◌, ◌≢◌, ◌↔◌, inl, inr, refl, sym, ap, subst, ◌∙◌, false, Bool-cases, ==_iff, List, [], ◌∷◌,
  ◌==◌, map, arith, In, In-append,
}
use vlbe.Restic.Blob.{
  ContentId, BlobType, num_blob_types, invalid_blob, data_blob, tree_blob, BlobHandle, PackedBlob,
}
use vlbe.Index.Hashed.{IndexEntry, foreach}
use vlbe.Index.Hashed.Content.{content}
use vlbe.Index.Hashed.Lookup.{matching}
use vlbe.Index.PackIndex.{Index, all_types, to_packed_blob}
use vlbe.Index.PackIndex.Lookup.{found}
use vlbe.Index.PackIndex.Merging.{packed-oldest_first}
use vlbe.Index.Saved.{each_of}

pub real_type : (t : BlobType) → t ≢ num_blob_types → In t all_types
real_type invalid_blob real = inl refl
real_type data_blob real = inr (inl refl)
real_type tree_blob real = inr (inr (inl refl))
real_type num_blob_types real = absurd (real refl)

other_id : (e : IndexEntry) (id : ContentId) → (e.id == id) ≡ false → e.id ≢ id
other_id e id other same = ground arith

module _ (sum64 : ℕ → ContentId → ℕ) where
  -- the entries of one type that a handle asks for
  module _ (packs : List ContentId) (t : BlobType) (pb : PackedBlob) where
    In-matching :
        (id : ContentId) (es : List IndexEntry)
        → In pb (map (to_packed_blob packs t) (matching id es))
          ↔ (In pb (map (to_packed_blob packs t) es) × (pb.handle ≡ record { id = id; tpe = t }))
    unfolding matching to_packed_blob
    In-matching id [] = (λ i. absurd i, λ s. absurd s.0)
    In-matching id (e ∷ es) =
        let (out, into) = In-matching id es in
        elim (Bool-cases (e.id == id)) [
          | inl here ↦ rw here (
            λ i. elim i [
              | inl eq ↦ (
                inl eq,
                ap (λ (q : PackedBlob). q.handle) eq
                    ∙ ap (λ k. record { id = k; tpe = t }) ((==_iff e.id id).0 here),
              )
              | inr a ↦ (inr (out a).0, (out a).1)
            ],
            λ (i, handle). elim i [ inl eq ↦ inl eq | inr a ↦ inr (into (a, handle)) ],
          )
          | inr other ↦ rw other (
            λ i. (inr (out i).0, (out i).1),
            λ (i, handle). elim i [
              | inl eq ↦ absurd (
                  other_id e id other (
                    sym (ap (λ (q : PackedBlob). q.handle.id) eq)
                    ∙ ap (λ (g : BlobHandle). g.id) handle))
              | inr a ↦ into (a, handle)
            ],
          )
        ]

    type_of : (es : List IndexEntry) → In pb (map (to_packed_blob packs t) es) → pb.handle.tpe ≡ t
    unfolding to_packed_blob
    type_of [] i = absurd i
    type_of (e ∷ es) (inl eq) = ap (λ (q : PackedBlob). q.handle.tpe) eq
    type_of (e ∷ es) (inr i) = type_of es i

  module _ (bh : BlobHandle) (idx : Index) (pb : PackedBlob) where
    abbrev of_type : BlobType → List PackedBlob
    of_type t = map (to_packed_blob idx.packs t) (foreach (idx.by_type t))

    of_own_type : (In pb (of_type bh.tpe) × (pb.handle ≡ bh)) ↔ In pb (found sum64 bh idx)
    unfolding foreach content
    of_own_type =
        let (out, into) = In-matching idx.packs bh.tpe pb bh.id (foreach (idx.by_type bh.tpe)) in
        let (newer, older) =
          packed-oldest_first idx.packs bh.tpe bh.id pb (idx.by_type bh.tpe).block_list in
        (λ s. newer (into s), λ i. out (older i))

    pub found_of_each :
        (ts : List BlobType) → In pb (each_of idx ts) → pb.handle ≡ bh → In pb (found sum64 bh idx)
    unfolding each_of
    found_of_each [] i handle = absurd i
    found_of_each (t ∷ ts) i handle = elim ((In-append pb (of_type t) (each_of idx ts)).0 i) [
      | inl own ↦
          let eq : t ≡ bh.tpe =
            sym (type_of idx.packs t pb (foreach (idx.by_type t)) own)
            ∙ ap (λ (g : BlobHandle). g.tpe) handle in
          of_own_type.0 (subst (λ s. In pb (of_type s)) eq own, handle)
      | inr others ↦ found_of_each ts others handle
    ]

    pub each_of-found :
        (ts : List BlobType)
        → In bh.tpe ts
        → In pb (found sum64 bh idx)
        → In pb (each_of idx ts) × (pb.handle ≡ bh)
    unfolding each_of
    each_of-found [] listed_type i = absurd listed_type
    each_of-found (t ∷ ts) (inl eq) i =
        let (own, handle) = of_own_type.1 i in
        (
          (In-append pb (of_type t) (each_of idx ts)).1
              (inl (subst (λ s. In pb (of_type s)) eq own)),
          handle,
        )
    each_of-found (t ∷ ts) (inr later) i =
        let (others, handle) = each_of-found ts later i in
        ((In-append pb (of_type t) (each_of idx ts)).1 (inr others), handle)

-- ===== src/Index/Saved/Listing.antt =====
-- The list of packs holds the blobs of the index.
use vlbe.Base.{
  ◌≡◌, ◌≢◌, ◌↔◌, ◌⊎◌, inl, inr, refl, subst, false, Bool-cases, ==_iff, List, [], ◌∷◌, ◌++◌, ◌==◌,
  arith, All, All-append, In, In-append,
}
use vlbe.Restic.Blob.{ContentId, Blob, PackedBlob}
use vlbe.Index.PackIndex.{Index, ok}
use vlbe.Index.PackIndex.Stored.{Fits}
use vlbe.Index.Saved.{PackJson, each, append_blob, generate_from, generate_pack_list}

-- the blobs of one pack, and of all packs of a list
abbrev pub of_pack : ContentId → List Blob → List PackedBlob
of_pack id [] = []
of_pack id (b ∷ bs) = record { blob = b; pack_id = id } ∷ of_pack id bs

abbrev pub listed : List PackJson → List PackedBlob
listed [] = []
listed (j ∷ js) = of_pack j.id j.blobs ++ listed js

In-of_pack :
    (pb : PackedBlob) (id : ContentId) (bs cs : List Blob)
    → In pb (of_pack id (bs ++ cs)) ↔ (In pb (of_pack id bs) ⊎ In pb (of_pack id cs))
In-of_pack pb id [] cs = (inr, λ s. elim s [ inl a ↦ absurd a | inr b ↦ b ])
In-of_pack pb id (b ∷ bs) cs = ground (arith, In-of_pack pb id bs cs)

listed-append_blob :
    (pb : PackedBlob) (id : ContentId) (b : Blob) (js : List PackJson)
    → In pb (listed (append_blob id b js))
      ↔ (In pb (listed js) ⊎ (pb ≡ record { blob = b; pack_id = id }))
unfolding append_blob
listed-append_blob pb id b [] = (
  λ i. elim i [ inl e ↦ inr e | inr a ↦ absurd a ],
  λ s. elim s [ inl a ↦ absurd a | inr e ↦ inl e ],
)
listed-append_blob pb id b (j ∷ js) = elim (Bool-cases (j.id == id)) [
  | inl same ↦ rw same (
      subst
        (λ k.
          In pb (of_pack j.id (j.blobs ++ (b ∷ [])) ++ listed js)
          ↔ (In pb (of_pack j.id j.blobs ++ listed js) ⊎ (pb ≡ record { blob = b; pack_id = k })))
        ((==_iff j.id id).0 same)
        (ground (
          arith,
          In-append pb (of_pack j.id (j.blobs ++ (b ∷ []))) (listed js),
          In-append pb (of_pack j.id j.blobs) (listed js),
          In-of_pack pb j.id j.blobs (b ∷ []),
        )))
  | inr other ↦ rw other (
      ground (
        arith,
        listed-append_blob pb id b js,
        In-append pb (of_pack j.id j.blobs) (listed (append_blob id b js)),
        In-append pb (of_pack j.id j.blobs) (listed js),
      ))
]

-- the sizes of all blobs fit
abbrev pub AllFit : List PackJson → Type 0
AllFit js = All (λ (j : PackJson). All Fits j.blobs) js

append_blob-AllFit :
    (id : ContentId) (b : Blob) (js : List PackJson)
    → Fits b
    → AllFit js
    → AllFit (append_blob id b js)
unfolding append_blob
append_blob-AllFit id b [] fit fits = ((fit, tt), tt)
append_blob-AllFit id b (j ∷ js) fit (here, rest) = elim (Bool-cases (j.id == id)) [
  | inl same ↦ rw same (All-append Fits j.blobs (b ∷ []) here (fit, tt), rest)
  | inr other ↦ rw other (here, append_blob-AllFit id b js fit rest)
]

-- a blob that can be saved: its pack is not null and its sizes fit
abbrev pub IsSavable : PackedBlob → Type 0
IsSavable pb = (pb.pack_id ≢ 0) × Fits pb.blob

generate_from_lem :
    (pbs : List PackedBlob) (list : List PackJson)
    → All IsSavable pbs
    → AllFit list
    → (js : List PackJson) × (generate_from pbs list ≡ ok js)
      × AllFit js
      × ((pb : PackedBlob) → In pb (listed js) ↔ (In pb (listed list) ⊎ In pb pbs))
unfolding generate_from
generate_from_lem [] list h fits =
    (list, refl, fits, λ pb. (inl, λ s. elim s [ inl a ↦ a | inr b ↦ absurd b ]))
generate_from_lem (pb ∷ pbs) list ((real, fit), h) fits =
    let (js, done, fit_all, holds) =
      generate_from_lem pbs (append_blob pb.pack_id pb.blob list) h
        (append_blob-AllFit pb.pack_id pb.blob list fit fits) in
    let not_null : (pb.pack_id == 0) ≡ false = ground arith in
    (
      js,
      rw (generate_from, not_null) done,
      fit_all,
      λ qb. ground (arith, holds qb, listed-append_blob qb pb.pack_id pb.blob list),
    )

-- The list of packs is made, and holds the blobs of the index.
pub generate_pack_list_lem :
    (idx : Index)
    → All IsSavable (each idx)
    → (js : List PackJson) × (generate_pack_list idx ≡ ok js)
      × AllFit js
      × ((pb : PackedBlob) → In pb (listed js) ↔ In pb (each idx))
unfolding generate_pack_list
generate_pack_list_lem idx h =
    let (js, done, fits, holds) = generate_from_lem (each idx) [] h tt in
    (js, done, fits, λ pb. ground (arith, holds pb))

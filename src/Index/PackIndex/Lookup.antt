-- ===== src/Index/PackIndex/Lookup.antt =====
-- What a well-formed index finds.
use vlbe.Base.{
  ℕ, zero, suc, ◌+◌, ◌<◌, ◌≡◌, refl, ap, ◌∙◌, inl, inr, Bool-cases, List, [], ◌∷◌, ◌++◌, length,
  length-append, ◌==◌, map, arith, All,
}
use vlbe.Restic.Blob.{ContentId, BlobType, BlobHandle, PackedBlob}
use vlbe.Index.Hashed.{IndexEntry, IndexMap}
use vlbe.Index.Hashed
use vlbe.Index.Hashed.Content.{content, IsIndexMap, new_index_map-IsIndexMap}
use vlbe.Index.Hashed.Lookup.{matching, lookups_lem}
use vlbe.Index.PackIndex.{Index, new_index, pack_at, to_packed_blob, lookup}

-- an entry is of a pack of the index
abbrev pub IsOfPacks : List ContentId → IndexEntry → Type 0
IsOfPacks packs e = e.pack_index < length packs

module _ (sum64 : ℕ → ContentId → ℕ) where
  pub record IsIndex (idx : Index) : Type 0 where
    pub tables : (t : BlobType) → IsIndexMap sum64 (idx.by_type t)
    pub in_range : (t : BlobType) → All (IsOfPacks idx.packs) (content (idx.by_type t))

  pub new_index-IsIndex : (seeds : BlobType → ℕ) → IsIndex (new_index seeds)
  unfolding content Hashed.newest_first
  new_index-IsIndex seeds = record {
    tables = λ t. new_index_map-IsIndexMap sum64 (seeds t);
    in_range = λ t. tt;
  }

  -- what an index holds for a handle, in the order of `Lookup`
  abbrev pub found : BlobHandle → Index → List PackedBlob
  found bh idx =
      map (to_packed_blob idx.packs bh.tpe) (matching bh.id (content (idx.by_type bh.tpe)))

  pub lookup_lem :
      (bh : BlobHandle) (idx : Index) (pbs : List PackedBlob)
      → IsIndex idx
      → lookup sum64 bh idx pbs ≡ pbs ++ found bh idx
  unfolding lookup
  lookup_lem bh idx pbs h =
      ap (λ es. pbs ++ map (to_packed_blob idx.packs bh.tpe) es)
        (lookups_lem sum64 bh.id (idx.by_type bh.tpe) (h.tables bh.tpe)).0

pack_at-append :
    (ps qs : List ContentId) (i : ℕ) → i < length ps → pack_at (ps ++ qs) i ≡ pack_at ps i
unfolding pack_at
pack_at-append [] qs i below = absurd (omega arith)
pack_at-append (p ∷ ps) qs zero below = refl
pack_at-append (p ∷ ps) qs (suc i) below = pack_at-append ps qs i (omega arith)

pub pack_at_shift :
    (ps qs : List ContentId) (i : ℕ) → pack_at (ps ++ qs) (i + length ps) ≡ pack_at qs i
unfolding pack_at
pack_at_shift [] qs i = ap (pack_at qs) (omega arith)
pack_at_shift (p ∷ ps) qs i =
    let next : i + length (p ∷ ps) ≡ suc (i + length ps) = omega arith in
    ap (pack_at (p ∷ (ps ++ qs))) next ∙ pack_at_shift ps qs i

-- More packs behind the old ones change nothing.
pub packed-append :
    (packs more : List ContentId) (t : BlobType) (id : ContentId) (es : List IndexEntry)
    → All (IsOfPacks packs) es
    → map (to_packed_blob (packs ++ more) t) (matching id es)
      ≡ map (to_packed_blob packs t) (matching id es)
unfolding matching to_packed_blob
packed-append packs more t id [] h = refl
packed-append packs more t id (e ∷ es) (here, rest) = elim (Bool-cases (e.id == id)) [
  | inl same ↦
      rw (same, packed-append packs more t id es rest, pack_at-append packs more e.pack_index here)
        refl
  | inr other ↦ rw other (packed-append packs more t id es rest)
]

pub IsOfPacks-append :
    (packs more : List ContentId) (es : List IndexEntry)
    → All (IsOfPacks packs) es
    → All (IsOfPacks (packs ++ more)) es
IsOfPacks-append packs more [] h = tt
IsOfPacks-append packs more (e ∷ es) (here, rest) =
    (omega (arith, length-append {0} packs more), IsOfPacks-append packs more es rest)

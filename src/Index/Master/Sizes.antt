-- ===== src/Index/Master/Sizes.antt =====
-- The three questions that the master index answers about a blob agree.
use vlbe.Base.{
  ℕ, ◌≡◌, refl, sym, ap, ◌∙◌, inl, inr, Bool, true, false, not, ◌||◌, Bool-cases, List, [], ◌∷◌,
  ◌++◌, Option, none, some, ◌==◌, if◌then◌else◌, map, has,
}
use vlbe.Restic.Blob.{ContentId, BlobHandle, BlobType, PackedBlob, data_length, handle_key}
use vlbe.Index.Hashed.{IndexEntry, with_id, first_with_id, foreach_with_id, get, chain_of}
use vlbe.Index.PackIndex.{Index, to_packed_blob, has_blob, lookup_size}
use vlbe.Index.PackIndex
use vlbe.Crypto
use vlbe.Index.Master.{MasterIndex, lookup_all, lookup, first_size, size_of, any_has, is_known}

-- the first packed blob, and its size
abbrev pub first_blob : List PackedBlob → Option PackedBlob
first_blob [] = none
first_blob (pb ∷ pbs) = some pb

abbrev pub size_in : Option PackedBlob → Option ℕ
size_in none = none
size_in (some pb) = some (data_length pb.blob)

abbrev pub is_some : Option PackedBlob → Bool
is_some none = false
is_some (some pb) = true

-- the first of two lists
abbrev or_first : Option PackedBlob → Option PackedBlob → Option PackedBlob
or_first none o = o
or_first (some pb) o = some pb

first_blob-append :
    (xs ys : List PackedBlob) → first_blob (xs ++ ys) ≡ or_first (first_blob xs) (first_blob ys)
first_blob-append [] ys = refl
first_blob-append (x ∷ xs) ys = refl

-- the first entry of an identifier, as a packed blob
abbrev packed : List ContentId → BlobType → Option IndexEntry → Option PackedBlob
packed packs t none = none
packed packs t (some e) = some (to_packed_blob packs t e)

first_blob-with_id :
    (packs : List ContentId) (t : BlobType) (id : ContentId) (es : List (ℕ × IndexEntry))
    → first_blob (map (to_packed_blob packs t) (with_id id es))
      ≡ packed packs t (first_with_id id es)
unfolding with_id first_with_id
first_blob-with_id packs t id [] = refl
first_blob-with_id packs t id ((ei, e) ∷ es) = elim (Bool-cases (e.id == id)) [
  | inl same ↦ rw same refl
  | inr other ↦ rw other (first_blob-with_id packs t id es)
]

-- `LookupSize` and `Has` of one index, by the entry that `get` finds
size-packed :
    (packs : List ContentId) (t : BlobType) (e : IndexEntry)
    → size_in (packed packs t (some e)) ≡ (
        if not (e.uncompressed_length == 0)
        then some e.uncompressed_length
        else some (Crypto.plaintext_length e.length))
unfolding to_packed_blob data_length
size-packed packs t e = elim (Bool-cases (e.uncompressed_length == 0)) [
  | inl zero_length ↦ rw zero_length refl
  | inr compressed ↦ rw compressed refl
]

or_first_assoc : (a b c : Option PackedBlob) → or_first (or_first a b) c ≡ or_first a (or_first b c)
or_first_assoc none b c = refl
or_first_assoc (some pb) b c = refl

or_first-none : (a : Option PackedBlob) → or_first a none ≡ a
or_first-none none = refl
or_first-none (some pb) = refl

is_some-or_first : (a b : Option PackedBlob) → is_some (or_first a b) ≡ (is_some a || is_some b)
is_some-or_first none b = refl
is_some-or_first (some pb) b = refl

-- what `LookupSize` and `Has` make of the entry, and the loop of `LookupSize` of a size
abbrev size_by : Option IndexEntry → Option ℕ
size_by o = elim o [
  | none ↦ none
  | some e ↦
      if not (e.uncompressed_length == 0)
      then some e.uncompressed_length
      else some (Crypto.plaintext_length e.length)
]

size_by-packed :
    (packs : List ContentId) (t : BlobType) (o : Option IndexEntry)
    → size_by o ≡ size_in (packed packs t o)
size_by-packed packs t none = refl
size_by-packed packs t (some e) = sym (size-packed packs t e)

abbrev has_by : Option IndexEntry → Bool
has_by o = elim o [ none ↦ false | some e ↦ true ]

has_by-packed :
    (packs : List ContentId) (t : BlobType) (o : Option IndexEntry)
    → has_by o ≡ is_some (packed packs t o)
has_by-packed packs t none = refl
has_by-packed packs t (some e) = refl

abbrev next_size : Option ℕ → Option ℕ → Option ℕ
next_size o rest = elim o [ none ↦ rest | some size ↦ some size ]

next_size-or_first :
    (a b : Option PackedBlob) → next_size (size_in a) (size_in b) ≡ size_in (or_first a b)
next_size-or_first none b = refl
next_size-or_first (some pb) b = refl

module _ (sum64 : ℕ → ContentId → ℕ) (bh : BlobHandle) where
  abbrev entry_in : Index → Option IndexEntry
  entry_in i = get sum64 bh.id (i.by_type bh.tpe)

  abbrev found_in : Index → Option PackedBlob
  found_in i = packed i.packs bh.tpe (entry_in i)

  -- the first packed blob that the indexes hold
  abbrev first_in : List Index → Option PackedBlob
  first_in [] = none
  first_in (i ∷ is) = or_first (found_in i) (first_in is)

  lookup-found_in :
      (i : Index) (pbs : List PackedBlob)
      → first_blob (PackIndex.lookup sum64 bh i pbs) ≡ or_first (first_blob pbs) (found_in i)
  unfolding PackIndex.lookup foreach_with_id get
  lookup-found_in i pbs =
      first_blob-append pbs _
      ∙ ap (or_first (first_blob pbs))
          (first_blob-with_id i.packs bh.tpe bh.id (chain_of sum64 (i.by_type bh.tpe) bh.id))

  lookup_all-first_in :
      (is : List Index) (pbs : List PackedBlob)
      → first_blob (lookup_all sum64 bh is pbs) ≡ or_first (first_blob pbs) (first_in is)
  unfolding lookup_all
  lookup_all-first_in [] pbs = sym (or_first-none (first_blob pbs))
  lookup_all-first_in (i ∷ is) pbs =
      lookup_all-first_in is (PackIndex.lookup sum64 bh i pbs)
      ∙ ap (λ o. or_first o (first_in is)) (lookup-found_in i pbs)
      ∙ or_first_assoc (first_blob pbs) (found_in i) (first_in is)

  lookup_size-found_in : (i : Index) → lookup_size sum64 bh i ≡ size_in (found_in i)
  unfolding lookup_size
  lookup_size-found_in i = size_by-packed i.packs bh.tpe (entry_in i)

  has_blob-found_in : (i : Index) → has_blob sum64 bh i ≡ is_some (found_in i)
  unfolding has_blob
  has_blob-found_in i = has_by-packed i.packs bh.tpe (entry_in i)

  first_size-first_in : (is : List Index) → first_size sum64 bh is ≡ size_in (first_in is)
  unfolding first_size
  first_size-first_in [] = refl
  first_size-first_in (i ∷ is) =
      ap (λ o. next_size o (first_size sum64 bh is)) (lookup_size-found_in i)
      ∙ ap (next_size (size_in (found_in i))) (first_size-first_in is)
      ∙ next_size-or_first (found_in i) (first_in is)

  any_has-first_in : (is : List Index) → any_has sum64 bh is ≡ is_some (first_in is)
  unfolding any_has
  any_has-first_in [] = refl
  any_has-first_in (i ∷ is) =
      rw (has_blob-found_in i, any_has-first_in is)
        (sym (is_some-or_first (found_in i) (first_in is)))

  -- `LookupSize`, `Has` and `Lookup` of a master index agree: `LookupSize` answers with the `DataLength`
  -- of the first packed blob that `Lookup` lists and fails where it lists none, and `Has` says that a blob
  -- is pending or that `Lookup` lists it.
  pub size_of-lookup :
      (mi : MasterIndex)
      → (size_of sum64 bh mi ≡ size_in (first_blob (lookup sum64 bh mi)))
        × (is_known sum64 bh mi
            ≡ (has bh mi.pending_blobs || is_some (first_blob (lookup sum64 bh mi))))
  unfolding size_of lookup is_known
  size_of-lookup mi =
      let first = sym (lookup_all-first_in mi.idx []) in
      (
        first_size-first_in mi.idx ∙ ap size_in first,
        ap (λ b. has bh mi.pending_blobs || b) (any_has-first_in mi.idx ∙ ap is_some first),
      )

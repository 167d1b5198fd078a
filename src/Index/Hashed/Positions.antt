-- ===== src/Index/Hashed/Positions.antt =====
-- The position of the first entry of an identifier.
use vlbe.Base.{
  ℕ, ◌≤◌, ◌≡◌, refl, sym, ◌∙◌, inl, inr, Option-cases, List, [], ◌∷◌, some, length, arith,
}
use vlbe.Restic.Blob.{ContentId}
use vlbe.Index.Hashed.{IndexEntry, IndexMap, add, first_index}
use vlbe.Index.Hashed.Content.{content, IsIndexMap, add-IsIndexMap}
use vlbe.Index.Hashed.Lookup.{oldest_position, lookups_lem, length-newest_first}

oldest_position_bound :
    (id : ContentId) (es : List IndexEntry) (i : ℕ) → oldest_position id es ≡ some i → i ≤ length es
unfolding oldest_position
oldest_position_bound id [] i found = absurd (ground arith)
oldest_position_bound id (e ∷ es) i found = elim (Option-cases (oldest_position id es)) [
  | inl nothing ↦ ground arith
  | inr (j, older) ↦ ground (arith, oldest_position_bound id es j older)
]

oldest_position_pos :
    (id : ContentId) (es : List IndexEntry) (i : ℕ) → oldest_position id es ≡ some i → 1 ≤ i
unfolding oldest_position
oldest_position_pos id [] i found = absurd (ground arith)
oldest_position_pos id (e ∷ es) i found = elim (Option-cases (oldest_position id es)) [
  | inl nothing ↦ ground arith
  | inr (j, older) ↦ ground (arith, oldest_position_pos id es j older)
]

length-content : (m : IndexMap) → length (content m) ≡ length m.block_list
unfolding content
length-content m = length-newest_first m.block_list

one_position :
    (g h : ContentId) (es : List IndexEntry) (i : ℕ)
    → oldest_position g es ≡ some i
    → oldest_position h es ≡ some i
    → g ≡ h
unfolding oldest_position
one_position g h [] i found_g found_h = absurd (ground arith)
one_position g h (e ∷ es) i found_g found_h = elim (Option-cases (oldest_position g es)) [
  | inl no_g ↦ elim (Option-cases (oldest_position h es)) [
    | inl no_h ↦ ground arith
    | inr (k, older) ↦ absurd (ground (arith, oldest_position_bound h es k older))
  ]
  | inr (j, older) ↦ elim (Option-cases (oldest_position h es)) [
    | inl no_h ↦ absurd (ground (arith, oldest_position_bound g es j older))
    | inr (k, older_h) ↦ ground (arith, one_position g h es j older)
  ]
]

-- `firstIndex` never changes: the position that it gives for an identifier stays the same when an entry is
-- added to a well-formed table, also where the table grows.
pub first_index-add :
    (sum64 : ℕ → ContentId → ℕ) (m : IndexMap) (e : IndexEntry) (id : ContentId) (i : ℕ)
    → IsIndexMap sum64 m
    → first_index sum64 id m ≡ some i
    → first_index sum64 id (add sum64 e m) ≡ some i
unfolding oldest_position
first_index-add sum64 m e id i valid found =
    let at = sym (lookups_lem sum64 id m valid).2 ∙ found in
    let (grown, same) = add-IsIndexMap sum64 e m valid in
    (lookups_lem sum64 id (add sum64 e m) grown).2 ∙ rw (same, oldest_position, at) refl

-- Two identifiers never have the same `firstIndex` in a well-formed table, and it is not 0 and at most the
-- number of entries.
pub first_index-IsInjective :
    (sum64 : ℕ → ContentId → ℕ) (m : IndexMap) (g h : ContentId) (i : ℕ)
    → IsIndexMap sum64 m
    → first_index sum64 g m ≡ some i
    → first_index sum64 h m ≡ some i
    → (g ≡ h) × (1 ≤ i) × (i ≤ m.numentries)
first_index-IsInjective sum64 m g h i valid found_g found_h =
    let at = sym (lookups_lem sum64 g m valid).2 ∙ found_g in
    (
      one_position g h (content m) i at (sym (lookups_lem sum64 h m valid).2 ∙ found_h),
      oldest_position_pos g (content m) i at,
      omega (arith, oldest_position_bound g (content m) i at, valid.numbered, length-content m),
    )

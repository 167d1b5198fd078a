-- ===== src/Filter/Spec.antt =====
-- What a pattern means, without the order in which `match` tries things.
use Prim.Native.String.{String}
use text.Mathlib.Text.{◌==◌ as str_eq}
use vlbe.Base.{
  ℕ, suc, ◌≡◌, ◌⊎◌, Bool, true, false, List, [], ◌∷◌, ◌++◌, some, drop, leb, ◌==◌, if◌then◌else◌,
}
use vlbe.Filter.{PathLib, PatternPart, is_wildcard, stars, part_matches}

-- what a part stands for: a `**` for `n` components, any other part for itself
abbrev pub segment : PatternPart → ℕ → List PatternPart
segment p n = if is_wildcard p then stars n else p ∷ []

-- `qs` is `ps` with each `**` expanded
abbrev pub Expands : List PatternPart → List PatternPart → Type 0
Expands [] qs = qs ≡ []
Expands (p ∷ ps) qs =
    (n : ℕ) × (rest : List PatternPart) × (qs ≡ segment p n ++ rest) × Expands ps rest

-- the same, with each `**` expanded to one component at least
abbrev pub ExpandsFully : List PatternPart → List PatternPart → Type 0
ExpandsFully [] qs = qs ≡ []
ExpandsFully (p ∷ ps) qs =
    (n : ℕ) × (rest : List PatternPart) × (qs ≡ segment p (suc n) ++ rest) × ExpandsFully ps rest

-- the same, where the first `**` may stand for nothing
abbrev pub ExpandsAllowed : List PatternPart → List PatternPart → Type 0
ExpandsAllowed [] qs = qs ≡ []
ExpandsAllowed (p ∷ ps) qs =
    ((is_wildcard p ≡ true)
      × ((n : ℕ) × (rest : List PatternPart) × (qs ≡ stars n ++ rest) × ExpandsFully ps rest))
    ⊎ ((is_wildcard p ≡ false)
        × ((rest : List PatternPart) × (qs ≡ p ∷ rest) × ExpandsAllowed ps rest))

module _ (lib : PathLib) where
  -- the parts match the first components
  abbrev pub Fits : List PatternPart → List String → Type 0
  Fits [] strs = Unit
  Fits (p ∷ ps) [] = ⊥
  Fits (p ∷ ps) (s ∷ strs) = (part_matches lib p s ≡ some true) × Fits ps strs

-- An absolute pattern begins at the root, any other one behind it.
abbrev pub may_start : PatternPart → List String → ℕ → Bool
may_start p [] k = k == 0
may_start p (s ∷ strs) k =
    if str_eq p.pattern "/" then k == 0 else if str_eq s "/" then leb 1 k else true

module _ (lib : PathLib) where
  -- the parts match components in a row; no parts match the empty path alone
  abbrev pub Occurs : List PatternPart → List String → Type 0
  Occurs [] strs = strs ≡ []
  Occurs (q ∷ qs) strs = (k : ℕ) × (may_start q strs k ≡ true) × Fits lib (q ∷ qs) (drop k strs)

-- ===== src/Filter.antt =====
-- internal/filter/filter.go: patterns of path components, with `**` for any number of them.
-- `filepath.Match`, `filepath.Clean` and the functions on strings belong to Go's library and are the
-- record `PathLib`.
pub mod Spec
pub mod Definite
pub mod Sound
pub mod Complete
pub mod Child
pub mod Patterns
use Prim.Native.String.{String}
use Prim.Native.Char.{Char, code}
use text.Mathlib.Text.{◌==◌ as str_eq}
use vlbe.Base.{
  ℕ, zero, suc, ◌+◌, ◌-◌, ◌≤◌, Bool, true, false, ◌&&◌, ◌||◌, not, List, [], ◌∷◌, ◌++◌, Option,
  none, some, length, take, drop, leb, ◌==◌, if◌then◌else◌, map,
}

-- what Go's library gives; `match` is `filepath.Match`, which fails on a malformed pattern
pub record PathLib : Type 0 where
  pub match : String → String → Option Bool
  pub clean : String → String
  pub split_slash : String → List String
  pub has_special : String → Bool

-- `patternPart`: "/" first for an absolute pattern, "" for `**`
pub record PatternPart : Type 0 where
  pub pattern : String
  pub is_simple : Bool

-- `Pattern`
pub record Pattern : Type 0 where
  pub original : String
  pub parts : List PatternPart
  pub is_negated : Bool

-- What `match` answers. It fails on a malformed pattern; out of fuel it says so, and an index out of
-- range panics.
pub data Answer : Type 0 where
  matched unmatched bad_pattern out_of_fuel index_panic : Answer

-- `**`
abbrev pub is_wildcard : PatternPart → Bool
is_wildcard p = str_eq p.pattern ""

-- `patternPart{"*", false}`
abbrev pub star : PatternPart
star = record { pattern = "*"; is_simple = false }

unfoldable pub stars : ℕ → List PatternPart
stars zero = []
stars (suc n) = star ∷ stars n

-- `hasDoubleWildcard`: the parts before the first `**` and those behind it
unfoldable pub has_double_wildcard : List PatternPart → Option (List PatternPart × List PatternPart)
has_double_wildcard [] = none
has_double_wildcard (p ∷ ps) =
    let rest = has_double_wildcard ps in
    if is_wildcard p
    then some ([], ps)
    else elim rest [ none ↦ none | some (pre, post) ↦ some (p ∷ pre, post) ]

-- the number of `**`, which bounds the recursion of `match`
unfoldable pub wildcards : List PatternPart → ℕ
wildcards [] = 0
wildcards (p ∷ ps) = (if is_wildcard p then 1 else 0) + wildcards ps

-- the first and the number of offsets
unfoldable pub offsets : List PatternPart → List String → ℕ × ℕ
offsets [] strs = (0, 0)
offsets (p ∷ ps) [] = (0, 0)
offsets (p ∷ ps) (s ∷ strs) =
    if str_eq p.pattern "/"
    then (0, 1)
    else if str_eq s "/"
    then (1, length strs - length ps)
    else (0, length strs - length ps + 1)

module _ (lib : PathLib) where
  -- `splitPath`
  unfoldable pub split_path : String → List String
  split_path p = elim (lib.split_slash p) [
    | [] ↦ []
    | s ∷ parts ↦ (if str_eq s "" then "/" else s) ∷ parts
  ]

  unfoldable pub prepare_part : String → PatternPart
  prepare_part part = record {
    pattern = if str_eq part "**" then "" else part;
    is_simple = not (lib.has_special part);
  }

  -- `preparePattern` of a text that is not empty
  unfoldable pub prepare_pattern : Char → String → Pattern
  unfolding split_path prepare_part
  prepare_pattern c rest =
      let text = String.◌∷◌ c rest in
      let negate = code c == b'!' in
      record {
        original = text;
        parts = map prepare_part (split_path (lib.clean (if negate then rest else text)));
        is_negated = negate;
      }

  -- one part against one component
  unfoldable pub part_matches : PatternPart → String → Option Bool
  part_matches p s = if p.is_simple then some (str_eq p.pattern s) else lib.match p.pattern s

  -- The inner loop runs from the last part to the first, and stops where one does not match.
  unfoldable pub match_window : List PatternPart → List String → Answer
  match_window [] strs = matched
  match_window (p ∷ ps) [] = index_panic
  match_window (p ∷ ps) (s ∷ strs) = elim (match_window ps strs) [
    | matched ↦ elim (part_matches p s) [
      | none ↦ bad_pattern
      | some m ↦ if m then matched else unmatched
    ]
    | other ↦ other
  ]

  -- The loop over the offsets, from the last, `low + n - 1`, to the first, `low`.
  unfoldable pub try_offsets : ℕ → ℕ → List PatternPart → List String → Answer
  try_offsets low zero ps strs = unmatched
  try_offsets low (suc n) ps strs = elim (match_window ps (drop (low + n) strs)) [
    | unmatched ↦ try_offsets low n ps strs
    | other ↦ other
  ]

  -- `match` of a pattern without `**`
  unfoldable pub match_plain : List PatternPart → List String → Answer
  match_plain [] [] = matched
  match_plain [] (s ∷ strs) = unmatched
  match_plain (p ∷ ps) strs =
      if leb (length (p ∷ ps)) (length strs)
      then (let (low, n) = offsets (p ∷ ps) strs in try_offsets low n (p ∷ ps) strs)
      else unmatched

  -- The loop that expands the first `**` to `i`, `i + 1`, … components, for `n` rounds.
  unfoldable pub expand :
      (List PatternPart → Answer) → List PatternPart → List PatternPart → ℕ → ℕ → Answer
  expand rec pre post i zero = unmatched
  expand rec pre post i (suc n) = elim (rec (pre ++ (stars i ++ post))) [
    | unmatched ↦ expand rec pre post (i + 1) n
    | other ↦ other
  ]

  unfoldable pub match_fuel : ℕ → List PatternPart → List String → Answer
  match_fuel zero ps strs = elim (has_double_wildcard ps) [
    | none ↦ match_plain ps strs
    | some _ ↦ out_of_fuel
  ]
  match_fuel (suc f) ps strs = elim (has_double_wildcard ps) [
    | none ↦ match_plain ps strs
    | some (pre, post) ↦
        expand (λ new. match_fuel f new strs) pre post 0 (length strs + 2 - length ps)
  ]

  -- `match`
  unfoldable pub match : List PatternPart → List String → Answer
  match ps strs = match_fuel (wildcards ps) ps strs

  -- `childMatch`
  unfoldable pub child_match : List PatternPart → List String → Answer
  child_match [] strs = index_panic
  child_match (p ∷ ps) strs =
      if str_eq p.pattern "/"
      then (let cut : List String = elim (has_double_wildcard (p ∷ ps)) [
        | none ↦ strs
        | some (pre, post) ↦ take (length pre) strs
      ] in
          match (take (length cut) (p ∷ ps)) cut)
      else matched

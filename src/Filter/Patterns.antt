-- ===== src/Filter/Patterns.antt =====
-- internal/filter/filter.go: the lists of patterns, of which a later one overrules the earlier ones.
pub mod Verdict
use Prim.Native.String.{String}
use text.Mathlib.Text.{◌==◌ as str_eq}
use vlbe.Base.{
  Bool, true, false, ◌&&◌, ◌||◌, not, List, [], ◌∷◌, ◌++◌, Option, none, some, if◌then◌else◌,
}
use vlbe.Filter.{
  PatternPart, PathLib, Pattern, Answer, matched, unmatched, match, child_match, split_path,
  prepare_pattern,
}

-- what `list` returns: its two results, or an error; a panic of `childMatch` is among the failures
pub data ListAnswer : Type 0 where
  decided : Bool → Bool → ListAnswer
  bad_string : ListAnswer
  failed : Answer → ListAnswer

-- how one round of the loop ends
pub data Round : Type 0 where
  leave : ListAnswer → Round
  next : Bool → Bool → Round

-- `hasNegatedPattern`
unfoldable pub has_negated_pattern : List Pattern → Bool
has_negated_pattern [] = false
has_negated_pattern (pat ∷ pats) = pat.is_negated || has_negated_pattern pats

-- what `m` and `c` do to the results so far
unfoldable pub combine : Bool → Bool → Bool → Bool → Bool → Bool → Round
combine has_negated is_negated m c is_matched child_may_match =
    if is_negated
    then next (is_matched && not m) (child_may_match && not m)
    else if (is_matched || m) && (child_may_match || c) && not has_negated
    then leave (decided (is_matched || m) (child_may_match || c))
    else next (is_matched || m) (child_may_match || c)

module _ (lib : PathLib) where
  -- `ParsePatterns`
  unfoldable pub parse_patterns : List String → List Pattern
  parse_patterns [] = []
  parse_patterns (String.[] ∷ texts) = parse_patterns texts
  parse_patterns ((String.◌∷◌ c rest) ∷ texts) = prepare_pattern lib c rest ∷ parse_patterns texts

  -- `c` of the loop: `childMatch`, where it is asked for
  unfoldable pub child_answer : Bool → Pattern → List String → Answer
  child_answer check pat strs = if check then child_match lib pat.parts strs else matched

  -- the rest of a round, where `match` has answered `m`
  unfoldable pub child_round : Bool → Bool → List String → Pattern → Bool → Bool → Bool → Round
  child_round has_negated check strs pat m is_matched child_may_match =
      elim (child_answer check pat strs) [
        | matched ↦ combine has_negated pat.is_negated m true is_matched child_may_match
        | unmatched ↦ combine has_negated pat.is_negated m false is_matched child_may_match
        | other ↦ leave (failed other)
      ]

  unfoldable pub list_round : Bool → Bool → List String → Pattern → Bool → Bool → Round
  list_round has_negated check strs pat is_matched child_may_match =
      elim (match lib pat.parts strs) [
        | matched ↦ child_round has_negated check strs pat true is_matched child_may_match
        | unmatched ↦ child_round has_negated check strs pat false is_matched child_may_match
        | other ↦ leave (failed other)
      ]

  unfoldable pub list_loop : Bool → Bool → List String → Bool → Bool → List Pattern → ListAnswer
  list_loop has_negated check strs is_matched child_may_match [] =
      decided is_matched child_may_match
  list_loop has_negated check strs is_matched child_may_match (pat ∷ pats) =
      elim (list_round has_negated check strs pat is_matched child_may_match) [
        | leave answer ↦ answer
        | next m c ↦ list_loop has_negated check strs m c pats
      ]

  -- `list`
  unfoldable pub list_of : List Pattern → Bool → String → ListAnswer
  list_of [] check str = decided false false
  list_of (pat ∷ pats) check str =
      if str_eq str ""
      then bad_string
      else list_loop (has_negated_pattern (pat ∷ pats)) check (split_path lib str) false false
          (pat ∷ pats)

  -- `List`
  unfoldable pub list_matches : List Pattern → String → ListAnswer
  list_matches pats str = list_of pats false str

  -- `ListWithChild`
  unfoldable pub list_with_child : List Pattern → String → ListAnswer
  list_with_child pats str = list_of pats true str

  -- `Match`; `none` is `ErrBadString`
  unfoldable pub match_text : String → String → Option Answer
  match_text String.[] str = some matched
  match_text (String.◌∷◌ c rest) str =
      if str_eq str ""
      then none
      else some (match lib (prepare_pattern lib c rest).parts (split_path lib str))

  -- `ChildMatch`
  unfoldable pub child_match_text : String → String → Option Answer
  child_match_text String.[] str = some matched
  child_match_text (String.◌∷◌ c rest) str =
      if str_eq str ""
      then none
      else some (child_match lib (prepare_pattern lib c rest).parts (split_path lib str))

  -- The inner `continue` of `ValidatePatterns` goes on with the next part: a pattern is listed once for
  -- each malformed part.
  unfoldable pub invalid_parts : String → List PatternPart → List String
  invalid_parts original [] = []
  invalid_parts original (p ∷ ps) =
      let rest = invalid_parts original ps in
      elim (lib.match p.pattern p.pattern) [ none ↦ original ∷ rest | some _ ↦ rest ]

  unfoldable pub invalid_patterns : List Pattern → List String
  invalid_patterns [] = []
  invalid_patterns (pat ∷ pats) = invalid_parts pat.original pat.parts ++ invalid_patterns pats

  -- `ValidatePatterns`: the patterns of its error, none for `nil`
  unfoldable pub validate_patterns : List String → List String
  validate_patterns texts = invalid_patterns (parse_patterns texts)

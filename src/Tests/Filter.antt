-- ===== src/Tests/Filter.antt =====
-- Runs of the filter on concrete patterns and paths.
use Prim.Native.String.{String}
use text.Mathlib.Text.{◌==◌ as str_eq}
use vlbe.Base.{
  none, Bool, inl, inr, ◌≡◌, refl, true, false, List, [], ◌∷◌, some, if◌then◌else◌, arith,
}
use vlbe.Filter.{
  PathLib, Pattern, split_path, PatternPart, matched, unmatched, star, stars, match, child_match,
  match_window, try_offsets, expand, match_fuel, match_plain, part_matches, has_double_wildcard,
  wildcards, offsets,
}
use vlbe.Filter.Spec.{Expands, Occurs}
use vlbe.Filter.Definite.{IsDefinite, Good, match-IsDefinite}
use vlbe.Filter.Patterns.{
  invalid_parts, decided, list_of, list_matches, list_loop, list_round, child_round, child_answer,
  combine, has_negated_pattern,
}
use vlbe.Filter.Patterns.Verdict.{verdict, list_of-verdict, list_matches-verdict}
use vlbe.Filter.Child.{child_match_keeps}
use vlbe.Filter.Sound.{match_sound}
use vlbe.Filter.Complete.{match_complete}

-- "*" matches every component, and nothing is split or cleaned
abbrev plain_lib : PathLib
plain_lib = record {
  match = λ p s. some (if str_eq p "*" then true else str_eq p s);
  clean = λ s. s;
  split_slash = λ s. s ∷ [];
  has_special = λ s. str_eq s "*";
}

abbrev simple : String → PatternPart
simple s = record { pattern = s; is_simple = true }

abbrev double : PatternPart
double = record { pattern = ""; is_simple = false }

-- `a/**/c`
abbrev a_any_c : List PatternPart
a_any_c = simple "a" ∷ double ∷ simple "c" ∷ []

abbrev deep_path : List String
deep_path = "/" ∷ "a" ∷ "x" ∷ "c" ∷ "d" ∷ []

a_any_c_matches : match plain_lib a_any_c deep_path ≡ matched
unfolding match match_fuel match_plain expand try_offsets match_window part_matches
    has_double_wildcard wildcards offsets stars
a_any_c_matches = refl

-- one `**` may stand for no component, a later one may not
one_may_be_empty : match plain_lib a_any_c ("a" ∷ "c" ∷ []) ≡ matched
unfolding match match_fuel match_plain expand try_offsets match_window part_matches
    has_double_wildcard wildcards offsets stars
one_may_be_empty = refl

second_is_not_empty :
    match plain_lib
      (simple "a" ∷ double ∷ simple "b" ∷ double ∷ simple "c" ∷ [])
      ("a" ∷ "x" ∷ "b" ∷ "c" ∷ [])
    ≡ unmatched
unfolding match match_fuel match_plain expand try_offsets match_window part_matches
    has_double_wildcard wildcards offsets stars
second_is_not_empty = refl

child_of_root :
    child_match plain_lib (simple "/" ∷ simple "a" ∷ simple "b" ∷ []) ("/" ∷ "a" ∷ []) ≡ matched
unfolding child_match match match_fuel match_plain expand try_offsets match_window part_matches
    has_double_wildcard wildcards offsets stars
child_of_root = refl

no_child_of_root :
    child_match plain_lib (simple "/" ∷ simple "a" ∷ simple "b" ∷ []) ("/" ∷ "c" ∷ []) ≡ unmatched
unfolding child_match match match_fuel match_plain expand try_offsets match_window part_matches
    has_double_wildcard wildcards offsets stars
no_child_of_root = refl

part-Good : (p : PatternPart) → Good plain_lib p
unfolding part_matches
part-Good p s e = ground arith

match-IsDefinite_example : IsDefinite (match plain_lib a_any_c deep_path)
match-IsDefinite_example =
    match-IsDefinite plain_lib a_any_c deep_path (part-Good star)
      (part-Good (simple "a"), (part-Good double, (part-Good (simple "c"), tt)))

match_sound_example : (qs : List PatternPart) × Expands a_any_c qs × Occurs plain_lib qs deep_path
match_sound_example = match_sound plain_lib a_any_c deep_path a_any_c_matches

match_complete_example : match plain_lib a_any_c deep_path ≡ matched
unfolding part_matches stars
match_complete_example =
    match_complete plain_lib a_any_c (simple "a" ∷ star ∷ simple "c" ∷ []) deep_path
      (part-Good star) (part-Good (simple "a"), (part-Good double, (part-Good (simple "c"), tt)))
      (inr (
        refl,
        (star ∷ simple "c" ∷ [], refl, inl (refl, (1, simple "c" ∷ [], refl, (0, [], refl, refl)))),
      ))
      (1, refl, (refl, (refl, (refl, tt))))

abbrev absolute_any_c : List PatternPart
absolute_any_c = simple "/" ∷ simple "a" ∷ double ∷ simple "c" ∷ []

child_match_keeps_example : child_match plain_lib absolute_any_c ("/" ∷ "a" ∷ "x" ∷ []) ≡ matched
unfolding match match_fuel match_plain expand try_offsets match_window part_matches
    has_double_wildcard wildcards offsets stars
child_match_keeps_example =
    child_match_keeps plain_lib (simple "/") (simple "a" ∷ double ∷ simple "c" ∷ [])
      ("/" ∷ "a" ∷ "x" ∷ []) ("y" ∷ "c" ∷ "d" ∷ []) (part-Good star)
      (
        part-Good (simple "/"),
        (part-Good (simple "a"), (part-Good double, (part-Good (simple "c"), tt))),
      )
      refl

-- `a`, but not `a` after all
abbrev excluded_again : List Pattern
excluded_again =
    record { original = "*"; parts = star ∷ []; is_negated = false }
    ∷ record { original = "!a"; parts = simple "a" ∷ []; is_negated = true }
    ∷ []

excluded_again_run : list_of plain_lib excluded_again true "a" ≡ decided false false
unfolding list_of split_path list_loop list_round child_round child_answer child_match combine
    has_negated_pattern match match_fuel match_plain expand try_offsets match_window part_matches
    has_double_wildcard wildcards offsets stars
excluded_again_run = refl

list_of-verdict_example : false ≡ verdict plain_lib (split_path plain_lib "a") false excluded_again
list_of-verdict_example =
    list_of-verdict plain_lib excluded_again true "a" false false excluded_again_run

list_matches-verdict_example :
    (c : Bool) × (list_matches plain_lib excluded_again "b" ≡ decided true c)
unfolding match match_fuel match_plain expand try_offsets match_window part_matches
    has_double_wildcard wildcards offsets stars split_path
list_matches-verdict_example =
    list_matches-verdict plain_lib excluded_again "b" refl (part-Good star)
      ((part-Good star, tt), ((part-Good (simple "a"), tt), tt))

-- every part is malformed
abbrev broken_lib : PathLib
broken_lib = record {
  match = λ p s. none;
  clean = λ s. s;
  split_slash = λ s. s ∷ [];
  has_special = λ s. false;
}

-- a pattern is reported once for each malformed part
reported_twice : invalid_parts broken_lib "[/[" (simple "[" ∷ simple "[" ∷ []) ≡ "[/[" ∷ "[/[" ∷ []
unfolding invalid_parts
reported_twice = refl

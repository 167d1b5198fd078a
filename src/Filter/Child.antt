-- ===== src/Filter/Child.antt =====
-- `childMatch` does not refuse a directory below which a path matches.
use Prim.Native.String.{String}
use text.Mathlib.Text.{◌==◌ as str_eq}
use text.Mathlib.TextEquality.{eq_iff}
use vlbe.Base.{
  ℕ, zero, suc, ◌≤◌, ◌≡◌, refl, inl, inr, true, false, List, [], ◌∷◌, ◌++◌, none, some,
  Option-cases, Bool-cases, take, drop, length, arith, sym, ap, subst, All,
}
use vlbe.Filter.{
  PathLib, PatternPart, matched, is_wildcard, star, has_double_wildcard, match, child_match,
}
use vlbe.Filter.Spec.{Expands, ExpandsAllowed, Fits, may_start, Occurs}
use vlbe.Filter.Definite.{Good, has_double_wildcard-inv}
use vlbe.Filter.Sound.{match_sound}
use vlbe.Filter.Complete.{match_complete}

-- what an expansion leaves as it is: the parts before the first `**`
Expands-prefix :
    (ps pre post qs : List PatternPart)
    → has_double_wildcard ps ≡ some (pre, post)
    → Expands ps qs
    → (rest : List PatternPart) × (qs ≡ pre ++ rest)
Expands-prefix [] pre post qs e x = unfold has_double_wildcard in absurd (cc)
Expands-prefix (p ∷ ps) pre post qs e (n, rest, eq, x) =
    elim (has_double_wildcard-inv p ps pre post e) [
      | inl (here, first, last) ↦ (qs, rw first refl)
      | inr (pre', further, first, found) ↦
          let (rest', eq') = Expands-prefix ps pre' post rest found x in
          (rest', rw first (ground arith))
    ]

Expands-none : (ps qs : List PatternPart) → has_double_wildcard ps ≡ none → Expands ps qs → qs ≡ ps
unfolding has_double_wildcard
Expands-none [] qs absent x = x
Expands-none (p ∷ ps) qs absent (n, rest, eq, x) =
    let same = Expands-none ps rest (ground arith) x in ground arith

-- as many parts as come before the first `**`, or fewer, have no `**`
plain_prefix :
    (n : ℕ) (ps pre post : List PatternPart)
    → has_double_wildcard ps ≡ some (pre, post)
    → n ≤ length pre
    → (has_double_wildcard (take n ps) ≡ none) × (take n ps ≡ take n pre)
unfolding has_double_wildcard
plain_prefix zero ps pre post e short = (refl, refl)
plain_prefix (suc n) [] pre post e short = absurd (cc)
plain_prefix (suc n) (p ∷ ps) pre post e short = elim (has_double_wildcard-inv p ps pre post e) [
  | inl (here, first, last) ↦ absurd (omega (arith, ap length first))
  | inr (pre', further, first, found) ↦
      let (none_here, same) = plain_prefix n ps pre' post found (omega (arith, ap length first)) in
      (ground arith, rw (first, same) refl)
]

take-plain :
    (n : ℕ) (ps : List PatternPart)
    → has_double_wildcard ps ≡ none
    → has_double_wildcard (take n ps) ≡ none
unfolding has_double_wildcard
take-plain zero ps e = refl
take-plain (suc n) [] e = refl
take-plain (suc n) (p ∷ ps) e = ground (arith, take-plain n ps)

ExpandsAllowed-plain :
    (ps : List PatternPart) → has_double_wildcard ps ≡ none → ExpandsAllowed ps ps
unfolding has_double_wildcard
ExpandsAllowed-plain [] e = refl
ExpandsAllowed-plain (p ∷ ps) e =
    inr (ground arith, (ps, refl, ExpandsAllowed-plain ps (ground arith)))

All-take : (P : PatternPart → Type 0) (n : ℕ) (ps : List PatternPart) → All P ps → All P (take n ps)
All-take P zero ps a = tt
All-take P (suc n) [] a = tt
All-take P (suc n) (p ∷ ps) (h, a) = (h, All-take P n ps a)

nothing_left : (strs : List String) → length strs ≡ 0 → strs ≡ []
nothing_left [] e = refl
nothing_left (s ∷ strs) e = absurd (omega arith)

length-take : (n : ℕ) (strs : List String) → length (take n strs) ≤ n
length-take zero strs = omega arith
length-take (suc n) [] = omega arith
length-take (suc n) (s ∷ strs) = omega (arith, length-take n strs)

absolute_start :
    (q : PatternPart) (strs : List String) (k : ℕ)
    → str_eq q.pattern "/" ≡ true
    → may_start q strs k ≡ true
    → k ≡ 0
absolute_start q [] k root may = ground arith
absolute_start q (s ∷ strs) k root may = ground arith

module _ (lib : PathLib) where
  -- the parts before, on the components before
  Fits-cut :
      (pre rest : List PatternPart) (strs more : List String)
      → Fits lib (pre ++ rest) (strs ++ more)
      → Fits lib (take (length (take (length pre) strs)) pre) (take (length pre) strs)
  Fits-cut [] rest strs more f = tt
  Fits-cut (p ∷ pre) rest [] more f = tt
  Fits-cut (p ∷ pre) rest (s ∷ strs) more (h, f) = (h, Fits-cut pre rest strs more f)

  Fits-take :
      (ps : List PatternPart) (strs more : List String)
      → Fits lib ps (strs ++ more)
      → Fits lib (take (length strs) ps) strs
  Fits-take [] [] more f = tt
  Fits-take [] (s ∷ strs) more f = tt
  Fits-take (p ∷ ps) [] more f = tt
  Fits-take (p ∷ ps) (s ∷ strs) more (h, f) = (h, Fits-take ps strs more f)

  -- an absolute pattern occurs at the root alone
  Occurs-absolute :
      (q : PatternPart) (qs : List PatternPart) (strs : List String)
      → str_eq q.pattern "/" ≡ true
      → Occurs lib (q ∷ qs) strs
      → Fits lib (q ∷ qs) strs
  Occurs-absolute q qs strs root (k, may, fits) =
      let first = absolute_start q strs k root may in
      subst (λ j. Fits lib (q ∷ qs) (drop j strs)) first fits

  Fits-Occurs :
      (qs : List PatternPart) (p : PatternPart) (ps : List PatternPart) (n : ℕ) (strs : List String)
      → str_eq p.pattern "/" ≡ true
      → qs ≡ take n (p ∷ ps)
      → (n ≡ 0 → strs ≡ [])
      → Fits lib qs strs
      → Occurs lib qs strs
  Fits-Occurs [] p ps zero strs root same empty f = empty refl
  Fits-Occurs [] p ps (suc n) strs root same empty f = absurd (cc)
  Fits-Occurs (q ∷ qs) p ps zero strs root same empty f = absurd (cc)
  Fits-Occurs (q ∷ qs) p ps (suc n) [] root same empty f = absurd f
  Fits-Occurs (q ∷ qs) p ps (suc n) (s ∷ strs) root same empty f =
      let head : q ≡ p = cc in
      let root' : str_eq q.pattern "/" ≡ true = rw head root in (0, rw root' refl, f)

  cut_matches :
      (p : PatternPart) (ps : List PatternPart) (n : ℕ) (strs : List String)
      → Good lib star
      → All (Good lib) (p ∷ ps)
      → str_eq p.pattern "/" ≡ true
      → has_double_wildcard (take n (p ∷ ps)) ≡ none
      → (n ≡ 0 → strs ≡ [])
      → Fits lib (take n (p ∷ ps)) strs
      → match lib (take n (p ∷ ps)) strs ≡ matched
  cut_matches p ps n strs s g root plain empty f =
      let qs = take n (p ∷ ps) in
      match_complete lib qs qs strs s (All-take (Good lib) n (p ∷ ps) g)
        (ExpandsAllowed-plain qs plain) (Fits-Occurs qs p ps n strs root refl empty f)

  -- an expansion of an absolute pattern begins with its root
  Expands-absolute :
      (p : PatternPart) (ps qs : List PatternPart) (strs : List String)
      → str_eq p.pattern "/" ≡ true
      → Expands (p ∷ ps) qs
      → Occurs lib qs strs
      → Fits lib qs strs
  Expands-absolute p ps qs strs root (n, rest, eq, x) o =
      let named : is_wildcard p ≡ false =
        let slash : p.pattern ≡ "/" = (eq_iff p.pattern "/").0 root in
        subst (λ x. str_eq x "" ≡ false) (sym slash) refl in
      let whole : qs ≡ p ∷ rest = ground arith in
      let o' = subst (λ a. Occurs lib a strs) whole o in
      subst (λ a. Fits lib a strs) (sym whole) (Occurs-absolute p rest strs root o')

  -- Where `filepath.Match` fails on no part of the pattern and not on "*": if the pattern matches a path
  -- below a directory, or the directory itself, `childMatch` answers with a match for the directory.
  pub child_match_keeps :
      (p : PatternPart) (ps : List PatternPart) (strs more : List String)
      → Good lib star
      → All (Good lib) (p ∷ ps)
      → match lib (p ∷ ps) (strs ++ more) ≡ matched
      → child_match lib (p ∷ ps) strs ≡ matched
  unfolding child_match
  child_match_keeps p ps strs more s g hit = elim (Bool-cases (str_eq p.pattern "/")) [
    | inr relative ↦ rw relative refl
    | inl root ↦
        let (qs, expands, occurs) = match_sound lib (p ∷ ps) (strs ++ more) hit in
        let fits = Expands-absolute p ps qs (strs ++ more) root expands occurs in
        elim (Option-cases (has_double_wildcard (p ∷ ps))) [
          | inl plain ↦
              let fits' =
                subst (λ a. Fits lib a (strs ++ more)) (Expands-none (p ∷ ps) qs plain expands)
                  fits in
              let answer =
                cut_matches p ps (length strs) strs s g root
                  (take-plain (length strs) (p ∷ ps) plain) (nothing_left strs)
                  (Fits-take (p ∷ ps) strs more fits') in
              rw (root, plain) answer
          | inr ((pre, post), found) ↦
              let (rest, eq) = Expands-prefix (p ∷ ps) pre post qs found expands in
              let cut = take (length pre) strs in
              let (plain, same) =
                plain_prefix (length cut) (p ∷ ps) pre post found (length-take (length pre) strs) in
              let fits' =
                Fits-cut pre rest strs more (subst (λ a. Fits lib a (strs ++ more)) eq fits) in
              let answer =
                cut_matches p ps (length cut) cut s g root plain (nothing_left cut)
                  (subst (λ a. Fits lib a cut) (sym same) fits') in
              rw (root, found) answer
        ]
  ]

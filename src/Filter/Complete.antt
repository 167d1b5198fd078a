-- ===== src/Filter/Complete.antt =====
-- Which matches `match` finds: all those in which every `**` but the first stands for a component.
use Prim.Native.String.{String}
use text.Mathlib.TextEquality.{eq_iff}
use vlbe.Base.{
  ℕ, zero, suc, ◌+◌, ◌-◌, ◌≤◌, ◌<◌, ◌≡◌, refl, inl, inr, true, List, [], ◌∷◌, ◌++◌, none, some,
  Option-cases, Bool-cases, drop, leb, ◌==◌, length, arith, sym, subst, ◌∙◌, length-append, All,
  All-append,
}
use vlbe.Filter.{
  PathLib, PatternPart, Answer, matched, is_wildcard, star, stars, has_double_wildcard, wildcards,
  match_window, try_offsets, offsets, match_plain, expand, match_fuel, match,
}
use vlbe.Filter.Spec.{ExpandsFully, ExpandsAllowed, Fits, may_start, Occurs}
use vlbe.Filter.Definite.{
  IsDefinite, Good, length-drop, offsets_fit, has_double_wildcard-inv, no_wildcards, wildcards_step,
  match_window_in_range, match_window-Good, split-Good, stars-Good, match_fuel_plain,
  match_fuel-expand, match_fuel-IsDefinite,
}

length-stars : (n : ℕ) → length (stars n) ≡ n
unfolding stars
length-stars zero = refl
length-stars (suc n) = omega (arith, length-stars n)

ExpandsFully-length : (ps qs : List PatternPart) → ExpandsFully ps qs → length ps ≤ length qs
unfolding stars
ExpandsFully-length [] qs e = omega arith
ExpandsFully-length (p ∷ ps) qs (n, rest, eq, e) =
    let shorter = ExpandsFully-length ps rest e in
    elim (Bool-cases (is_wildcard p)) [
      | inl w ↦
          let whole : qs ≡ star ∷ (stars n ++ rest) = ground arith in
          rw whole (omega (arith, shorter, length-append (stars n) rest))
      | inr w ↦ let whole : qs ≡ p ∷ rest = ground arith in rw whole (omega (arith, shorter))
    ]

ExpandsFully-ExpandsAllowed : (ps qs : List PatternPart) → ExpandsFully ps qs → ExpandsAllowed ps qs
ExpandsFully-ExpandsAllowed [] qs e = e
ExpandsFully-ExpandsAllowed (p ∷ ps) qs (n, rest, eq, e) = elim (Bool-cases (is_wildcard p)) [
  | inl w ↦ inl (w, (suc n, rest, ground arith, e))
  | inr w ↦ inr (w, (rest, ground arith, ExpandsFully-ExpandsAllowed ps rest e))
]

ExpandsAllowed-stars :
    (n : ℕ) (ps qs : List PatternPart)
    → ExpandsAllowed ps qs
    → ExpandsAllowed (stars n ++ ps) (stars n ++ qs)
unfolding stars
ExpandsAllowed-stars zero ps qs e = e
ExpandsAllowed-stars (suc n) ps qs e =
    inr (ground (arith, eq_iff "*" ""), (stars n ++ qs, refl, ExpandsAllowed-stars n ps qs e))

-- an allowed expansion of the pattern is one of something `match` tries
ExpandsAllowed-split :
    (ps pre post qs : List PatternPart)
    → has_double_wildcard ps ≡ some (pre, post)
    → ExpandsAllowed ps qs
    → (i : ℕ) × (i + length ps ≤ length qs + 1) × ExpandsAllowed (pre ++ (stars i ++ post)) qs
ExpandsAllowed-split [] pre post qs e x = unfold has_double_wildcard in absurd (cc)
ExpandsAllowed-split (p ∷ ps) pre post qs e (inl (w, (n, rest, eq, x))) =
    elim (has_double_wildcard-inv p ps pre post e) [
      | inl (here, first, last) ↦
          let back = ExpandsAllowed-stars n ps rest (ExpandsFully-ExpandsAllowed ps rest x) in
          let sizes = length-append (stars n) rest in
          (
            n,
            rw eq (omega (arith, sizes, length-stars n, ExpandsFully-length ps rest x)),
            rw (first, last, eq) back,
          )
      | inr (pre', further, first, found) ↦ absurd (cc)
    ]
ExpandsAllowed-split (p ∷ ps) pre post qs e (inr (w, (rest, eq, x))) =
    elim (has_double_wildcard-inv p ps pre post e) [
      | inl (here, first, last) ↦ absurd (cc)
      | inr (pre', further, first, found) ↦
          let (i, few, x') = ExpandsAllowed-split ps pre' post rest found x in
          (
            i,
            rw eq (omega arith),
            subst (λ a. ExpandsAllowed (a ++ (stars i ++ post)) qs) (sym first)
                (inr (w, (rest, eq, x'))),
          )
    ]

only_itself :
    (ps qs : List PatternPart) → has_double_wildcard ps ≡ none → ExpandsAllowed ps qs → qs ≡ ps
unfolding has_double_wildcard
only_itself [] qs none_here x = x
only_itself (p ∷ ps) qs none_here (inl (w, x)) = absurd (ground arith)
only_itself (p ∷ ps) qs none_here (inr (w, (rest, eq, x))) =
    let rest_eq = only_itself ps rest (ground arith) x in cc

module _ (lib : PathLib) where
  Fits-length :
      (ps : List PatternPart) (strs : List String) → Fits lib ps strs → length ps ≤ length strs
  Fits-length [] strs h = omega arith
  Fits-length (p ∷ ps) [] h = absurd h
  Fits-length (p ∷ ps) (s ∷ strs) h = omega (arith, Fits-length ps strs h.1)

  Occurs-length :
      (qs : List PatternPart) (strs : List String) → Occurs lib qs strs → length qs ≤ length strs
  Occurs-length [] strs h = omega arith
  Occurs-length (q ∷ qs) strs (k, may, fits) =
      omega (arith, Fits-length (q ∷ qs) (drop k strs) fits, length-drop k strs)

  match_window_complete :
      (ps : List PatternPart) (strs : List String)
      → Fits lib ps strs
      → match_window lib ps strs ≡ matched
  unfolding match_window
  match_window_complete [] strs h = refl
  match_window_complete (p ∷ ps) [] h = absurd h
  match_window_complete (p ∷ ps) (s ∷ strs) h = rw (match_window_complete ps strs h.1, h.0) refl

  try_offsets_complete :
      (low n k : ℕ) (ps : List PatternPart) (strs : List String)
      → All (Good lib) ps
      → low + n + length ps ≤ length strs + 1
      → k < n
      → Fits lib ps (drop (low + k) strs)
      → try_offsets lib low n ps strs ≡ matched
  unfolding try_offsets
  try_offsets_complete low zero k ps strs g room lt fits = absurd (omega arith)
  try_offsets_complete low (suc n) k ps strs g room lt fits = elim (Bool-cases (k == n)) [
    | inl here ↦
        let same : k ≡ n = ground arith in
        let hit =
          match_window_complete ps (drop (low + n) strs)
            (subst (λ j. Fits lib ps (drop (low + j) strs)) same fits) in
        rw (try_offsets, hit) refl
    | inr before ↦
        let later = try_offsets_complete low n k ps strs g (omega arith) (ground arith) fits in
        let range =
          match_window_in_range lib ps (drop (low + n) strs)
            (omega (arith, length-drop (low + n) strs)) in
        let good = match_window-Good lib ps (drop (low + n) strs) g in ground arith
  ]

  offset_of_start :
      (p : PatternPart) (ps : List PatternPart) (strs : List String) (k : ℕ)
      → may_start p strs k ≡ true
      → k + length (p ∷ ps) ≤ length strs
      → ((offsets (p ∷ ps) strs).0 ≤ k)
        × (k < (offsets (p ∷ ps) strs).0 + (offsets (p ∷ ps) strs).1)
  unfolding offsets
  offset_of_start p ps [] k may room = absurd (omega arith)
  offset_of_start p ps (s ∷ strs) k may room = (ground arith, ground arith)

  match_plain_complete :
      (ps : List PatternPart) (strs : List String)
      → All (Good lib) ps
      → Occurs lib ps strs
      → match_plain lib ps strs ≡ matched
  unfolding match_plain
  match_plain_complete [] [] g h = refl
  match_plain_complete [] (s ∷ strs) g h = absurd (cc)
  match_plain_complete (p ∷ ps) strs g (k, may, fits) =
      let (low, n) = offsets (p ∷ ps) strs in
      let long = Fits-length (p ∷ ps) (drop k strs) fits in
      let room : k + length (p ∷ ps) ≤ length strs = omega (arith, long, length-drop k strs) in
      let (above, below) = offset_of_start p ps strs k may room in
      let at : low + (k - low) ≡ k = omega (arith, above) in
      let fits' = subst (λ j. Fits lib (p ∷ ps) (drop j strs)) (sym at) fits in
      let enough : leb (length (p ∷ ps)) (length strs) ≡ true = ground arith in
      let hit =
        try_offsets_complete low n (k - low) (p ∷ ps) strs g
          (omega (arith, offsets_fit p ps strs (omega arith))) (omega (arith, above, below))
          fits' in
      rw (enough, hit) refl

  expand_complete :
      (rec : List PatternPart → Answer) (pre post : List PatternPart) (k i n : ℕ)
      → ((j : ℕ) → IsDefinite (rec (pre ++ (stars j ++ post))))
      → i ≤ k
      → k < i + n
      → rec (pre ++ (stars k ++ post)) ≡ matched
      → expand lib rec pre post i n ≡ matched
  unfolding expand
  expand_complete rec pre post k i zero d low high hit = absurd (omega arith)
  expand_complete rec pre post k i (suc n) d low high hit = elim (Bool-cases (k == i)) [
    | inl here ↦
        let same : k ≡ i = ground arith in
        let hit' = subst (λ j. rec (pre ++ (stars j ++ post)) ≡ matched) same hit in
        rw (expand, hit') refl
    | inr before ↦ elim (d i) [
      | inl found ↦ rw (expand, found) refl
      | inr missed ↦
          let later = expand_complete rec pre post k (i + 1) n d (ground arith) (omega arith) hit in
          rw (expand, missed) later
    ]
  ]

  match_fuel_complete :
      (f : ℕ) (ps qs : List PatternPart) (strs : List String)
      → wildcards ps ≤ f
      → Good lib star
      → All (Good lib) ps
      → ExpandsAllowed ps qs
      → Occurs lib qs strs
      → match_fuel lib f ps strs ≡ matched
  match_fuel_complete zero ps qs strs h s g x o =
      let absent = no_wildcards ps (omega arith) in
      let o' = subst (λ a. Occurs lib a strs) (only_itself ps qs absent x) o in
      match_fuel_plain lib 0 ps strs absent ∙ match_plain_complete ps strs g o'
  match_fuel_complete (suc f) ps qs strs h s g x o = elim (Option-cases (has_double_wildcard ps)) [
    | inl absent ↦
        let o' = subst (λ a. Occurs lib a strs) (only_itself ps qs absent x) o in
        match_fuel_plain lib (suc f) ps strs absent ∙ match_plain_complete ps strs g o'
    | inr ((pre, post), found) ↦
        let (i, few, x') = ExpandsAllowed-split ps pre post qs found x in
        let (a, b) = split-Good lib ps pre post found g in
        let good = λ (j : ℕ).
          All-append (Good lib) pre (stars j ++ post) a
            (All-append (Good lib) (stars j) post (stars-Good lib j s) b) in
        let fewer = λ (j : ℕ). wildcards_step ps pre post j found in
        let definite = λ (j : ℕ).
          match_fuel-IsDefinite lib f (pre ++ (stars j ++ post)) strs (omega (arith, fewer j)) s
            (good j) in
        let hit =
          match_fuel_complete f (pre ++ (stars i ++ post)) qs strs (omega (arith, fewer i)) s
            (good i) x' o in
        match_fuel-expand lib f ps pre post strs found
        ∙ expand_complete (λ new. match_fuel lib f new strs) pre post i 0
            (length strs + 2 - length ps) definite (omega arith)
            (omega (arith, Occurs-length qs strs o)) hit
  ]

  -- Where `filepath.Match` fails on no part of the pattern and not on "*", `match` answers with a match
  -- if the pattern occurs in the path with its first `**` replaced by any number of "*" and every later
  -- `**` replaced by at least one.
  pub match_complete :
      (ps qs : List PatternPart) (strs : List String)
      → Good lib star
      → All (Good lib) ps
      → ExpandsAllowed ps qs
      → Occurs lib qs strs
      → match lib ps strs ≡ matched
  unfolding match
  match_complete ps qs strs s g x o =
      match_fuel_complete (wildcards ps) ps qs strs (omega arith) s g x o

-- ===== src/Filter/Sound.antt =====
-- A match is one: the pattern, with each `**` expanded, occurs in the path.
use Prim.Native.String.{String}
use text.Mathlib.TextEquality.{eq_iff}
use vlbe.Base.{
  ℕ, zero, suc, ◌+◌, ◌-◌, ◌<◌, ◌≡◌, ◌≢◌, refl, ◌⊎◌, inl, inr, true, List, [], ◌∷◌, ◌++◌, none, some,
  Option-cases, drop, length, arith, sym, subst, ◌∙◌,
}
use vlbe.Filter.{
  PathLib, PatternPart, Answer, matched, unmatched, bad_pattern, out_of_fuel, index_panic, stars,
  has_double_wildcard, wildcards, match_window, try_offsets, offsets, match_plain, expand,
  match_fuel, match,
}
use vlbe.Filter.Spec.{Expands, Fits, may_start, Occurs}
use vlbe.Filter.Definite.{
  has_double_wildcard-inv, match_fuel_plain, match_fuel_stops, match_fuel-expand,
}

-- expanding a run of "*" changes nothing
Expands-stars :
    (n : ℕ) (ps qs : List PatternPart)
    → Expands (stars n ++ ps) qs
    → (rest : List PatternPart) × (qs ≡ stars n ++ rest) × Expands ps rest
unfolding stars
Expands-stars zero ps qs e = (qs, refl, e)
Expands-stars (suc n) ps qs (k, rest, eq, e) =
    let (rest', eq', e') = Expands-stars n ps rest e in (rest', ground (arith, eq_iff "*" ""), e')

-- an expansion of what `match` tries is one of the pattern
Expands-split :
    (ps pre post qs : List PatternPart) (n : ℕ)
    → has_double_wildcard ps ≡ some (pre, post)
    → Expands (pre ++ (stars n ++ post)) qs
    → Expands ps qs
Expands-split [] pre post qs n e x = unfold has_double_wildcard in absurd (cc)
Expands-split (p ∷ ps) pre post qs n e x = elim (has_double_wildcard-inv p ps pre post e) [
  | inl (here, first, last) ↦
      let (rest, eq, e') =
        Expands-stars n post qs (subst (λ a. Expands (a ++ (stars n ++ post)) qs) first x) in
      (n, rest, rw here eq, subst (λ a. Expands a rest) last e')
  | inr (pre', further, first, found) ↦
      let (k, rest, eq, e') = subst (λ a. Expands (a ++ (stars n ++ post)) qs) first x in
      (k, rest, eq, Expands-split ps pre' post rest n found e')
]

no_expansion : (ps : List PatternPart) → has_double_wildcard ps ≡ none → Expands ps ps
unfolding has_double_wildcard
no_expansion [] e = refl
no_expansion (p ∷ ps) e = (0, ps, ground arith, no_expansion ps (ground arith))

Answer-cases : (a : Answer) → (a ≡ matched) ⊎ (a ≢ matched)
Answer-cases matched = inl refl
Answer-cases unmatched = inr (λ e. cc)
Answer-cases bad_pattern = inr (λ e. cc)
Answer-cases out_of_fuel = inr (λ e. cc)
Answer-cases index_panic = inr (λ e. cc)

module _ (lib : PathLib) where
  match_window-Fits :
      (ps : List PatternPart) (strs : List String)
      → match_window lib ps strs ≡ matched
      → Fits lib ps strs
  unfolding match_window
  match_window-Fits [] strs e = tt
  match_window-Fits (p ∷ ps) [] e = absurd (cc)
  match_window-Fits (p ∷ ps) (s ∷ strs) e = (ground arith, match_window-Fits ps strs (ground arith))

  try_offsets-Fits :
      (low n : ℕ) (ps : List PatternPart) (strs : List String)
      → try_offsets lib low n ps strs ≡ matched
      → (k : ℕ) × (k < n) × Fits lib ps (drop (low + k) strs)
  unfolding try_offsets
  try_offsets-Fits low zero ps strs e = absurd (cc)
  try_offsets-Fits low (suc n) ps strs e =
      elim (Answer-cases (match_window lib ps (drop (low + n) strs))) [
        | inl hit ↦ (n, omega arith, match_window-Fits ps (drop (low + n) strs) hit)
        | inr miss ↦
            let (k, lt, fits) = try_offsets-Fits low n ps strs (ground arith) in
            (k, omega arith, fits)
      ]

  offset_may_start :
      (p : PatternPart) (ps : List PatternPart) (strs : List String) (k : ℕ)
      → k < (offsets (p ∷ ps) strs).1
      → may_start p strs ((offsets (p ∷ ps) strs).0 + k) ≡ true
  unfolding offsets
  offset_may_start p ps [] k lt = ground arith
  offset_may_start p ps (s ∷ strs) k lt = ground arith

  match_plain-Occurs :
      (ps : List PatternPart) (strs : List String)
      → match_plain lib ps strs ≡ matched
      → Occurs lib ps strs
  unfolding match_plain
  match_plain-Occurs [] [] e = refl
  match_plain-Occurs [] (s ∷ strs) e = absurd (cc)
  match_plain-Occurs (p ∷ ps) strs e =
      let (low, n) = offsets (p ∷ ps) strs in
      let hit : try_offsets lib low n (p ∷ ps) strs ≡ matched = ground arith in
      let (k, lt, fits) = try_offsets-Fits low n (p ∷ ps) strs hit in
      (low + k, offset_may_start p ps strs k lt, fits)

  expand_hit :
      (rec : List PatternPart → Answer) (pre post : List PatternPart) (i n : ℕ)
      → expand lib rec pre post i n ≡ matched
      → (k : ℕ) × (rec (pre ++ (stars k ++ post)) ≡ matched)
  unfolding expand
  expand_hit rec pre post i zero e = absurd (cc)
  expand_hit rec pre post i (suc n) e = elim (Answer-cases (rec (pre ++ (stars i ++ post)))) [
    | inl hit ↦ (i, hit)
    | inr miss ↦ expand_hit rec pre post (i + 1) n (ground arith)
  ]

  match_fuel_sound :
      (f : ℕ) (ps : List PatternPart) (strs : List String)
      → match_fuel lib f ps strs ≡ matched
      → (qs : List PatternPart) × Expands ps qs × Occurs lib qs strs
  match_fuel_sound zero ps strs e = elim (Option-cases (has_double_wildcard ps)) [
    | inl absent ↦ (
      ps,
      no_expansion ps absent,
      match_plain-Occurs ps strs (sym (match_fuel_plain lib 0 ps strs absent) ∙ e),
    )
    | inr (split, found) ↦ let stopped = match_fuel_stops lib ps strs split found in absurd (cc)
  ]
  match_fuel_sound (suc f) ps strs e = elim (Option-cases (has_double_wildcard ps)) [
    | inl absent ↦ (
      ps,
      no_expansion ps absent,
      match_plain-Occurs ps strs (sym (match_fuel_plain lib (suc f) ps strs absent) ∙ e),
    )
    | inr ((pre, post), found) ↦
        let (i, hit) =
          expand_hit (λ new. match_fuel lib f new strs) pre post 0 (length strs + 2 - length ps)
            (sym (match_fuel-expand lib f ps pre post strs found) ∙ e) in
        let (qs, expands, occurs) = match_fuel_sound f (pre ++ (stars i ++ post)) strs hit in
        (qs, Expands-split ps pre post qs i found expands, occurs)
  ]

  -- Where `match` answers with a match, the pattern with each `**` replaced by some number of "*" (none
  -- included) matches components of the path in a row, from the root if the pattern is absolute and
  -- behind the root marker if it is not.
  pub match_sound :
      (ps : List PatternPart) (strs : List String)
      → match lib ps strs ≡ matched
      → (qs : List PatternPart) × Expands ps qs × Occurs lib qs strs
  unfolding match
  match_sound ps strs e = match_fuel_sound (wildcards ps) ps strs e

-- ===== src/Filter/Definite.antt =====
-- `match` ends and stays in range, and fails only where `filepath.Match` does.
use Prim.Native.String.{String}
use text.Mathlib.TextEquality.{eq_iff}
use vlbe.Base.{
  ℕ, zero, suc, ◌+◌, ◌-◌, ◌≤◌, ◌≡◌, ◌≢◌, refl, ◌⊎◌, inl, inr, true, false, List, [], ◌∷◌, ◌++◌,
  none, some, Option-cases, Bool-cases, drop, leb, length, arith, sym, ap, subst, All, All-append,
}
use vlbe.Filter.{
  PathLib, PatternPart, Answer, matched, unmatched, bad_pattern, out_of_fuel, index_panic,
  is_wildcard, star, stars, part_matches, has_double_wildcard, wildcards, match_window, try_offsets,
  offsets, match_plain, expand, match_fuel, match,
}

-- an answer that is no failure
abbrev pub IsDefinite : Answer → Type 0
IsDefinite a = (a ≡ matched) ⊎ (a ≡ unmatched)

pub length-drop : (k : ℕ) (strs : List String) → length (drop k strs) ≡ length strs - k
length-drop zero strs = omega arith
length-drop (suc k) [] = omega arith
length-drop (suc k) (s ∷ strs) = omega (arith, length-drop k strs)

-- the offsets leave room for the parts
pub offsets_fit :
    (p : PatternPart) (ps : List PatternPart) (strs : List String)
    → length (p ∷ ps) ≤ length strs
    → (offsets (p ∷ ps) strs).0 + (offsets (p ∷ ps) strs).1 + length ps ≤ length strs
unfolding offsets
offsets_fit p ps [] h = ground arith
offsets_fit p ps (s ∷ strs) h = ground arith

pub wildcards-stars : (n : ℕ) (ps : List PatternPart) → wildcards (stars n ++ ps) ≡ wildcards ps
unfolding wildcards stars
wildcards-stars zero ps = refl
wildcards-stars (suc n) ps = ground (arith, wildcards-stars n ps, eq_iff "*" "")

-- the first `**` is here, or further on
pub has_double_wildcard-inv :
    (p : PatternPart) (ps pre post : List PatternPart)
    → has_double_wildcard (p ∷ ps) ≡ some (pre, post)
    → ((is_wildcard p ≡ true) × (pre ≡ []) × (post ≡ ps))
      ⊎ ((pre' : List PatternPart) × (is_wildcard p ≡ false)
          × (pre ≡ p ∷ pre')
          × (has_double_wildcard ps ≡ some (pre', post)))
unfolding has_double_wildcard
has_double_wildcard-inv p ps pre post e = elim (Bool-cases (is_wildcard p)) [
  | inl here ↦ inl (here, ground arith, ground arith)
  | inr further ↦ elim (Option-cases (has_double_wildcard ps)) [
    | inl absent ↦ absurd (ground arith)
    | inr ((pre', post'), found) ↦ inr (pre', further, ground arith, ground arith)
  ]
]

-- expanding the first `**` leaves one less
pub wildcards_step :
    (ps pre post : List PatternPart) (i : ℕ)
    → has_double_wildcard ps ≡ some (pre, post)
    → wildcards (pre ++ (stars i ++ post)) + 1 ≡ wildcards ps
unfolding wildcards
wildcards_step [] pre post i e = unfold has_double_wildcard in cc
wildcards_step (p ∷ ps) pre post i e = elim (has_double_wildcard-inv p ps pre post e) [
  | inl (here, first, rest) ↦
      subst (λ x. wildcards (x ++ (stars i ++ post)) + 1 ≡ wildcards (p ∷ ps)) (sym first)
        (ground (arith, wildcards-stars i post, ap wildcards rest))
  | inr (pre', further, first, found) ↦
      subst (λ x. wildcards (x ++ (stars i ++ post)) + 1 ≡ wildcards (p ∷ ps)) (sym first)
        (ground (arith, wildcards_step ps pre' post i found))
]

-- without a `**` there is none to expand
pub no_wildcards : (ps : List PatternPart) → wildcards ps ≡ 0 → has_double_wildcard ps ≡ none
unfolding wildcards has_double_wildcard
no_wildcards [] e = refl
no_wildcards (p ∷ ps) e = ground (arith, no_wildcards ps)

IsDefinite-of :
    (a : Answer) → a ≢ bad_pattern → (a ≢ index_panic) × (a ≢ out_of_fuel) → IsDefinite a
IsDefinite-of matched b r = inl refl
IsDefinite-of unmatched b r = inr refl
IsDefinite-of bad_pattern b r = absurd (b refl)
IsDefinite-of out_of_fuel b r = absurd (r.1 refl)
IsDefinite-of index_panic b r = absurd (r.0 refl)

module _ (lib : PathLib) where
  -- `filepath.Match` does not fail on a part
  abbrev pub Good : PatternPart → Type 0
  Good p = (s : String) → part_matches lib p s ≢ none

  -- a window that is long enough is not left
  pub match_window_in_range :
      (ps : List PatternPart) (strs : List String)
      → length ps ≤ length strs
      → (match_window lib ps strs ≢ index_panic) × (match_window lib ps strs ≢ out_of_fuel)
  unfolding match_window
  match_window_in_range [] strs h = (λ e. cc, λ e. cc)
  match_window_in_range (p ∷ ps) [] h = absurd (omega arith)
  match_window_in_range (p ∷ ps) (s ∷ strs) h =
      let (no_panic, no_stop) = match_window_in_range ps strs (omega arith) in
      (ground arith, ground arith)

  pub try_offsets_in_range :
      (low n : ℕ) (ps : List PatternPart) (strs : List String)
      → low + n + length ps ≤ length strs + 1
      → (try_offsets lib low n ps strs ≢ index_panic)
        × (try_offsets lib low n ps strs ≢ out_of_fuel)
  unfolding try_offsets
  try_offsets_in_range low zero ps strs h = (λ e. cc, λ e. cc)
  try_offsets_in_range low (suc n) ps strs h =
      let (no_panic, no_stop) =
        match_window_in_range ps (drop (low + n) strs)
          (omega (arith, length-drop (low + n) strs)) in
      let (rest_panic, rest_stop) = try_offsets_in_range low n ps strs (omega arith) in
      (ground arith, ground arith)

  match_plain_in_range :
      (ps : List PatternPart) (strs : List String)
      → (match_plain lib ps strs ≢ index_panic) × (match_plain lib ps strs ≢ out_of_fuel)
  unfolding match_plain
  match_plain_in_range [] [] = (λ e. cc, λ e. cc)
  match_plain_in_range [] (s ∷ strs) = (λ e. cc, λ e. cc)
  match_plain_in_range (p ∷ ps) strs =
      let (low, n) = offsets (p ∷ ps) strs in
      elim (Bool-cases (leb (length (p ∷ ps)) (length strs))) [
        | inl room ↦
            let (no_panic, no_stop) =
              try_offsets_in_range low n (p ∷ ps) strs
                (omega (arith, offsets_fit p ps strs (ground arith))) in
            rw room (no_panic, no_stop)
        | inr short ↦ rw short (λ e. cc, λ e. cc)
      ]

  -- a failure of the loop is one of its calls
  expand_in_range :
      (rec : List PatternPart → Answer) (pre post : List PatternPart) (a : Answer)
      → a ≢ unmatched
      → ((i : ℕ) → rec (pre ++ (stars i ++ post)) ≢ a)
      → (i n : ℕ) → expand lib rec pre post i n ≢ a
  unfolding expand
  expand_in_range rec pre post a ne never i zero = λ e. ne (sym e)
  expand_in_range rec pre post a ne never i (suc n) =
      ground (arith, never i, expand_in_range rec pre post a ne never (i + 1) n)

  -- the steps of `match`, as equations
  pub match_fuel_plain :
      (f : ℕ) (ps : List PatternPart) (strs : List String)
      → has_double_wildcard ps ≡ none
      → match_fuel lib f ps strs ≡ match_plain lib ps strs
  unfolding match_fuel
  match_fuel_plain zero ps strs e = rw (e, match_fuel)
  match_fuel_plain (suc f) ps strs e = rw (e, match_fuel)

  pub match_fuel_stops :
      (ps : List PatternPart) (strs : List String) (split : List PatternPart × List PatternPart)
      → has_double_wildcard ps ≡ some split
      → match_fuel lib 0 ps strs ≡ out_of_fuel
  unfolding match_fuel
  match_fuel_stops ps strs split e = rw (e, match_fuel)

  pub match_fuel-expand :
      (f : ℕ) (ps pre post : List PatternPart) (strs : List String)
      → has_double_wildcard ps ≡ some (pre, post)
      → match_fuel lib (suc f) ps strs
        ≡ expand lib (λ new. match_fuel lib f new strs) pre post 0 (length strs + 2 - length ps)
  unfolding match_fuel
  match_fuel-expand f ps pre post strs e = rw (e, match_fuel)

  match_fuel_in_range :
      (f : ℕ) (ps : List PatternPart) (strs : List String)
      → wildcards ps ≤ f
      → (match_fuel lib f ps strs ≢ index_panic) × (match_fuel lib f ps strs ≢ out_of_fuel)
  match_fuel_in_range zero ps strs h =
      rw (match_fuel_plain 0 ps strs (no_wildcards ps (omega arith))) (match_plain_in_range ps strs)
  match_fuel_in_range (suc f) ps strs h = elim (Option-cases (has_double_wildcard ps)) [
    | inl absent ↦ rw (match_fuel_plain (suc f) ps strs absent) (match_plain_in_range ps strs)
    | inr ((pre, post), found) ↦
        let rec = λ (new : List PatternPart). match_fuel lib f new strs in
        let step = λ (i : ℕ).
          match_fuel_in_range f (pre ++ (stars i ++ post)) strs
            (omega (arith, wildcards_step ps pre post i found)) in
        rw (match_fuel-expand f ps pre post strs found) (
          expand_in_range rec pre post index_panic (λ e. cc) (λ i. (step i).0) 0 _,
          expand_in_range rec pre post out_of_fuel (λ e. cc) (λ i. (step i).1) 0 _,
        )
  ]

  pub match_window-Good :
      (ps : List PatternPart) (strs : List String)
      → All Good ps
      → match_window lib ps strs ≢ bad_pattern
  unfolding match_window
  match_window-Good [] strs g = λ e. cc
  match_window-Good (p ∷ ps) [] g = λ e. cc
  match_window-Good (p ∷ ps) (s ∷ strs) g = ground (arith, match_window-Good ps strs g.1, g.0 s)

  try_offsets-Good :
      (low n : ℕ) (ps : List PatternPart) (strs : List String)
      → All Good ps
      → try_offsets lib low n ps strs ≢ bad_pattern
  unfolding try_offsets
  try_offsets-Good low zero ps strs g = λ e. cc
  try_offsets-Good low (suc n) ps strs g =
      ground (arith, match_window-Good ps (drop (low + n) strs) g, try_offsets-Good low n ps strs g)

  match_plain-Good :
      (ps : List PatternPart) (strs : List String)
      → All Good ps
      → match_plain lib ps strs ≢ bad_pattern
  unfolding match_plain
  match_plain-Good [] [] g = λ e. cc
  match_plain-Good [] (s ∷ strs) g = λ e. cc
  match_plain-Good (p ∷ ps) strs g =
      let (low, n) = offsets (p ∷ ps) strs in
      elim (Bool-cases (leb (length (p ∷ ps)) (length strs))) [
        | inl room ↦ rw room (try_offsets-Good low n (p ∷ ps) strs g)
        | inr short ↦ rw short (λ e. cc)
      ]

  pub stars-Good : (n : ℕ) → Good star → All Good (stars n)
  unfolding stars
  stars-Good zero g = tt
  stars-Good (suc n) g = (g, stars-Good n g)

  -- the parts before and behind the first `**` are parts of the pattern
  pub split-Good :
      (ps pre post : List PatternPart)
      → has_double_wildcard ps ≡ some (pre, post)
      → All Good ps
      → All Good pre × All Good post
  split-Good [] pre post e g = unfold has_double_wildcard in absurd (cc)
  split-Good (p ∷ ps) pre post e g = elim (has_double_wildcard-inv p ps pre post e) [
    | inl (here, first, rest) ↦ (subst (All Good) (sym first) tt, subst (All Good) (sym rest) g.1)
    | inr (pre', further, first, found) ↦
        let (a, b) = split-Good ps pre' post found g.1 in (subst (All Good) (sym first) (g.0, a), b)
  ]

  match_fuel-Good :
      (f : ℕ) (ps : List PatternPart) (strs : List String)
      → Good star
      → All Good ps
      → match_fuel lib f ps strs ≢ bad_pattern
  match_fuel-Good zero ps strs s g = elim (Option-cases (has_double_wildcard ps)) [
    | inl absent ↦ rw (match_fuel_plain 0 ps strs absent) (match_plain-Good ps strs g)
    | inr (x, found) ↦ rw (match_fuel_stops ps strs x found) (λ e. cc)
  ]
  match_fuel-Good (suc f) ps strs s g = elim (Option-cases (has_double_wildcard ps)) [
    | inl absent ↦ rw (match_fuel_plain (suc f) ps strs absent) (match_plain-Good ps strs g)
    | inr ((pre, post), found) ↦
        let (a, b) = split-Good ps pre post found g in
        rw (match_fuel-expand f ps pre post strs found) (
          expand_in_range (λ (new : List PatternPart). match_fuel lib f new strs) pre post
            bad_pattern (λ e. cc)
            (λ i. match_fuel-Good f (pre ++ (stars i ++ post)) strs s (
              All-append Good pre (stars i ++ post) a
                (All-append Good (stars i) post (stars-Good i s) b)))
            0 _)
  ]

  pub match_fuel-IsDefinite :
      (f : ℕ) (ps : List PatternPart) (strs : List String)
      → wildcards ps ≤ f
      → Good star
      → All Good ps
      → IsDefinite (match_fuel lib f ps strs)
  match_fuel-IsDefinite f ps strs h s g =
      IsDefinite-of (match_fuel lib f ps strs) (match_fuel-Good f ps strs s g)
        (match_fuel_in_range f ps strs h)

  -- Where `filepath.Match` fails on no part of the pattern and not on "*", `match` ends, indexes nothing
  -- out of range, and answers with a match or with none.
  pub match-IsDefinite :
      (ps : List PatternPart) (strs : List String)
      → Good star
      → All Good ps
      → IsDefinite (match lib ps strs)
  unfolding match
  match-IsDefinite ps strs s g = match_fuel-IsDefinite (wildcards ps) ps strs (omega arith) s g

-- ===== src/Filter/Patterns/Verdict.antt =====
-- The last pattern that matches decides.
use Prim.Native.String.{String}
use text.Mathlib.Text.{◌==◌ as str_eq}
use vlbe.Base.{
  ◌≡◌, refl, sym, ap, subst, ◌∙◌, ◌⊎◌, inl, inr, Bool, true, false, ◌&&◌, ◌||◌, not, Bool-cases,
  List, [], ◌∷◌, arith, All, if◌then◌else◌,
}
use vlbe.Filter.{PathLib, Pattern, matched, star, match, split_path}
use vlbe.Filter.Definite.{Good, IsDefinite, match-IsDefinite}
use vlbe.Filter.Patterns.{
  ListAnswer, decided, Round, leave, next, has_negated_pattern, combine, child_answer, child_round,
  list_round, list_loop, list_of, list_matches,
}

module _ (lib : PathLib) where
  -- does the pattern match?
  abbrev pub hits : List String → Pattern → Bool
  hits strs pat = elim (match lib pat.parts strs) [ matched ↦ true | _ ↦ false ]

  -- what the last pattern that matches says, if one matches
  abbrev pub verdict : List String → Bool → List Pattern → Bool
  verdict strs so_far [] = so_far
  verdict strs so_far (pat ∷ pats) =
      verdict strs (if hits strs pat then not pat.is_negated else so_far) pats

  verdict_stays :
      (strs : List String) (pats : List Pattern)
      → has_negated_pattern pats ≡ false
      → verdict strs true pats ≡ true
  unfolding has_negated_pattern
  verdict_stays strs [] e = refl
  verdict_stays strs (pat ∷ pats) e =
      let plain : pat.is_negated ≡ false = ground arith in
      let more = verdict_stays strs pats (ground arith) in
      elim (Bool-cases (hits strs pat)) [ inl hit ↦ rw (hit, plain) more | inr miss ↦ rw miss more ]

  combine-next :
      (has_neg neg m c mt ch m' c' : Bool)
      → combine has_neg neg m c mt ch ≡ next m' c'
      → m' ≡ (if m then not neg else mt)
  unfolding combine
  combine-next has_neg neg true c mt ch m' c' e = ground arith
  combine-next has_neg neg false c mt ch m' c' e = ground arith

  combine-leave :
      (has_neg neg m c mt ch m' c' : Bool)
      → combine has_neg neg m c mt ch ≡ leave (decided m' c')
      → (m' ≡ true) × (has_neg ≡ false) × ((if m then not neg else mt) ≡ true)
  unfolding combine
  combine-leave has_neg neg true c mt ch m' c' e = ground arith
  combine-leave has_neg neg false c mt ch m' c' e = ground arith

  child_round-next :
      (has_neg check : Bool) (strs : List String) (pat : Pattern) (m mt ch m' c' : Bool)
      → child_round lib has_neg check strs pat m mt ch ≡ next m' c'
      → m' ≡ (if m then not pat.is_negated else mt)
  unfolding child_round
  child_round-next has_neg check strs pat m mt ch m' c' e = ground (
    arith,
    combine-next has_neg pat.is_negated m true mt ch m' c',
    combine-next has_neg pat.is_negated m false mt ch m' c',
  )

  child_round-leave :
      (has_neg check : Bool) (strs : List String) (pat : Pattern) (m mt ch m' c' : Bool)
      → child_round lib has_neg check strs pat m mt ch ≡ leave (decided m' c')
      → (m' ≡ true) × (has_neg ≡ false) × ((if m then not pat.is_negated else mt) ≡ true)
  unfolding child_round
  child_round-leave has_neg check strs pat m mt ch m' c' e = ground (
    arith,
    combine-leave has_neg pat.is_negated m true mt ch m' c',
    combine-leave has_neg pat.is_negated m false mt ch m' c',
  )

  list_round-next :
      (has_neg check : Bool) (strs : List String) (pat : Pattern) (mt ch m' c' : Bool)
      → list_round lib has_neg check strs pat mt ch ≡ next m' c'
      → m' ≡ (if hits strs pat then not pat.is_negated else mt)
  unfolding list_round
  list_round-next has_neg check strs pat mt ch m' c' e = ground (
    arith,
    child_round-next has_neg check strs pat true mt ch m' c',
    child_round-next has_neg check strs pat false mt ch m' c',
  )

  list_round-leave :
      (has_neg check : Bool) (strs : List String) (pat : Pattern) (mt ch m' c' : Bool)
      → list_round lib has_neg check strs pat mt ch ≡ leave (decided m' c')
      → (m' ≡ true)
        × (has_neg ≡ false)
        × ((if hits strs pat then not pat.is_negated else mt) ≡ true)
  unfolding list_round
  list_round-leave has_neg check strs pat mt ch m' c' e = ground (
    arith,
    child_round-leave has_neg check strs pat true mt ch m' c',
    child_round-leave has_neg check strs pat false mt ch m' c',
  )

  Round-cases :
      (r : Round) → ((a : ListAnswer) × (r ≡ leave a)) ⊎ ((m : Bool) × (c : Bool) × (r ≡ next m c))
  Round-cases (leave a) = inl (a, refl)
  Round-cases (next m c) = inr (m, c, refl)

  list_loop-verdict :
      (has_neg check : Bool) (strs : List String) (mt ch m c : Bool) (pats : List Pattern)
      → (has_neg ≡ false → has_negated_pattern pats ≡ false)
      → list_loop lib has_neg check strs mt ch pats ≡ decided m c
      → m ≡ verdict strs mt pats
  unfolding list_loop
  list_loop-verdict has_neg check strs mt ch m c [] neg e = ground arith
  list_loop-verdict has_neg check strs mt ch m c (pat ∷ pats) neg e =
      let tail : has_neg ≡ false → has_negated_pattern pats ≡ false =
        λ n. unfold has_negated_pattern in (let all = neg n in ground arith) in
      elim (Round-cases (list_round lib has_neg check strs pat mt ch)) [
        | inl (a, left) ↦
            let whole : a ≡ decided m c = ground arith in
            let (kept, none_negated, so_far) =
              list_round-leave has_neg check strs pat mt ch m c (left ∙ ap leave whole) in
            rw so_far (kept ∙ sym (verdict_stays strs pats (tail none_negated)))
        | inr (m', c', on) ↦
            let rest : list_loop lib has_neg check strs m' c' pats ≡ decided m c = ground arith in
            let ih = list_loop-verdict has_neg check strs m' c' m c pats tail rest in
            subst (λ b. m ≡ verdict strs b pats)
              (list_round-next has_neg check strs pat mt ch m' c' on) ih
      ]

  -- a round that does not fail
  abbrev pub IsSettled : Round → Type 0
  IsSettled r =
      ((m : Bool) × (c : Bool) × (r ≡ leave (decided m c)))
      ⊎ ((m : Bool) × (c : Bool) × (r ≡ next m c))

  combine-IsSettled : (has_neg neg m c mt ch : Bool) → IsSettled (combine has_neg neg m c mt ch)
  unfolding combine
  combine-IsSettled has_neg true m c mt ch = inr (_, _, refl)
  combine-IsSettled has_neg false m c mt ch =
      elim (Bool-cases ((mt || m) && (ch || c) && not has_neg)) [
        | inl stop ↦ rw stop (inl (mt || m, ch || c, refl))
        | inr on ↦ rw on (inr (mt || m, ch || c, refl))
      ]

  list_round-IsSettled :
      (has_neg : Bool) (strs : List String) (pat : Pattern) (mt ch : Bool)
      → IsDefinite (match lib pat.parts strs)
      → IsSettled (list_round lib has_neg false strs pat mt ch)
  unfolding list_round child_round child_answer
  list_round-IsSettled has_neg strs pat mt ch (inl hit) =
      rw (list_round, hit) (combine-IsSettled has_neg pat.is_negated true true mt ch)
  list_round-IsSettled has_neg strs pat mt ch (inr miss) =
      rw (list_round, miss) (combine-IsSettled has_neg pat.is_negated false true mt ch)

  list_loop_total :
      (has_neg : Bool) (strs : List String) (mt ch : Bool) (pats : List Pattern)
      → Good lib star
      → All (λ pat. All (Good lib) pat.parts) pats
      → (m : Bool) × (c : Bool) × (list_loop lib has_neg false strs mt ch pats ≡ decided m c)
  unfolding list_loop
  list_loop_total has_neg strs mt ch [] s g = (mt, ch, refl)
  list_loop_total has_neg strs mt ch (pat ∷ pats) s (here, g) =
      elim (list_round-IsSettled has_neg strs pat mt ch
        (match-IsDefinite lib pat.parts strs s here)) [
          | inl (m, c, left) ↦ (m, c, rw (list_loop, left) refl)
          | inr (m', c', on) ↦ rw (list_loop, on) (list_loop_total has_neg strs m' c' pats s g)
        ]

  -- Where `list` returns, with or without the answers of `childMatch`, its first result is what the last
  -- pattern that matches says: true if that pattern is not negated, false if it is, and false if none
  -- matches.
  pub list_of-verdict :
      (pats : List Pattern) (check : Bool) (str : String) (m c : Bool)
      → list_of lib pats check str ≡ decided m c
      → m ≡ verdict (split_path lib str) false pats
  unfolding list_of
  list_of-verdict [] check str m c e = ground arith
  list_of-verdict (pat ∷ pats) check str m c e = elim (Bool-cases (str_eq str "")) [
    | inl empty ↦ absurd (ground arith)
    | inr full ↦
        list_loop-verdict (has_negated_pattern (pat ∷ pats)) check (split_path lib str) false false
          m c (pat ∷ pats) (λ e. e) (ground arith)
  ]

  -- Where `filepath.Match` fails on no part of a pattern and not on "*", `List` returns for every path that
  -- is not empty, and says whether the last pattern that matches is not negated.
  pub list_matches-verdict :
      (pats : List Pattern) (str : String)
      → str_eq str "" ≡ false
      → Good lib star
      → All (λ pat. All (Good lib) pat.parts) pats
      → (c : Bool) × (list_matches lib pats str
          ≡ decided (verdict (split_path lib str) false pats) c)
  unfolding list_matches list_of
  list_matches-verdict [] str full s g = (false, refl)
  list_matches-verdict (pat ∷ pats) str full s g =
      let has_neg = has_negated_pattern (pat ∷ pats) in
      let (m, c, e) = list_loop_total has_neg (split_path lib str) false false (pat ∷ pats) s g in
      let says =
        list_loop-verdict has_neg false (split_path lib str) false false m c (pat ∷ pats) (λ e. e)
          e in
      (c, rw full (e ∙ ap (λ b. decided b c) says))

-- ===== src/Tags/Counts.antt =====
-- How often each tag stands after a change.
use Prim.Native.String.{String}
use text.Mathlib.Text.{◌==◌ as str_eq}
use text.Mathlib.TextEquality.{eq_iff}
use vlbe.Base.{
  ℕ, ◌+◌, ◌-◌, ◌≡◌, refl, sym, ap, ◌∙◌, subst, inl, inr, Bool, true, false, not, ◌||◌, Bool-cases,
  Option-cases, List, [], ◌∷◌, ◌++◌, none, some, if◌then◌else◌, arith,
}
use vlbe.Policy.{has_tag}
use vlbe.Tags.{
  add_tag, add_each, add_tags, last_tag, but_last, fill_gap, without, remove_tag, remove_each,
  remove_tags,
}

-- how often the tag stands in the list
abbrev pub count : String → List String → ℕ
count tag [] = 0
count tag (t ∷ ts) = (if str_eq t tag then 1 else 0) + count tag ts

count-but_last :
    (tag t : String) (ts : List String)
    → (if str_eq (last_tag t ts) tag then 1 else 0) + count tag (but_last t ts) ≡ count tag (t ∷ ts)
unfolding last_tag but_last
count-but_last tag t [] = refl
count-but_last tag t (u ∷ us) = omega (arith, count-but_last tag u us)

count-fill_gap : (tag : String) (ts : List String) → count tag (fill_gap ts) ≡ count tag ts
unfolding fill_gap
count-fill_gap tag [] = refl
count-fill_gap tag (t ∷ ts) = count-but_last tag t ts

-- the first `gone` is taken out, if there is one
count-without :
    (tag gone : String) (ts : List String)
    → count tag (elim (without gone ts) as (λ _. List String) [ none ↦ ts | some us ↦ us ])
      ≡ count tag ts - (if str_eq gone tag then 1 else 0)
unfolding without
count-without tag gone [] = ground arith
count-without tag gone (t ∷ ts) = elim (Bool-cases (str_eq t gone)) [
  | inl here ↦
      let same : t ≡ gone = (eq_iff t gone).0 here in
      rw (here, same) (omega (arith, count-fill_gap tag ts))
  | inr other ↦
      let apart : str_eq gone tag ≡ true → str_eq t tag ≡ false =
        λ g. subst (λ x. str_eq t x ≡ false) ((eq_iff gone tag).0 g) other in
      elim (Option-cases (without gone ts)) [
        | inl absent ↦
            let ih : count tag ts ≡ count tag ts - (if str_eq gone tag then 1 else 0) =
              subst
                (λ o.
                  count tag (elim o as (λ _. List String) [ none ↦ ts | some us ↦ us ])
                  ≡ count tag ts - (if str_eq gone tag then 1 else 0))
                absent (count-without tag gone ts) in
            rw (other, absent) (ground (arith, ih, apart))
        | inr (us, found) ↦
            let ih : count tag us ≡ count tag ts - (if str_eq gone tag then 1 else 0) =
              subst
                (λ o.
                  count tag (elim o as (λ _. List String) [ none ↦ ts | some us ↦ us ])
                  ≡ count tag ts - (if str_eq gone tag then 1 else 0))
                found (count-without tag gone ts) in
            rw (other, found) (ground (arith, ih, apart))
      ]
]

count-remove_tag :
    (tag gone : String) (ts : List String) (changed : Bool)
    → count tag (remove_tag gone (ts, changed)).0
      ≡ count tag ts - (if str_eq gone tag then 1 else 0)
unfolding remove_tag
count-remove_tag tag gone ts changed = elim (Option-cases (without gone ts)) [
  | inl absent ↦
      let ih = count-without tag gone ts in
      rw (remove_tag, absent)
        (subst
          (λ o.
            count tag (elim o as (λ _. List String) [ none ↦ ts | some us ↦ us ])
            ≡ count tag ts - (if str_eq gone tag then 1 else 0))
          absent ih)
  | inr (us, found) ↦
      let ih = count-without tag gone ts in
      rw (remove_tag, found)
        (subst
          (λ o.
            count tag (elim o as (λ _. List String) [ none ↦ ts | some us ↦ us ])
            ≡ count tag ts - (if str_eq gone tag then 1 else 0))
          found ih)
]

count-remove_each :
    (tag : String) (gone ts : List String) (changed : Bool)
    → count tag (remove_each gone (ts, changed)).0 ≡ count tag ts - count tag gone
unfolding remove_each
count-remove_each tag [] ts changed = omega arith
count-remove_each tag (g ∷ gone) ts changed =
    let (ts', changed') = remove_tag g (ts, changed) in
    omega (arith, count-remove_tag tag g ts changed, count-remove_each tag gone ts' changed')

-- `RemoveTags` takes out each tag as often as it is asked to, or as often as the snapshot has it.
pub count-remove_tags :
    (tag : String) (tags gone : List String)
    → count tag (remove_tags tags gone).0 ≡ count tag tags - count tag gone
unfolding remove_tags
count-remove_tags tag tags gone = count-remove_each tag gone tags false

has_tag-append :
    (tag add : String) (ts : List String)
    → has_tag tag (ts ++ add ∷ []) ≡ (has_tag tag ts || str_eq tag add)
unfolding has_tag
has_tag-append tag add [] = ground arith
has_tag-append tag add (t ∷ ts) = ground (arith, has_tag-append tag add ts)

has_tag-add_tag :
    (tag add : String) (ts : List String) (changed : Bool)
    → has_tag tag (add_tag add (ts, changed)).0 ≡ (has_tag tag ts || str_eq tag add)
unfolding add_tag
has_tag-add_tag tag add ts changed = elim (Bool-cases (has_tag add ts)) [
  | inl there ↦ rw there (elim (Bool-cases (str_eq tag add)) [
    | inl same ↦
        let has_it = subst (λ x. has_tag x ts ≡ true) (sym ((eq_iff tag add).0 same)) there in
        ground arith
    | inr other ↦ ground arith
  ])
  | inr absent ↦ rw absent (has_tag-append tag add ts)
]

count-append :
    (tag add : String) (ts : List String)
    → count tag (ts ++ add ∷ []) ≡ count tag ts + (if str_eq add tag then 1 else 0)
count-append tag add [] = omega arith
count-append tag add (t ∷ ts) = omega (arith, count-append tag add ts)

flipped : (a b : String) → str_eq a b ≡ str_eq b a
flipped a b = ground (arith, eq_iff a b, eq_iff b a)

-- the two branches of `add_tag`
abbrev added_by : String → List String → Bool → Bool → List String × Bool
added_by add ts changed there = if there then (ts, changed) else (ts ++ add ∷ [], true)

add_tag_there :
    (add : String) (ts : List String) (changed : Bool)
    → has_tag add ts ≡ true
    → add_tag add (ts, changed) ≡ (ts, changed)
unfolding add_tag
add_tag_there add ts changed there = ap (added_by add ts changed) there

add_tag_absent :
    (add : String) (ts : List String) (changed : Bool)
    → has_tag add ts ≡ false
    → add_tag add (ts, changed) ≡ (ts ++ add ∷ [], true)
unfolding add_tag
add_tag_absent add ts changed absent = ap (added_by add ts changed) absent

-- a tag that is there is not added again
count-add_tag :
    (tag add : String) (ts : List String) (changed : Bool)
    → count tag (add_tag add (ts, changed)).0
      ≡ (if has_tag tag ts then count tag ts else count tag ts + (if str_eq tag add then 1 else 0))
count-add_tag tag add ts changed = elim (Bool-cases (has_tag add ts)) [
  | inl there ↦
      let same : str_eq tag add ≡ true → has_tag tag ts ≡ true =
        λ e. subst (λ x. has_tag x ts ≡ true) (sym ((eq_iff tag add).0 e)) there in
      rw (add_tag_there add ts changed there) (ground arith)
  | inr absent ↦
      let apart : str_eq tag add ≡ true → has_tag tag ts ≡ false =
        λ e. subst (λ x. has_tag x ts ≡ false) (sym ((eq_iff tag add).0 e)) absent in
      rw (add_tag_absent add ts changed absent)
        (ground (arith, count-append tag add ts, flipped tag add))
]

count_none : (tag : String) (ts : List String) → has_tag tag ts ≡ false → count tag ts ≡ 0
unfolding has_tag
count_none tag [] absent = refl
count_none tag (t ∷ ts) absent = ground (arith, flipped tag t, count_none tag ts)

-- how often a tag stands when those of `more` are added: never added twice
abbrev pub count_added : Bool → Bool → ℕ → ℕ
count_added had given n = if had then n else if given then 1 else 0

count-add_each :
    (tag : String) (more ts : List String) (changed : Bool)
    → count tag (add_each more (ts, changed)).0
      ≡ count_added (has_tag tag ts) (has_tag tag more) (count tag ts)
unfolding add_each has_tag
count-add_each tag [] ts changed = ground (arith, count_none tag ts)
count-add_each tag (add ∷ more) ts changed =
    let (ts', changed') = add_tag add (ts, changed) in
    let here = count-add_tag tag add ts changed in
    let there = has_tag-add_tag tag add ts changed in
    let rest = count-add_each tag more ts' changed' in
    ground (arith, here, there, rest, count_none tag ts)

-- is a tag of `more` missing from the list?
abbrev pub any_missing : List String → List String → Bool
any_missing ts [] = false
any_missing ts (add ∷ more) = not (has_tag add ts) || any_missing ts more

changed-add_each :
    (more ts : List String) (changed : Bool)
    → (add_each more (ts, changed)).1 ≡ (changed || any_missing ts more)
unfolding add_each
changed-add_each [] ts changed = ground arith
changed-add_each (add ∷ more) ts changed = elim (Bool-cases (has_tag add ts)) [
  | inl there ↦
      ap (λ st. (add_each more st).1) (add_tag_there add ts changed there)
      ∙ changed-add_each more ts changed
      ∙ ap (λ b. changed || (not b || any_missing ts more)) (sym there)
  | inr absent ↦
      ap (λ st. (add_each more st).1) (add_tag_absent add ts changed absent)
      ∙ changed-add_each more (ts ++ add ∷ []) true
      ∙ ground arith
]

-- `AddTags` prevents duplicates: every tag that the snapshot had stands as often as before, each other
-- tag among those to add stands once however often it is given, and no further tag stands there. It
-- reports a change exactly where one of the tags to add was missing.
pub count-add_tags :
    (tag : String) (tags more : List String)
    → (count tag (add_tags tags more).0
        ≡ count_added (has_tag tag tags) (has_tag tag more) (count tag tags))
      × ((add_tags tags more).1 ≡ any_missing tags more)
unfolding add_tags
count-add_tags tag tags more =
    (count-add_each tag more tags false, changed-add_each more tags false)

-- ===== src/Index/Hashed/Chains.antt =====
-- Every bucket leads to the entries of its hash.
use vlbe.Base.{
  ℕ, zero, suc, ◌≤◌, ◌<◌, ◌≡◌, refl, ap, ◌∙◌, inl, inr, true, false, Bool-cases, Option-cases,
  ==_iff, List, [], ◌∷◌, some, length, ◌==◌, if◌then◌else◌, arith,
}
use vlbe.Restic.Blob.{ContentId}
use vlbe.Index.Hashed.{IndexEntry, Linked, zeros, bucket_at, set_bucket, resolve, chain, hash}

pub length-zeros : (n : ℕ) → length (zeros n) ≡ n
unfolding zeros
length-zeros zero = refl
length-zeros (suc n) = omega (arith, length-zeros n)

pub bucket_at-zeros : (n h : ℕ) → bucket_at (zeros n) h ≡ 0
unfolding zeros bucket_at
bucket_at-zeros zero h = refl
bucket_at-zeros (suc n) zero = refl
bucket_at-zeros (suc n) (suc h) = bucket_at-zeros n h

pub length-set_bucket : (bs : List ℕ) (h v : ℕ) → length (set_bucket bs h v) ≡ length bs
unfolding set_bucket
length-set_bucket [] h v = refl
length-set_bucket (b ∷ bs) zero v = refl
length-set_bucket (b ∷ bs) (suc h) v = omega (arith, length-set_bucket bs h v)

pub bucket_at-set_bucket :
    (bs : List ℕ) (h v i : ℕ)
    → h < length bs
    → bucket_at (set_bucket bs h v) i ≡ (if i == h then v else bucket_at bs i)
unfolding set_bucket bucket_at
bucket_at-set_bucket [] h v i below = absurd (omega arith)
bucket_at-set_bucket (b ∷ bs) zero v zero below = refl
bucket_at-set_bucket (b ∷ bs) zero v (suc i) below = ground arith
bucket_at-set_bucket (b ∷ bs) (suc h) v zero below = ground arith
bucket_at-set_bucket (b ∷ bs) (suc h) v (suc i) below =
    ground (arith, bucket_at-set_bucket bs h v i (omega arith))

module _ (sum64 : ℕ → ContentId → ℕ) (seed n : ℕ) where
  -- the position of the newest entry of a hash
  unfoldable pub head_of : ℕ → List Linked → ℕ
  head_of h [] = 0
  head_of h (e ∷ es) =
      let rest = head_of h es in if hash sum64 seed n e.entry.id == h then suc (length es) else rest

  -- Every entry links to the newest older one of its hash.
  abbrev pub AreLinked : List Linked → Type 0
  AreLinked [] = Unit
  AreLinked (e ∷ es) = (e.next ≡ head_of (hash sum64 seed n e.entry.id) es) × AreLinked es

  -- the entries of a hash, with their positions
  unfoldable pub hashed : ℕ → List Linked → List (ℕ × IndexEntry)
  hashed h [] = []
  hashed h (e ∷ es) =
      let rest = hashed h es in
      if hash sum64 seed n e.entry.id == h then (suc (length es), e.entry) ∷ rest else rest

  head_of_bound : (h : ℕ) (es : List Linked) → head_of h es ≤ length es
  unfolding head_of
  head_of_bound h [] = omega arith
  head_of_bound h (e ∷ es) = ground (arith, head_of_bound h es)

  chain-none : (fuel : ℕ) (es : List Linked) → chain fuel es 0 ≡ []
  unfolding chain
  chain-none zero es = refl
  chain-none (suc fuel) es = refl

  resolve_older :
      (es : List Linked) (ei : ℕ) (e : Linked)
      → AreLinked es
      → resolve es ei ≡ some e
      → (ei ≤ length es) × (e.next < ei)
  unfolding resolve
  resolve_older [] ei e linked found = absurd (ground arith)
  resolve_older (f ∷ es) ei e (link, linked) found = elim (Bool-cases (ei == suc (length es))) [
    | inl newest ↦
        let same : f ≡ e = ground arith in
        let bound = head_of_bound (hash sum64 seed n f.entry.id) es in
        rw (← same) (ground (arith, link, bound))
    | inr older ↦
        let (below, links_back) = resolve_older es ei e linked (ground arith) in
        (omega arith, links_back)
  ]

  -- A newer entry does not change what is found from an older position.
  chain-cons :
      (fuel : ℕ) (e : Linked) (es : List Linked) (ei : ℕ)
      → AreLinked es
      → ei ≤ length es
      → chain fuel (e ∷ es) ei ≡ chain fuel es ei
  unfolding chain resolve
  chain-cons zero e es ei linked older = refl
  chain-cons (suc fuel) e es ei linked older =
      let other : (ei == suc (length es)) ≡ false = ground arith in
      elim (Option-cases (resolve es ei)) [
        | inl nothing ↦ rw (other, nothing) refl
        | inr (f, found) ↦
            let (below, back) = resolve_older es ei f linked found in
            rw (other, found, chain-cons fuel e es f.next linked (omega arith)) refl
      ]

  module _ (h : ℕ) (e : Linked) (es : List Linked) where
    pub newest :
        hash sum64 seed n e.entry.id ≡ h
        → (head_of h (e ∷ es) ≡ suc (length es))
          × (hashed h (e ∷ es) ≡ (suc (length es), e.entry) ∷ hashed h es)
    unfolding head_of hashed
    newest same =
        let here = (==_iff (hash sum64 seed n e.entry.id) h).1 same in (rw here refl, rw here refl)

    pub not_newest :
        (hash sum64 seed n e.entry.id == h) ≡ false
        → (head_of h (e ∷ es) ≡ head_of h es) × (hashed h (e ∷ es) ≡ hashed h es)
    unfolding head_of hashed
    not_newest other = (rw other refl, rw other refl)

  chain-newest :
      (fuel : ℕ) (e : Linked) (es : List Linked)
      → chain (suc fuel) (e ∷ es) (suc (length es))
        ≡ (suc (length es), e.entry) ∷ chain fuel (e ∷ es) e.next
  unfolding chain resolve
  chain-newest fuel e es =
      let valid : (suc (length es) == 0) ≡ false = ground arith in
      let found : (suc (length es) == suc (length es)) ≡ true = ground arith in
      rw (valid, found) refl

  chain_nil : (fuel h : ℕ) → chain fuel [] (head_of h []) ≡ hashed h []
  unfolding head_of hashed
  chain_nil fuel h = chain-none fuel []

  -- The chain from a bucket visits the entries of its hash.
  pub chain-head_of :
      (fuel : ℕ) (es : List Linked) (h : ℕ)
      → AreLinked es
      → length es < fuel
      → chain fuel es (head_of h es) ≡ hashed h es
  chain-head_of fuel [] h linked enough = chain_nil fuel h
  chain-head_of zero (e ∷ es) h linked enough = absurd (omega arith)
  chain-head_of (suc fuel) (e ∷ es) h (link, linked) enough =
      elim (Bool-cases (hash sum64 seed n e.entry.id == h)) [
        | inl here ↦
            let same = (==_iff (hash sum64 seed n e.entry.id) h).0 here in
            let (head, visited) = newest h e es same in
            let rest : chain fuel (e ∷ es) e.next ≡ hashed h es =
              ap (chain fuel (e ∷ es)) (link ∙ ap (λ g. head_of g es) same)
              ∙ (chain-cons fuel e es (head_of h es) linked (head_of_bound h es)
                  ∙ chain-head_of fuel es h linked (omega arith)) in
            rw (head, visited, chain-newest fuel e es, rest) refl
        | inr other ↦
            let (head, visited) = not_newest h e es other in
            rw (head, visited)
              (chain-cons (suc fuel) e es (head_of h es) linked (head_of_bound h es)
                ∙ chain-head_of (suc fuel) es h linked (omega arith))
      ]

-- ===== src/Index/ArrayTree/Array.antt =====
-- The array tree is an array that grows at its end.
use vlbe.Base.{
  ℕ, zero, suc, ◌+◌, ◌-◌, ◌*◌, ◌/◌, ◌%◌, ◌≤◌, ◌<◌, ◌≡◌, inl, inr, refl, sym, ap, ◌∙◌, Bool-cases,
  List, [], ◌∷◌, ◌++◌, Option, none, some, length, length-append, ltb, arith, All,
}
use mathlib.Core.List.{append_assoc}
use Prim.Native.Nat.{one}
use native.Mathlib.Nat.{mul-suc, div-eq-sub-div, div-eq_of_lt, mod-eq-sub-mod, mod-eq_of_lt}
use vlbe.Index.ArrayTree.{make_items, item, set_item, merge_pairs}

same_row : (m k : ℕ) → suc m ≡ suc k → m ≡ k
same_row m k e = omega arith

module _ {A : Type 0} where
  -- the blocks one after another
  unfoldable pub joined : List (List A) → List A
  joined [] = []
  joined (b ∷ bs) = b ++ joined bs

  abbrev pub AllOf : ℕ → List (List A) → Type 0
  AllOf n bs = All (λ b. length b ≡ n) bs

  pub item-append_left : (xs ys : List A) (i : ℕ) → i < length xs → item (xs ++ ys) i ≡ item xs i
  unfolding item
  item-append_left [] ys i h = absurd (omega arith)
  item-append_left (x ∷ xs) ys zero h = refl
  item-append_left (x ∷ xs) ys (suc i) h = item-append_left xs ys i (omega arith)

  item-append_right : (xs ys : List A) (i j : ℕ) → i ≡ length xs + j → item (xs ++ ys) i ≡ item ys j
  unfolding item
  item-append_right [] ys i j h = ap (item ys) (omega arith)
  item-append_right (x ∷ xs) ys zero j h = absurd (omega arith)
  item-append_right (x ∷ xs) ys (suc i) j h = item-append_right xs ys i j (omega arith)

  -- what `Ref` reads in blocks of one size
  unfoldable pub in_blocks : List (List A) → ℕ → ℕ → Option A
  in_blocks bs i j = elim (item bs i) [ none ↦ none | some block ↦ item block j ]

  in_blocks_next :
      (b : List A) (bs : List (List A)) (k m j : ℕ)
      → m ≡ suc k
      → in_blocks (b ∷ bs) m j ≡ in_blocks bs k j
  unfolding in_blocks item
  in_blocks_next b bs k zero j e = absurd (omega arith)
  in_blocks_next b bs k (suc m) j e = ap (λ i. in_blocks bs i j) (same_row m k e)

  pub in_blocks-joined :
      (n : ℕ) (bs rest : List (List A)) (pos : ℕ)
      → 1 ≤ n
      → AllOf n bs
      → pos < length (joined bs)
      → in_blocks (bs ++ rest) (pos / n) (pos % n) ≡ item (joined bs) pos
  unfolding in_blocks joined item
  in_blocks-joined n [] rest pos positive same below = absurd (omega arith)
  in_blocks-joined n (b ∷ bs) rest pos positive (here, same) below = elim (Bool-cases (ltb pos n)) [
    | inl first ↦
        let small : pos < n = ground arith in
        rw (div-eq_of_lt small, mod-eq_of_lt small)
          (sym (item-append_left b (joined bs) pos (omega (arith, here))))
    | inr later ↦
        let large : n ≤ pos = ground arith in
        rw (div-eq-sub-div (omega arith) large, mod-eq-sub-mod large)
          (in_blocks_next b (bs ++ rest) ((pos - n) / n) ((pos - n) / n + one) ((pos - n) % n)
              (omega arith)
            ∙ in_blocks-joined n bs rest (pos - n) positive same
                (omega (arith, length-append {0} b (joined bs), here))
            ∙ sym (item-append_right b (joined bs) pos (pos - n) (omega (arith, here))))
  ]

  -- merging in pairs
  pub joined-merge_pairs :
      (half : ℕ) (bs : List (List A))
      → length bs ≡ half + half
      → joined (merge_pairs bs) ≡ joined bs
  unfolding joined merge_pairs
  joined-merge_pairs zero [] e = refl
  joined-merge_pairs (suc half) [] e = absurd (omega arith)
  joined-merge_pairs half (a ∷ []) e = absurd (omega arith)
  joined-merge_pairs zero (a ∷ (b ∷ bs)) e = absurd (omega arith)
  joined-merge_pairs (suc half) (a ∷ (b ∷ bs)) e =
      ap (λ l. (a ++ b) ++ l) (joined-merge_pairs half bs (omega arith))
      ∙ append_assoc a b (joined bs)

  pub length-merge_pairs :
      (half : ℕ) (bs : List (List A)) → length bs ≡ half + half → length (merge_pairs bs) ≡ half
  unfolding merge_pairs
  length-merge_pairs zero [] e = refl
  length-merge_pairs (suc half) [] e = absurd (omega arith)
  length-merge_pairs half (a ∷ []) e = absurd (omega arith)
  length-merge_pairs zero (a ∷ (b ∷ bs)) e = absurd (omega arith)
  length-merge_pairs (suc half) (a ∷ (b ∷ bs)) e =
      omega (arith, length-merge_pairs half bs (omega arith))

  pub length-make_items : (a : A) (n : ℕ) → length (make_items a n) ≡ n
  unfolding make_items
  length-make_items a zero = refl
  length-make_items a (suc n) = omega (arith, length-make_items a n)

  pub length-joined : (n : ℕ) (bs : List (List A)) → AllOf n bs → length (joined bs) ≡ n * length bs
  unfolding joined
  length-joined n [] h = omega arith
  length-joined n (b ∷ bs) (here, h) =
      omega
        (arith, length-append {0} b (joined bs), here, length-joined n bs h, mul-suc n (length bs))

  pub joined-append : (bs cs : List (List A)) → joined (bs ++ cs) ≡ joined bs ++ joined cs
  unfolding joined
  joined-append [] cs = refl
  joined-append (b ∷ bs) cs =
      ap (λ l. b ++ l) (joined-append bs cs) ∙ sym (append_assoc b (joined bs) (joined cs))

  -- the next block is made
  pub set_item_next :
      (full : List (List A)) (n : ℕ) (v : List A) (i : ℕ)
      → i ≡ length full
      → set_item (full ++ make_items [] (suc n)) i v ≡ (full ++ (v ∷ [])) ++ make_items [] n
  unfolding set_item make_items
  set_item_next [] n v zero e = refl
  set_item_next [] n v (suc i) e = absurd (omega arith)
  set_item_next (b ∷ full) n v zero e = absurd (omega arith)
  set_item_next (b ∷ full) n v (suc i) e = ap (λ l. b ∷ l) (set_item_next full n v i (omega arith))

  pub AllOf-merge_pairs : (n : ℕ) (bs : List (List A)) → AllOf n bs → AllOf (n + n) (merge_pairs bs)
  unfolding merge_pairs
  AllOf-merge_pairs n [] h = tt
  AllOf-merge_pairs n (a ∷ []) h = tt
  AllOf-merge_pairs n (a ∷ (b ∷ bs)) (ha, (hb, h)) =
      (omega (arith, length-append {0} a b, ha, hb), AllOf-merge_pairs n bs h)

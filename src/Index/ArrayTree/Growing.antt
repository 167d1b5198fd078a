-- ===== src/Index/ArrayTree/Growing.antt =====
-- The array tree keeps its items when it grows.
use vlbe.Base.{
  ℕ, zero, suc, ◌+◌, ◌-◌, ◌*◌, ◌/◌, ◌%◌, ◌^◌, ◌≤◌, ◌<◌, ◌≡◌, ◌≢◌, inl, inr, refl, sym, ap, subst,
  ◌∙◌, false, Bool-cases, List, [], ◌∷◌, ◌++◌, length, length-append, leb, ltb, arith, All-append,
}
use native.Mathlib.Nat.{mul-suc, div-add-mod, pow-suc, mul-mod_right, mul-le-mul_left}
use vlbe.Index.ArrayTree.{
  ArrayTree, make_items, item, set_item, row, column, merge_pairs, double_blocks, ref_at,
}
use vlbe.Index.ArrayTree.Array.{
  joined, AllOf, in_blocks, in_blocks-joined, joined-merge_pairs, AllOf-merge_pairs,
  length-merge_pairs, length-joined, joined-append, set_item_next, length-make_items,
}

-- Two products by one factor that are closer than the factor are equal.
same_count : (b q k : ℕ) → 1 ≤ b → b * q ≤ b * k → b * k < b * q + b → q ≡ k
same_count b zero zero pos below above = refl
same_count b zero (suc k) pos below above = absurd (omega (arith, mul-suc b k))
same_count b (suc q) zero pos below above = absurd (omega (arith, mul-suc b q))
same_count b (suc q) (suc k) pos below above = ap suc (
    same_count b q k pos (omega (arith, mul-suc b k, mul-suc b q))
      (omega (arith, mul-suc b k, mul-suc b q)))

-- the blocks that are made, and the items in them
pub record IsTree {A : Type 0} (t : ArrayTree A) (xs : List A) : Type 0 where
  pub full : List (List A)
  pub spare : ℕ
  pub half : ℕ
  pub blocks : t.block_list ≡ full ++ make_items [] spare
  pub same : AllOf t.block_size full
  pub counted : length full + spare ≡ t.block_size
  pub doubled : t.block_size ≡ half + half
  pub positive : 1 ≤ half
  pub shifted : 2 ^ t.mask_shift ≡ t.block_size
  pub masked : t.mask + 1 ≡ t.block_size
  pub items : joined full ≡ xs
  pub enough : t.size ≤ length xs
  pub tight : length xs < t.size + t.block_size

-- a tree whose blocks are half of those that it can have
pub record IsDoubled {A : Type 0} (t : ArrayTree A) (xs : List A) (half : ℕ) : Type 0 where
  pub tree : IsTree t xs
  pub rows : length tree.full ≡ half
  pub room : 1 ≤ tree.spare

no_blocks : {A : Type 0} (bs : List (List A)) → bs ++ make_items [] 0 ≡ bs
unfolding make_items
no_blocks [] = refl
no_blocks (b ∷ bs) = ap (λ l. b ∷ l) (no_blocks bs)

power : (n : ℕ) → 2 ^ (n + 1) ≡ 2 ^ n * 2
power n = let next : n + 1 ≡ suc n = omega arith in ap (λ k. 2 ^ k) next ∙ pow-suc 2 n

module _ {A : Type 0} where
  pub row_is :
      (t : ArrayTree A) (xs : List A) (pos : ℕ) → IsTree t xs → row t pos ≡ pos / t.block_size
  unfolding row
  row_is t xs pos h = ap (λ n. pos / n) h.shifted

  pub column_is :
      (t : ArrayTree A) (xs : List A) (pos : ℕ) → IsTree t xs → column t pos ≡ pos % t.block_size
  unfolding column
  column_is t xs pos h = ap (λ n. pos % n) h.masked

  ref_at_inside :
      (t : ArrayTree A) (pos : ℕ)
      → pos < t.size
      → ref_at t pos ≡ in_blocks t.block_list (row t pos) (column t pos)
  unfolding ref_at in_blocks
  ref_at_inside t pos below = let inside : leb t.size pos ≡ false = ground arith in rw inside refl

  pub ref_at-item :
      (t : ArrayTree A) (xs : List A) (pos : ℕ)
      → IsTree t xs
      → pos < t.size
      → ref_at t pos ≡ item xs pos
  ref_at-item t xs pos h below =
      ref_at_inside t pos below
      ∙ rw (row_is t xs pos h, column_is t xs pos h, h.blocks)
          (in_blocks-joined t.block_size h.full (make_items [] h.spare) pos
              (omega (arith, h.doubled, h.positive)) h.same
              (omega (arith, ap length h.items, h.enough))
            ∙ ap (λ l. item l pos) h.items)

  append_nil : (xs : List A) → xs ++ [] ≡ xs
  append_nil [] = refl
  append_nil (x ∷ xs) = ap (λ l. x ∷ l) (append_nil xs)

  -- the doubling: every block is full
  pub double_blocks-IsDoubled :
      (t : ArrayTree A) (xs : List A)
      → (h : IsTree t xs) → length h.full ≡ t.block_size
      → t.size ≡ length xs
      → IsDoubled (double_blocks t) xs h.half
  unfolding double_blocks
  double_blocks-IsDoubled t xs h all whole =
      let none_left : h.spare ≡ 0 = omega (arith, h.counted) in
      let blocks : t.block_list ≡ h.full =
        h.blocks ∙ ap (λ n. h.full ++ make_items [] n) none_left ∙ no_blocks h.full in
      let count = length-merge_pairs h.half h.full (omega (arith, h.doubled)) in
      record {
        tree = record {
          full = merge_pairs h.full;
          spare = t.block_size * 2 - length (merge_pairs h.full);
          half = t.block_size;
          blocks = rw blocks refl;
          same =
              subst (λ n. AllOf n (merge_pairs h.full)) (omega arith)
                (AllOf-merge_pairs t.block_size h.full h.same);
          counted = omega (arith, count, h.doubled);
          doubled = omega arith;
          positive = omega (arith, h.doubled, h.positive);
          shifted = power t.mask_shift ∙ ap (λ n. n * 2) h.shifted;
          masked = omega (arith, h.masked);
          items = joined-merge_pairs h.half h.full (omega (arith, h.doubled)) ∙ h.items;
          enough = h.enough;
          tight = omega (arith, h.tight);
        };
        rows = count;
        room = omega (arith, count, h.doubled, h.positive);
      }

  -- the next item begins a block
  abbrev pub begun : A → ℕ → ArrayTree A → ArrayTree A
  begun blank idx t = record t {
    size = t.size + 1;
    block_list = set_item t.block_list idx (make_items blank t.block_size);
  }

  pub begun-IsTree :
      (blank : A) (t : ArrayTree A) (xs : List A) (idx : ℕ)
      → (h : IsTree t xs) → idx ≡ length h.full
      → t.size ≡ length xs
      → 1 ≤ h.spare
      → IsTree (begun blank idx t) (xs ++ make_items blank t.block_size)
  unfolding joined
  begun-IsTree blank t xs idx h at whole room =
      let one_less : h.spare ≡ suc (h.spare - 1) = omega arith in
      let block = make_items blank t.block_size in
      let block_length = length-make_items blank t.block_size in
      let sum = length-append {0} xs block in
      record {
        full = h.full ++ (block ∷ []);
        spare = h.spare - 1;
        half = h.half;
        blocks =
            ap (λ l. set_item l idx block) (h.blocks ∙ ap (λ n. h.full ++ make_items [] n) one_less)
            ∙ set_item_next h.full (h.spare - 1) block idx at;
        same =
            All-append (λ b. length b ≡ t.block_size) h.full (block ∷ []) h.same (block_length, tt);
        counted = omega (arith, h.counted, length-append {0} h.full (block ∷ []));
        doubled = h.doubled;
        positive = h.positive;
        shifted = h.shifted;
        masked = h.masked;
        items = joined-append h.full (block ∷ []) ∙ rw (h.items, append_nil block) refl;
        enough = omega (arith, sum, block_length, h.doubled, h.positive);
        tight = omega (arith, sum, block_length);
      }

  -- the next item has its place in a block that is there
  pub inside-IsTree :
      (t : ArrayTree A) (xs : List A)
      → (h : IsTree t xs) → t.size < length xs
      → IsTree (record t { size = t.size + 1 }) xs
  inside-IsTree t xs h room = record {
    full = h.full;
    spare = h.spare;
    half = h.half;
    blocks = h.blocks;
    same = h.same;
    counted = h.counted;
    doubled = h.doubled;
    positive = h.positive;
    shifted = h.shifted;
    masked = h.masked;
    items = h.items;
    enough = omega arith;
    tight = omega (arith, h.tight);
  }

  module _ (t : ArrayTree A) (xs : List A) (h : IsTree t xs) where
    all_items : length xs ≡ t.block_size * length h.full
    all_items = ap length (sym h.items) ∙ length-joined t.block_size h.full h.same

    -- The size is a multiple of the block size exactly where the blocks are full.
    pub at_boundary :
        t.size % t.block_size ≡ 0 → (t.size ≡ length xs) × (t.size / t.block_size ≡ length h.full)
    at_boundary whole =
        let parts = div-add-mod t.size t.block_size in
        let rows : t.size / t.block_size ≡ length h.full =
          same_count t.block_size (t.size / t.block_size) (length h.full)
            (omega (arith, h.doubled, h.positive))
            (omega (arith, parts, whole, all_items, h.enough))
            (omega (arith, parts, whole, all_items, h.tight)) in
        (omega (arith, parts, whole, ap (λ k. t.block_size * k) rows, all_items), rows)

    pub block_count : length t.block_list ≡ t.block_size
    block_count = omega (
      arith,
      ap length h.blocks,
      length-append {0} h.full (make_items [] h.spare),
      length-make_items {A = List A} [] h.spare,
      h.counted,
    )

    pub within :
        t.size % t.block_size ≢ 0
        → (t.size < length xs) × (t.size / t.block_size ≢ length t.block_list)
    within inner =
        let room : t.size < length xs = elim (Bool-cases (ltb t.size (length xs))) [
          | inl below ↦ ground arith
          | inr above ↦
              let whole : length xs ≤ t.size = ground arith in
              let same : t.size ≡ t.block_size * length h.full =
                omega (arith, h.enough, all_items) in
              absurd (
                inner
                  (ap (λ n. n % t.block_size) same ∙ mul-mod_right t.block_size (length h.full)))
        ] in
        let most : t.block_size * length h.full ≤ t.block_size * t.block_size =
          mul-le-mul_left t.block_size (omega (arith, h.counted)) in
        (
          room,
          λ over.
              let rows : t.block_size * (t.size / t.block_size) ≡ t.block_size * t.block_size =
                ap (λ k. t.block_size * k) (over ∙ block_count) in
              omega (arith, div-add-mod t.size t.block_size, rows, most, all_items, room),
        )

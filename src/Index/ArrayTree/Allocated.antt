-- ===== src/Index/ArrayTree/Allocated.antt =====
-- Every item that the array tree allocates has the next position, and the items before it stay where they are.
use vlbe.Base.{
  ℕ, zero, suc, ◌+◌, ◌/◌, ◌≤◌, ◌<◌, ◌≡◌, ◌≢◌, inl, inr, refl, sym, ap, subst, ◌∙◌, true, false,
  Bool-cases, ==_iff, List, [], ◌∷◌, ◌++◌, none, length, ◌==◌, arith,
}
use vlbe.Index.ArrayTree.{
  ArrayTree, make_items, item, new_tree, row, column, double_blocks, start_block, grow_blocks,
  alloc, ref_at,
}
use vlbe.Index.ArrayTree.Array.{joined, item-append_left}
use vlbe.Index.ArrayTree.Growing.{
  IsTree, begun, row_is, column_is, ref_at-item, double_blocks-IsDoubled, begun-IsTree,
  inside-IsTree, at_boundary, block_count, within,
}

-- the tree afterwards, with the items that a new block adds
pub record IsGrown {A : Type 0} (t : ArrayTree A) (xs : List A) : Type 0 where
  pub more : List A
  pub tree : IsTree t (xs ++ more)

is_other : (a b : ℕ) → (a == b) ≡ false → a ≢ b
is_other a b e = ground arith

tests_other : (a b : ℕ) → a ≢ b → (a == b) ≡ false
tests_other a b e = ground arith

module _ {A : Type 0} where
  alloc_inside :
      (blank : A) (t : ArrayTree A)
      → (row t t.size == length t.block_list) ≡ false
      → (column t t.size == 0) ≡ false
      → (alloc blank t).0 ≡ record t { size = t.size + 1 }
  unfolding alloc grow_blocks start_block
  alloc_inside blank t few inner = rw (few, inner) refl

  alloc-begun :
      (blank : A) (t : ArrayTree A)
      → (row t t.size == length t.block_list) ≡ false
      → (column t t.size == 0) ≡ true
      → (alloc blank t).0 ≡ begun blank (row t t.size) t
  unfolding alloc grow_blocks start_block
  alloc-begun blank t few first = rw (few, first) refl

  alloc-double_blocks :
      (blank : A) (t : ArrayTree A)
      → (row t t.size == length t.block_list) ≡ true
      → (column t t.size == 0) ≡ true
      → (alloc blank t).0 ≡ begun blank (row t t.size / 2) (double_blocks t)
  unfolding alloc grow_blocks start_block
  alloc-double_blocks blank t many first = rw (many, first) refl

  append_nil : (xs : List A) → xs ≡ xs ++ []
  append_nil [] = refl
  append_nil (x ∷ xs) = ap (λ l. x ∷ l) (append_nil xs)

  inside-IsGrown :
      (blank : A) (t : ArrayTree A) (xs : List A)
      → (h : IsTree t xs) → (column t t.size == 0) ≡ false
      → IsGrown ((alloc blank t).0) xs
  inside-IsGrown blank t xs h inner =
      let place =
        within t xs h (λ e. is_other (column t t.size) 0 inner (column_is t xs t.size h ∙ e)) in
      let few =
        tests_other (row t t.size) (length t.block_list)
          (λ e. place.1 (sym (row_is t xs t.size h) ∙ e)) in
      record {
        more = [];
        tree =
            subst (λ u. IsTree u (xs ++ [])) (sym (alloc_inside blank t few inner))
              (subst (IsTree (record t { size = t.size + 1 })) (append_nil xs)
                (inside-IsTree t xs h place.0));
      }

  -- where the next item begins a block
  module _ (blank : A) (t : ArrayTree A) (xs : List A) (h : IsTree t xs)
      (first : (column t t.size == 0) ≡ true) where
    boundary : (t.size ≡ length xs) × (t.size / t.block_size ≡ length h.full)
    boundary =
        at_boundary t xs h (sym (column_is t xs t.size h) ∙ (==_iff (column t t.size) 0).0 first)

    begins : row t t.size ≡ length h.full
    begins = row_is t xs t.size h ∙ boundary.1

    begun-IsGrown : (row t t.size == length t.block_list) ≡ false → IsGrown ((alloc blank t).0) xs
    begun-IsGrown few =
        let other = is_other (row t t.size) (length t.block_list) few in
        let room : 1 ≤ h.spare =
          elim h.spare as (λ n. n ≡ h.spare → 1 ≤ h.spare) [
            | zero ↦ λ none_left.
                absurd (other (omega (arith, begins, block_count t xs h, h.counted, none_left)))
            | suc n ↦ λ some_left. omega (arith, some_left)
          ]
            refl in
        record {
          more = make_items blank t.block_size;
          tree =
              subst (λ u. IsTree u (xs ++ make_items blank t.block_size))
                (sym (alloc-begun blank t few first))
                (begun-IsTree blank t xs (row t t.size) h begins boundary.0 room);
        }

    double_blocks-IsGrown :
        (row t t.size == length t.block_list) ≡ true → IsGrown ((alloc blank t).0) xs
    unfolding double_blocks
    double_blocks-IsGrown many =
        let all : length h.full ≡ t.block_size =
          sym begins ∙ (==_iff (row t t.size) (length t.block_list)).0 many ∙ block_count t xs h in
        let doubled = double_blocks-IsDoubled t xs h all boundary.0 in
        let halved : row t t.size / 2 ≡ h.half = omega (arith, begins, all, h.doubled) in
        record {
          more = make_items blank ((double_blocks t).block_size);
          tree =
              subst (λ u. IsTree u (xs ++ make_items blank ((double_blocks t).block_size)))
                (sym (alloc-double_blocks blank t many first))
                (begun-IsTree blank (double_blocks t) xs (row t t.size / 2) doubled.tree
                  (halved ∙ sym doubled.rows) boundary.0 doubled.room);
        }

  -- allocating an item
  alloc-IsTree :
      (blank : A) (t : ArrayTree A) (xs : List A)
      → (h : IsTree t xs) → IsGrown ((alloc blank t).0) xs
  alloc-IsTree blank t xs h = elim (Bool-cases (column t t.size == 0)) [
    | inr inner ↦ inside-IsGrown blank t xs h inner
    | inl first ↦ elim (Bool-cases (row t t.size == length t.block_list)) [
      | inl many ↦ double_blocks-IsGrown blank t xs h first many
      | inr few ↦ begun-IsGrown blank t xs h first few
    ]
  ]

  item_there : (xs : List A) (pos : ℕ) → pos < length xs → item xs pos ≢ none
  unfolding item
  item_there [] pos below e = omega (arith, below)
  item_there (x ∷ xs) zero below e = ground arith
  item_there (x ∷ xs) (suc pos) below e = item_there xs pos (omega arith) e

  size-start_block :
      (blank : A) (idx sub_idx : ℕ) (t : ArrayTree A)
      → (start_block blank idx sub_idx t).size ≡ t.size
  unfolding start_block
  size-start_block blank idx sub_idx t = elim (Bool-cases (sub_idx == 0)) [
    | inl first ↦ rw first refl
    | inr later ↦ rw later refl
  ]

  size-alloc : (blank : A) (t : ArrayTree A) → ((alloc blank t).0).size ≡ t.size + 1
  unfolding alloc grow_blocks double_blocks
  size-alloc blank t = elim (Bool-cases (row t t.size == length t.block_list)) [
    | inl many ↦ rw many (
        ap (λ n. n + 1)
          (size-start_block blank (row t t.size / 2) (column t t.size) (double_blocks t)))
    | inr few ↦ rw few (ap (λ n. n + 1) (size-start_block blank (row t t.size) (column t t.size) t))
  ]

  -- In a well-formed array tree, Alloc returns the size as the position of the new item, keeps the tree
  -- well-formed with one item more, and leaves every item before it where it is, also where the blocks are
  -- doubled. Afterwards no item up to the new one is out of range.
  pub alloc-ref_at :
      (blank : A) (t : ArrayTree A) (xs : List A)
      → IsTree t xs
      → ((alloc blank t).1 ≡ t.size)
        × (((alloc blank t).0).size ≡ t.size + 1)
        × IsGrown ((alloc blank t).0) xs
        × ((pos : ℕ) → pos < t.size → ref_at ((alloc blank t).0) pos ≡ ref_at t pos)
        × ((pos : ℕ) → pos < t.size + 1 → ref_at ((alloc blank t).0) pos ≢ none)
  unfolding alloc
  alloc-ref_at blank t xs h =
      let grown = alloc-IsTree blank t xs h in
      let bigger = size-alloc blank t in
      (
        refl,
        bigger,
        grown,
        λ pos below.
            ref_at-item ((alloc blank t).0) (xs ++ grown.more) pos grown.tree
              (omega (arith, bigger))
            ∙ item-append_left xs grown.more pos (omega (arith, h.enough))
            ∙ sym (ref_at-item t xs pos h below),
        λ pos below e.
            item_there (xs ++ grown.more) pos (omega (arith, bigger, grown.tree.enough)) (
              sym (
                ref_at-item ((alloc blank t).0) (xs ++ grown.more) pos grown.tree
                  (omega (arith, bigger)))
              ∙ e),
      )

-- the tree that newHAT returns
new_tree-IsTree : {A : Type 0} → IsTree (new_tree {A = A}) []
unfolding new_tree joined
new_tree-IsTree = record {
  full = [];
  spare = 4;
  half = 2;
  blocks = refl;
  same = tt;
  counted = refl;
  doubled = refl;
  positive = omega arith;
  shifted = refl;
  masked = refl;
  items = refl;
  enough = omega arith;
  tight = omega arith;
}

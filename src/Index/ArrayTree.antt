-- ===== src/Index/ArrayTree.antt =====
-- internal/repository/index/indexmap.go: the hashed array tree, which keeps the entries of the hash table in
-- blocks. As long as a block is not made it is empty, Go's nil. The zero value of an entry is `blank`. Where
-- the code would panic in `grow`, on a row beyond the blocks or on an odd number of them, the blocks stay
-- as they are or lose the last one; the block size is even and the row in range in every tree that
-- `newHAT` and `Alloc` make.
pub mod Array
pub mod Growing
pub mod Allocated
use vlbe.Base.{
  ℕ, zero, suc, ◌+◌, ◌-◌, ◌*◌, ◌/◌, ◌%◌, ◌^◌, List, [], ◌∷◌, ◌++◌, Option, none, some, length, leb,
  ◌==◌, if◌then◌else◌,
}

-- `hashedArrayTree`
pub record ArrayTree (A : Type 0) : Type 0 where
  pub mask : ℕ
  pub mask_shift : ℕ
  pub block_size : ℕ
  pub size : ℕ
  pub block_list : List (List A)

-- `make` of so many items
unfoldable pub make_items : {A : Type 0} → A → ℕ → List A
make_items a zero = []
make_items a (suc n) = a ∷ make_items a n

-- `s[i]`, and none out of range
unfoldable pub item : {A : Type 0} → List A → ℕ → Option A
item [] i = none
item (x ∷ xs) zero = some x
item (x ∷ xs) (suc i) = item xs i

-- `s[i] = v`
unfoldable pub set_item : {A : Type 0} → List A → ℕ → A → List A
set_item [] i v = []
set_item (x ∷ xs) zero v = v ∷ xs
set_item (x ∷ xs) (suc i) v = x ∷ set_item xs i v

-- `newHAT`
unfoldable pub new_tree : {A : Type 0} → ArrayTree A
new_tree = record {
  mask = 3;
  mask_shift = 2;
  block_size = 4;
  size = 0;
  block_list = make_items [] 4;
}

-- `index`: `>>` is a division by a power of two, and `&` with one less than it the remainder
unfoldable pub row : {A : Type 0} → ArrayTree A → ℕ → ℕ
row t pos = pos / 2 ^ t.mask_shift

unfoldable pub column : {A : Type 0} → ArrayTree A → ℕ → ℕ
column t pos = pos % (t.mask + 1)

-- the loop that merges the blocks in pairs
unfoldable pub merge_pairs : {A : Type 0} → List (List A) → List (List A)
merge_pairs (a ∷ b ∷ rest) = (a ++ b) ∷ merge_pairs rest
merge_pairs _ = []

-- the doubling in `grow`
unfoldable pub double_blocks : {A : Type 0} → ArrayTree A → ArrayTree A
double_blocks t =
    let pairs = merge_pairs t.block_list in
    record t {
      block_size = t.block_size * 2;
      mask = t.mask * 2 + 1;
      mask_shift = t.mask_shift + 1;
      block_list = pairs ++ make_items [] (t.block_size * 2 - length pairs);
    }

module _ {A : Type 0} (blank : A) where
  -- a new block, where a new one begins
  unfoldable pub start_block : ℕ → ℕ → ArrayTree A → ArrayTree A
  start_block idx sub_idx t =
      if sub_idx == 0
      then record t { block_list = set_item t.block_list idx (make_items blank t.block_size) }
      else t

  -- `grow`
  unfoldable pub grow_blocks : ArrayTree A → ArrayTree A
  grow_blocks t =
      let idx = row t t.size in
      let sub_idx = column t t.size in
      if idx == length t.block_list
      then start_block (idx / 2) sub_idx (double_blocks t)
      else start_block idx sub_idx t

  -- `Alloc`, with the position that it returns
  unfoldable pub alloc : ArrayTree A → ArrayTree A × ℕ
  alloc t = let after = grow_blocks t in (record after { size = after.size + 1 }, t.size)

-- `Ref`, which panics out of range
unfoldable pub ref_at : {A : Type 0} → ArrayTree A → ℕ → Option A
ref_at t pos = if leb t.size pos then none else elim (item t.block_list (row t pos)) [
  | none ↦ none
  | some block ↦ item block (column t pos)
]

-- ===== src/Index/Associated.antt =====
-- internal/repository/index/associated_data.go: a set of blob handles with a value for each, kept in
-- arrays at the offsets that the index gives to handles. `MasterIndex.blobIndex` is the parameter
-- `blob_index`, which answers `none` for the source's -1. The arrays `value` and `isSet` have one
-- length and are one list of cells. No handle has the type `num_blob_types`.
pub mod Laws
use vlbe.Base.{
  ℕ, zero, suc, Bool, true, false, List, [], ◌∷◌, Option, none, some, length, leb, if◌then◌else◌,
  Map, lookup, insert, delete,
}
use vlbe.Restic.Blob.{BlobHandle, BlobType, same_type, handle_key}

-- `value[i]` and `isSet[i]`
pub record Cell (V : Type 0) : Type 0 where
  pub value : V
  pub is_set : Bool

-- `AssociatedSet`
pub record AssociatedSet (V : Type 0) : Type 0 where
  pub by_type : BlobType → List (Cell V)
  pub overflow : Map BlobHandle V

-- `make([]T, count)` and `make([]bool, count)`
unfoldable pub blank_cells : {V : Type 0} → V → ℕ → List (Cell V)
blank_cells zero_value zero = []
blank_cells zero_value (suc n) =
    record { value = zero_value; is_set = false } ∷ blank_cells zero_value n

-- the cell at an offset, if it is set
unfoldable pub read_cell : {V : Type 0} → List (Cell V) → ℕ → Option V
read_cell [] n = none
read_cell (c ∷ cells) zero = if c.is_set then some c.value else none
read_cell (c ∷ cells) (suc n) = read_cell cells n

unfoldable pub write_cell : {V : Type 0} → List (Cell V) → ℕ → V → List (Cell V)
write_cell [] n v = []
write_cell (c ∷ cells) zero v = record { value = v; is_set = true } ∷ cells
write_cell (c ∷ cells) (suc n) v = c ∷ write_cell cells n v

unfoldable pub clear_cell : {V : Type 0} → List (Cell V) → ℕ → List (Cell V)
clear_cell [] n = []
clear_cell (c ∷ cells) zero = record { value = c.value; is_set = false } ∷ cells
clear_cell (c ∷ cells) (suc n) = c ∷ clear_cell cells n

module _ {V : Type 0} (blob_index : BlobHandle → Option ℕ) where
  -- `NewAssociatedSet`, by the number of handles of each type that the index has
  unfoldable pub new_associated_set : V → (BlobType → ℕ) → AssociatedSet V
  new_associated_set zero_value stable_len = record {
    by_type = λ t.
        if same_type t BlobType.invalid_blob
        then []
        else blank_cells zero_value (suc (stable_len t));
    overflow = [];
  }

  -- what the arrays hold for a handle
  unfoldable pub in_cells : AssociatedSet V → BlobHandle → Option V
  in_cells a h = elim (blob_index h) [
    | none ↦ none
    | some idx ↦
        if leb (length (a.by_type h.tpe)) idx then none else read_cell (a.by_type h.tpe) idx
  ]

  -- `Get`
  unfoldable pub get : AssociatedSet V → BlobHandle → Option V
  get a h = elim (lookup h a.overflow) [ some val ↦ some val | none ↦ in_cells a h ]

  -- the arrays with those of one type replaced
  unfoldable pub with_cells : AssociatedSet V → BlobType → List (Cell V) → AssociatedSet V
  with_cells a t cells = record {
    by_type = λ s. if same_type t s then cells else a.by_type s;
    overflow = a.overflow;
  }

  -- `Set`
  unfoldable pub set_value : AssociatedSet V → BlobHandle → V → AssociatedSet V
  set_value a h val =
      let put : AssociatedSet V = record {
        by_type = a.by_type;
        overflow = insert h val a.overflow;
      } in
      elim (lookup h a.overflow) [
        | some _ ↦ put
        | none ↦ elim (blob_index h) [
          | none ↦ put
          | some idx ↦
              if leb (length (a.by_type h.tpe)) idx
              then put
              else with_cells a h.tpe (write_cell (a.by_type h.tpe) idx val)
        ]
      ]

  -- `Delete`
  unfoldable pub delete_handle : AssociatedSet V → BlobHandle → AssociatedSet V
  delete_handle a h = elim (lookup h a.overflow) [
    | some _ ↦ record { by_type = a.by_type; overflow = delete h a.overflow }
    | none ↦ elim (blob_index h) [
      | none ↦ a
      | some idx ↦
          if leb (length (a.by_type h.tpe)) idx
          then a
          else with_cells a h.tpe (clear_cell (a.by_type h.tpe) idx)
    ]
  ]

-- ===== src/Tests/Associated.antt =====
-- An associated set over an index of three blobs of each type.
use vlbe.Base.{insert, ℕ, ◌≡◌, refl, inr, Option, none, some, ltb, if◌then◌else◌, arith, lookup}
use vlbe.Restic.Blob.{BlobHandle, data_blob, same_handle, same_type, type_code, handle_key}
use vlbe.Index.Associated.{
  AssociatedSet, new_associated_set, blank_cells, get, set_value, delete_handle, in_cells,
  read_cell, write_cell, clear_cell, with_cells,
}
use vlbe.Index.Associated.Laws.{
  IsInjective, IsSingle, get-set_value, get-delete_handle, updates-IsSingle,
}

abbrev small_index : BlobHandle → Option ℕ
small_index h = if ltb h.id 3 then some h.id else none

small_index-IsInjective : IsInjective small_index
small_index-IsInjective g h i at there same = ground arith

abbrev handle : ℕ → BlobHandle
handle id = record { id = id; tpe = data_blob }

abbrev fresh_set : AssociatedSet ℕ
fresh_set = new_associated_set small_index 0 (λ t. 2)

-- handle 1 has a cell, handle 9 goes to the overflow
abbrev two_values : AssociatedSet ℕ
two_values = set_value small_index (set_value small_index fresh_set (handle 1) 7) (handle 9) 8

two_values_read :
    (get small_index two_values (handle 1) ≡ some 7)
    × (get small_index two_values (handle 9) ≡ some 8)
    × (get small_index (delete_handle small_index two_values (handle 1)) (handle 1) ≡ none)
unfolding get set_value delete_handle in_cells read_cell write_cell clear_cell with_cells
    new_associated_set blank_cells same_type type_code same_handle lookup insert
two_values_read = (refl, refl, refl)

get-set_value_example :
    get small_index (set_value small_index two_values (handle 2) 5) (handle 2) ≡ some 5
unfolding same_handle same_type type_code
get-set_value_example =
    get-set_value small_index small_index-IsInjective two_values (handle 2) (handle 2) 5

overflow_only : IsSingle small_index small_index-IsInjective two_values (handle 9)
unfolding in_cells
overflow_only = inr refl

get-delete_handle_example :
    get small_index (delete_handle small_index two_values (handle 9)) (handle 9) ≡ none
unfolding same_handle same_type type_code
get-delete_handle_example =
    get-delete_handle small_index small_index-IsInjective two_values (handle 9) (handle 9)
      overflow_only

updates-IsSingle_example :
    IsSingle small_index small_index-IsInjective
      (set_value small_index two_values (handle 2) 5)
      (handle 9)
    × IsSingle small_index small_index-IsInjective
        (delete_handle small_index two_values (handle 2))
        (handle 9)
updates-IsSingle_example =
    updates-IsSingle small_index small_index-IsInjective two_values (handle 9) (handle 2) 5
      overflow_only

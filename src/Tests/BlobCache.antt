-- ===== src/Tests/BlobCache.antt =====
-- The blob cache over a list.
use vlbe.Base.{
  ℕ, ◌≤◌, ◌<◌, length, ◌≡◌, refl, Bool, true, false, ◌||◌, List, [], ◌∷◌, ◌++◌, Option, none, some,
  ◌==◌, arith,
}
use vlbe.Restic.Blob.{ContentId}
use vlbe.BlobCache.{
  Buffer, Entry, LruLib, Cache, add_blob, make_room, insert_entry, evict, weight, max_entries,
}
use vlbe.BlobCache.Bounds.{LruLaws, IsBalanced, total, add_blob-IsBalanced}
use vlbe.BlobCache.Entries.{IsFixedSize, IsLeast, add_blob-entries}

abbrev has_entry : ContentId → List Entry → Bool
has_entry id [] = false
has_entry id (e ∷ es) = (id == e.0) || has_entry id es

abbrev find_entry : ContentId → List Entry → Option Buffer
find_entry id [] = none
find_entry id (e ∷ es) = elim (id == e.0) [ true ↦ some e.1 | false ↦ find_entry id es ]

-- at most three entries, the limit of a cache of 300 bytes
abbrev bounded : List Entry → List Entry × List Entry
bounded (a ∷ b ∷ c ∷ d ∷ l) = (b ∷ c ∷ d ∷ l, a ∷ [])
bounded l = (l, [])

bounded_all : (l : List Entry) → (bounded l).1 ++ (bounded l).0 ≡ l
bounded_all [] = refl
bounded_all (a ∷ []) = refl
bounded_all (a ∷ b ∷ []) = refl
bounded_all (a ∷ b ∷ c ∷ []) = refl
bounded_all (a ∷ b ∷ c ∷ d ∷ l) = refl

bounded_below : (l : List Entry) (e : Entry) → length l < 3 → (bounded (l ++ e ∷ [])).1 ≡ []
bounded_below [] e h = refl
bounded_below (a ∷ []) e h = refl
bounded_below (a ∷ b ∷ []) e h = refl
bounded_below (a ∷ b ∷ c ∷ l) e h = absurd (omega arith)

-- the order of use is not kept, which the laws do not ask for
abbrev list_lib : LruLib (List Entry)
list_lib = record {
  entries = λ l. l;
  contains = has_entry;
  get = λ id l. (find_entry id l, l);
  remove_oldest = λ l. elim l [ [] ↦ none | e ∷ es ↦ some (e, es) ];
  add = λ id b l. bounded (l ++ (id, b) ∷ []);
}

oldest_none_list : (l : List Entry) → list_lib.remove_oldest l ≡ none → l ≡ []
oldest_none_list [] e = refl
oldest_none_list (x ∷ xs) e = absurd (cc)

oldest_some_list :
    (l rest : List Entry) (x : Entry) → list_lib.remove_oldest l ≡ some (x, rest) → l ≡ x ∷ rest
oldest_some_list [] rest x e = absurd (cc)
oldest_some_list (y ∷ ys) rest x e = ground arith

contains_rest_list :
    (id : ContentId) (l rest : List Entry) (x : Entry)
    → list_lib.remove_oldest l ≡ some (x, rest)
    → has_entry id l ≡ false
    → has_entry id rest ≡ false
contains_rest_list id [] rest x e h = absurd (cc)
contains_rest_list id (y ∷ ys) rest x e h = ground arith

list_laws : LruLaws list_lib
list_laws = record {
  oldest_none = oldest_none_list;
  oldest_some = oldest_some_list;
  add_entries = λ id b l absent. bounded_all (l ++ (id, b) ∷ []);
  contains_rest = contains_rest_list;
}

list_fixed : IsFixedSize list_lib (max_entries 300)
unfolding max_entries
list_fixed = record { add_below = λ id b l absent below. bounded_below l (id, b) below }

abbrev buffer : ℕ → Buffer
buffer capacity = record { bytes = []; capacity = capacity }

-- two entries of 100 and 104 bytes, and 96 bytes left
abbrev full_cache : Cache (List Entry)
full_cache = record { lru = (1, buffer 4) ∷ (2, buffer 8) ∷ []; free = 96; size = 300 }

adding_evicts :
    add_blob list_lib 3 (buffer 10) full_cache
    ≡ some (record { lru = (2, buffer 8) ∷ (3, buffer 10) ∷ []; free = 90; size = 300 }, buffer 4)
unfolding add_blob make_room insert_entry evict weight
adding_evicts = refl

add_blob-IsBalanced_example :
    (c' : Cache (List Entry)) × (old : Buffer) × (add_blob list_lib 3 (buffer 10) full_cache
      ≡ some (c', old))
    × IsBalanced list_lib c'
    × (c'.size ≡ 300)
    × (total c'.lru ≤ 300)
unfolding weight
add_blob-IsBalanced_example = add_blob-IsBalanced list_lib list_laws 3 (buffer 10) full_cache refl

add_blob-entries_example :
    (c' : Cache (List Entry)) × (old : Buffer) × (gone : List Entry) × (left : List Entry)
    × (add_blob list_lib 3 (buffer 10) full_cache ≡ some (c', old))
    × ((1, buffer 4) ∷ (2, buffer 8) ∷ [] ≡ gone ++ left)
    × (c'.lru ≡ left ++ (3, buffer 10) ∷ [])
    × IsLeast gone 96 106
unfolding weight
add_blob-entries_example =
    add_blob-entries list_lib list_laws 3 (buffer 10) full_cache list_fixed refl (omega arith) refl

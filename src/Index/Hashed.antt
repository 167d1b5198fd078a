-- ===== src/Index/Hashed.antt =====
-- internal/repository/index/indexmap.go: the chained hash table that maps identifiers to index entries.
-- `maphash`, with the seed of the map, is the parameter `sum64`. The hashed array tree is the list of
-- its entries, the newest first, so that the entry at a position has as many entries behind it; the
-- entry at 0, which serves as null and which nothing reads, is left out. An index entry is its data and
-- the link to the next entry. The number of buckets is a power of two: `&` with one less is `%`.
pub mod Chains
pub mod Content
pub mod Lookup
pub mod Positions
use vlbe.Base.{
  ℕ, zero, suc, ◌+◌, ◌-◌, ◌*◌, ◌%◌, Bool, true, false, List, [], ◌∷◌, ◌++◌, Option, none, some,
  length, ltb, leb, ◌==◌, if◌then◌else◌, map,
}
use vlbe.Restic.Blob.{ContentId}

-- `indexEntry`, without `next`
pub record IndexEntry : Type 0 where
  pub id : ContentId
  pub pack_index : ℕ
  pub offset : ℕ
  pub length : ℕ
  pub uncompressed_length : ℕ

pub record Linked : Type 0 where
  pub entry : IndexEntry
  pub next : ℕ

-- `indexMap`
pub record IndexMap : Type 0 where
  pub buckets : List ℕ
  pub numentries : ℕ
  pub seed : ℕ
  pub block_list : List Linked

-- the zero value, and the constants
abbrev pub new_index_map : ℕ → IndexMap
new_index_map seed = record { buckets = []; numentries = 0; seed = seed; block_list = [] }

abbrev pub initial_buckets : ℕ
initial_buckets = 64

abbrev pub max_load : ℕ
max_load = 4

abbrev pub growth_factor : ℕ
growth_factor = 2

-- `make([]uint, n)`
unfoldable pub zeros : ℕ → List ℕ
zeros zero = []
zeros (suc n) = 0 ∷ zeros n

-- `m.buckets[h]`, for an `h` below the length
unfoldable pub bucket_at : List ℕ → ℕ → ℕ
bucket_at [] h = 0
bucket_at (b ∷ bs) zero = b
bucket_at (b ∷ bs) (suc h) = bucket_at bs h

unfoldable pub set_bucket : List ℕ → ℕ → ℕ → List ℕ
set_bucket [] h v = []
set_bucket (b ∷ bs) zero v = v ∷ bs
set_bucket (b ∷ bs) (suc h) v = b ∷ set_bucket bs h v

-- `resolve`, which panics out of bounds
unfoldable pub resolve : List Linked → ℕ → Option Linked
resolve [] i = none
resolve (e ∷ es) i = if i == suc (length es) then some e else resolve es i

-- the entries that the loops over a chain visit, from position `ei` on
unfoldable pub chain : ℕ → List Linked → ℕ → List (ℕ × IndexEntry)
chain zero es ei = []
chain (suc fuel) es ei =
    if ei == 0
    then []
    else elim (resolve es ei) [ none ↦ [] | some e ↦ (ei, e.entry) ∷ chain fuel es e.next ]

-- the bodies of the loops of `foreachWithID`, `get` and `firstIndex`
unfoldable pub with_id : ContentId → List (ℕ × IndexEntry) → List IndexEntry
with_id id [] = []
with_id id ((ei, e) ∷ es) = let rest = with_id id es in if e.id == id then e ∷ rest else rest

unfoldable pub first_with_id : ContentId → List (ℕ × IndexEntry) → Option IndexEntry
first_with_id id [] = none
first_with_id id ((ei, e) ∷ es) =
    let rest = first_with_id id es in if e.id == id then some e else rest

-- `int(cur) < idx || idx == -1`
unfoldable pub smaller : Option ℕ → ℕ → Option ℕ
smaller none cur = some cur
smaller (some i) cur = if ltb cur i then some cur else some i

-- `idx`, which is -1 before an entry is found, is `none`.
unfoldable pub least_with_id : ContentId → Option ℕ → List (ℕ × IndexEntry) → Option ℕ
least_with_id id idx [] = idx
least_with_id id idx ((cur, e) ∷ es) =
    if e.id == id then least_with_id id (smaller idx cur) es else least_with_id id idx es

module _ (sum64 : ℕ → ContentId → ℕ) where
  -- `hash`, where there are `n` buckets
  unfoldable pub hash : ℕ → ℕ → ContentId → ℕ
  hash seed n id = sum64 seed id % n

  -- the loop of `grow`, into `n` new buckets
  unfoldable pub relink : ℕ → ℕ → List Linked → List ℕ × List Linked
  relink seed n [] = (zeros n, [])
  relink seed n (e ∷ es) =
      let (buckets, done) = relink seed n es in
      let h = hash seed n e.entry.id in
      (
        set_bucket buckets h (suc (length es)),
        record { entry = e.entry; next = bucket_at buckets h } ∷ done,
      )

  -- `grow`
  unfoldable pub grow : IndexMap → IndexMap
  grow m =
      let (buckets, block_list) = relink m.seed (growth_factor * length m.buckets) m.block_list in
      record m { buckets = buckets; block_list = block_list }

  -- `init`
  unfoldable pub init : IndexMap → IndexMap
  init m = record m { buckets = zeros initial_buckets; block_list = [] }

  -- the `switch` of `add`
  unfoldable pub make_room : IndexMap → IndexMap
  make_room m =
      if m.numentries == 0
      then init m
      else if leb (max_load * length m.buckets) m.numentries
      then grow m
      else m

  -- the rest of `add`
  unfoldable pub prepend : IndexEntry → IndexMap → IndexMap
  prepend e m =
      let h = hash m.seed (length m.buckets) e.id in
      record m {
        block_list = record { entry = e; next = bucket_at m.buckets h } ∷ m.block_list;
        buckets = set_bucket m.buckets h (suc (length m.block_list));
        numentries = m.numentries + 1;
      }

  -- `add`
  unfoldable pub add : IndexEntry → IndexMap → IndexMap
  add e m = prepend e (make_room m)

  -- the chain of an identifier; a map without buckets has none. No chain visits an entry twice.
  unfoldable pub chain_of : IndexMap → ContentId → List (ℕ × IndexEntry)
  chain_of m id =
      if length m.buckets == 0
      then []
      else chain (suc (length m.block_list)) m.block_list
          (bucket_at m.buckets (hash m.seed (length m.buckets) id))

  -- `foreachWithID`, as the list of the entries that it passes to `fn`
  unfoldable pub foreach_with_id : ContentId → IndexMap → List IndexEntry
  foreach_with_id id m = with_id id (chain_of m id)

  -- `get`
  unfoldable pub get : ContentId → IndexMap → Option IndexEntry
  get id m = first_with_id id (chain_of m id)

  -- `firstIndex`
  unfoldable pub first_index : ContentId → IndexMap → Option ℕ
  first_index id m = least_with_id id none (chain_of m id)

-- the entries, the newest first
unfoldable pub newest_first : List Linked → List IndexEntry
newest_first [] = []
newest_first (e ∷ es) = e.entry ∷ newest_first es

-- `foreach` with an `fn` that does not stop: the entries in the order of their positions
unfoldable pub oldest_first : List Linked → List IndexEntry
oldest_first [] = []
oldest_first (e ∷ es) = oldest_first es ++ (e.entry ∷ [])

unfoldable pub foreach : IndexMap → List IndexEntry
foreach m = oldest_first m.block_list

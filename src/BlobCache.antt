-- ===== src/BlobCache.antt =====
-- internal/bloblru/cache.go: a cache of blobs bounded by the memory they take. The list of entries in
-- the order of their use is golang-lru's `simplelru.LRU`, the parameter `LruLib`; its callback on
-- eviction is the list of evicted entries that `add` and `remove_oldest` return.
pub mod Bounds
pub mod Entries
use vlbe.Base.{
  ℕ, zero, suc, ◌+◌, ◌-◌, ◌/◌, Bool, true, false, List, [], ◌∷◌, Option, none, some, ltb, length,
  if◌then◌else◌,
}
use vlbe.Restic.Blob.{ContentId}

-- a slice of bytes, which may have room for more
pub record Buffer : Type 0 where
  pub bytes : List ℕ
  pub capacity : ℕ

-- the `nil` slice
abbrev pub nil : Buffer
nil = record { bytes = []; capacity = 0 }

abbrev pub Entry : Type 0
Entry = ContentId × Buffer

-- `simplelru.LRU`; `entries` are its keys and values, from the oldest
pub record LruLib (L : Type 0) : Type 0 where
  pub entries : L → List Entry
  pub contains : ContentId → L → Bool
  pub get : ContentId → L → Option Buffer × L
  pub remove_oldest : L → Option (Entry × L)
  pub add : ContentId → Buffer → L → L × List Entry

-- `Cache`, less its lock and the computations in progress
pub record Cache (L : Type 0) : Type 0 where
  pub lru : L
  pub free : ℕ
  pub size : ℕ

-- `overhead`: the 32 bytes of an identifier and 64 more
abbrev pub overhead : ℕ
overhead = 96

-- `cap(blob) + overhead`
unfoldable pub weight : Buffer → ℕ
weight b = b.capacity + overhead

-- `evict`, called on each entry that leaves
unfoldable pub evict : List Entry → ℕ → ℕ
evict [] free = free
evict (e ∷ es) free = evict es (free + weight e.1)

-- `maxEntries` in `New`, the number of entries that `simplelru.NewLRU` is given
unfoldable pub max_entries : ℕ → ℕ
max_entries size = size / overhead

module _ {L : Type 0} (lib : LruLib L) where
  -- `New`; `empty` is what `simplelru.NewLRU` returns for `max_entries size`
  unfoldable pub new_cache : L → ℕ → Cache L
  new_cache empty size = record { lru = empty; free = size; size = size }

  -- The loop of `Add`, which frees `need` bytes. It answers with the cache and the largest buffer that
  -- was evicted, or with nothing when the fuel does not last.
  unfoldable pub make_room : ℕ → ℕ → Cache L → Buffer → Option (Cache L × Buffer)
  make_room zero need c old = if ltb c.free need then none else some (c, old)
  make_room (suc fuel) need c old =
      let more = elim (lib.remove_oldest c.lru) as (λ _. Option (Cache L × Buffer)) [
        | none ↦ make_room fuel need c old
        | some (e, rest) ↦
            make_room fuel need (record { lru = rest; free = evict (e ∷ []) c.free; size = c.size })
              (if ltb old.capacity e.1.capacity then e.1 else old)
      ] in
      if ltb c.free need then more else some (c, old)

  -- `c.c.Add(id, blob); c.free -= size`
  unfoldable pub insert_entry : ContentId → Buffer → Cache L → Cache L
  insert_entry id blob c =
      let (lru, evicted) = lib.add id blob c.lru in
      record { lru = lru; free = evict evicted c.free - weight blob; size = c.size }

  -- `Add`, with as much fuel as there are entries
  unfoldable pub add_blob : ContentId → Buffer → Cache L → Option (Cache L × Buffer)
  add_blob id blob c =
      if ltb c.size (weight blob)
      then some (c, nil)
      else if lib.contains id c.lru
      then some (c, nil)
      else elim (make_room (length (lib.entries c.lru)) (weight blob) c nil) [
        | none ↦ none
        | some (c', old) ↦ some (insert_entry id blob c', old)
      ]

  -- `Get`
  unfoldable pub get_blob : ContentId → Cache L → Option Buffer × Cache L
  get_blob id c =
      let (found, lru) = lib.get id c.lru in
      (found, record { lru = lru; free = c.free; size = c.size })

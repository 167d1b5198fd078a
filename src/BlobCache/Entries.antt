-- ===== src/BlobCache/Entries.antt =====
-- What the cache holds when a blob was added.
use vlbe.Base.{
  ℕ, zero, suc, ◌+◌, ◌*◌, ◌≤◌, ◌<◌, ◌≡◌, refl, sym, ap, ◌∙◌, inl, inr, false, Bool-cases,
  Option-cases, List, [], ◌∷◌, ◌++◌, some, ltb, length, if◌then◌else◌, arith,
}
use vlbe.Restic.Blob.{ContentId}
use vlbe.BlobCache.{
  Buffer, nil, Entry, LruLib, Cache, weight, evict, make_room, insert_entry, add_blob, overhead,
  max_entries,
}
use vlbe.BlobCache.Bounds.{LruLaws, total, evict-total, IsBalanced, make_room-IsBalanced}

-- what golang-lru documents of its bound: `Add` evicts nothing below it
pub record IsFixedSize {L : Type 0} (lib : LruLib L) (limit : ℕ) : Type 0 where
  pub add_below :
      (id : ContentId) (b : Buffer) (l : L)
      → lib.contains id l ≡ false
      → length (lib.entries l) < limit
      → (lib.add id b l).1 ≡ []

-- every entry takes its overhead at least
total-length : (es : List Entry) → overhead * length es ≤ total es
unfolding weight
total-length [] = omega arith
total-length (e ∷ es) = omega (arith, total-length es)

-- The memory bounds the number of entries, before golang-lru does.
few_entries :
    (es : List Entry) (b : Buffer) (size : ℕ)
    → total es + weight b ≤ size
    → length es < max_entries size
unfolding weight max_entries
few_entries es b size fits = omega (arith, total-length es)

-- No entry is evicted once there is room: all of them but the last did not make `need` bytes free.
abbrev pub IsLeast : List Entry → ℕ → ℕ → Type 0
IsLeast gone free need =
    (most : List Entry) (e : Entry) → gone ≡ most ++ e ∷ [] → free + total most < need

IsLeast-none : (free need : ℕ) → IsLeast [] free need
IsLeast-none free need [] e eq = absurd (ground arith)
IsLeast-none free need (m ∷ most) e eq = absurd (ground arith)

IsLeast-next :
    (en : Entry) (gone : List Entry) (free need : ℕ)
    → free < need
    → IsLeast gone (evict (en ∷ []) free) need
    → IsLeast (en ∷ gone) free need
IsLeast-next en gone free need tight least [] e eq = omega arith
IsLeast-next en gone free need tight least (m ∷ most) e eq =
    let same : en ≡ m = ground arith in
    omega
      (arith, least most e (ground arith), evict-total (en ∷ []) free, ap (λ x. weight x.1) same)

module _ {L : Type 0} (lib : LruLib L) where
  make_room-entries :
      (laws : LruLaws lib) (fuel need : ℕ) (c c' : Cache L) (old old' : Buffer)
      → make_room lib fuel need c old ≡ some (c', old')
      → (gone : List Entry) × (gone ++ lib.entries c'.lru ≡ lib.entries c.lru)
        × IsLeast gone c.free need
  unfolding make_room
  make_room-entries laws zero need c c' old old' e = elim (Bool-cases (ltb c.free need)) [
    | inl tight ↦ absurd (ground arith)
    | inr room ↦
        let same : c' ≡ c = ground arith in
        ([], ap (λ k. lib.entries k.lru) same, IsLeast-none c.free need)
  ]
  make_room-entries laws (suc fuel) need c c' old old' e = elim (Bool-cases (ltb c.free need)) [
    | inr room ↦
        let same : c' ≡ c = ground arith in
        ([], ap (λ k. lib.entries k.lru) same, IsLeast-none c.free need)
    | inl tight ↦ elim (Option-cases (lib.remove_oldest c.lru)) [
      | inl absent ↦ make_room-entries laws fuel need c c' old old' (ground arith)
      | inr ((en, rest), found) ↦
          let c1 : Cache L = record { lru = rest; free = evict (en ∷ []) c.free; size = c.size } in
          let old1 = if ltb old.capacity en.1.capacity then en.1 else old in
          let (gone, eq, least) = make_room-entries laws fuel need c1 c' old1 old' (ground arith) in
          (
            en ∷ gone,
            ap (λ l. en ∷ l) eq ∙ sym (laws.oldest_some c.lru rest en found),
            IsLeast-next en gone c.free need (ground arith) least,
          )
    ]
  ]

  -- Where golang-lru keeps its documentation, with the bound that `New` gives it, free and used memory
  -- add up to the size of the cache, the blob fits into the cache and is not in it: `Add` ends, and the
  -- new blob then stands behind the entries that are left. Those that are gone are the oldest, and no
  -- more than needed: all of them but the last did not make enough room. Golang-lru itself evicts none.
  pub add_blob-entries :
      (laws : LruLaws lib) (id : ContentId) (blob : Buffer) (c : Cache L)
      → IsFixedSize lib (max_entries c.size)
      → IsBalanced lib c
      → weight blob ≤ c.size
      → lib.contains id c.lru ≡ false
      → (c' : Cache L) × (old : Buffer) × (gone : List Entry) × (left : List Entry) × (add_blob lib
            id blob c
          ≡ some (c', old))
        × (lib.entries c.lru ≡ gone ++ left)
        × (lib.entries c'.lru ≡ left ++ (id, blob) ∷ [])
        × IsLeast gone c.free (weight blob)
  unfolding add_blob insert_entry
  add_blob-entries laws id blob c fixed b fits absent =
      let (c1, old, eq, b1, fits1, same, absent1) =
        make_room-IsBalanced lib laws (length (lib.entries c.lru)) (weight blob) c nil id
          (omega arith) b fits absent in
      let (gone, kept, least) =
        make_room-entries laws (length (lib.entries c.lru)) (weight blob) c c1 nil old eq in
      let below = few_entries (lib.entries c1.lru) blob c.size (omega (arith, b1, fits1, same)) in
      let none_evicted = fixed.add_below id blob c1.lru absent1 below in
      let small : ltb c.size (weight blob) ≡ false = ground arith in
      let all = lib.entries (lib.add id blob c1.lru).0 in
      (
        insert_entry lib id blob c1,
        old,
        gone,
        lib.entries c1.lru,
        rw (add_blob, small, absent, eq) refl,
        sym kept,
        ap (λ l. l ++ all) (sym none_evicted) ∙ laws.add_entries id blob c1.lru absent1,
        least,
      )

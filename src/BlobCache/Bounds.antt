-- ===== src/BlobCache/Bounds.antt =====
-- What the cache holds takes the memory that is not free.
use vlbe.Base.{
  ℕ, zero, suc, ◌+◌, ◌≤◌, ◌≡◌, refl, ap, inl, inr, false, Bool-cases, Option-cases, List, [], ◌∷◌,
  ◌++◌, none, some, ltb, length, if◌then◌else◌, arith,
}
use vlbe.Restic.Blob.{ContentId}
use vlbe.BlobCache.{
  Buffer, nil, Entry, LruLib, Cache, weight, evict, make_room, insert_entry, add_blob,
}

-- what the entries take
abbrev pub total : List Entry → ℕ
total [] = 0
total (e ∷ es) = weight e.1 + total es

total-append : (xs ys : List Entry) → total (xs ++ ys) ≡ total xs + total ys
total-append [] ys = omega arith
total-append (x ∷ xs) ys = omega (arith, total-append xs ys)

pub evict-total : (es : List Entry) (free : ℕ) → evict es free ≡ free + total es
unfolding evict
evict-total [] free = omega arith
evict-total (e ∷ es) free = omega (arith, evict-total es (free + weight e.1))

-- what golang-lru documents of its operations
pub record LruLaws {L : Type 0} (lib : LruLib L) : Type 0 where
  pub oldest_none : (l : L) → lib.remove_oldest l ≡ none → lib.entries l ≡ []
  pub oldest_some :
      (l rest : L) (e : Entry)
      → lib.remove_oldest l ≡ some (e, rest)
      → lib.entries l ≡ e ∷ lib.entries rest
  pub add_entries :
      (id : ContentId) (b : Buffer) (l : L)
      → lib.contains id l ≡ false
      → (lib.add id b l).1 ++ lib.entries (lib.add id b l).0 ≡ lib.entries l ++ (id, b) ∷ []
  pub contains_rest :
      (id : ContentId) (l rest : L) (e : Entry)
      → lib.remove_oldest l ≡ some (e, rest)
      → lib.contains id l ≡ false
      → lib.contains id rest ≡ false

total-none : (es : List Entry) → length es ≤ 0 → total es ≡ 0
total-none [] h = refl
total-none (e ∷ es) h = absurd (omega arith)

module _ {L : Type 0} (lib : LruLib L) where
  -- free and used memory are the whole
  abbrev pub IsBalanced : Cache L → Type 0
  IsBalanced c = c.free + total (lib.entries c.lru) ≡ c.size

  pub make_room-IsBalanced :
      (laws : LruLaws lib) (fuel need : ℕ) (c : Cache L) (old : Buffer) (id : ContentId)
      → length (lib.entries c.lru) ≤ fuel
      → IsBalanced c
      → need ≤ c.size
      → lib.contains id c.lru ≡ false
      → (c' : Cache L) × (old' : Buffer) × (make_room lib fuel need c old ≡ some (c', old'))
        × IsBalanced c'
        × (need ≤ c'.free)
        × (c'.size ≡ c.size)
        × (lib.contains id c'.lru ≡ false)
  unfolding make_room
  make_room-IsBalanced laws zero need c old id f b n absent =
      let nothing = total-none (lib.entries c.lru) f in
      let room : ltb c.free need ≡ false = ground (arith, nothing) in
      (c, old, rw (make_room, room) refl, b, omega (arith, nothing), refl, absent)
  make_room-IsBalanced laws (suc fuel) need c old id f b n absent =
      elim (Bool-cases (ltb c.free need)) [
        | inr room ↦ (c, old, rw (make_room, room) refl, b, ground arith, refl, absent)
        | inl tight ↦ elim (Option-cases (lib.remove_oldest c.lru)) [
          | inl gone ↦
              let nothing : total (lib.entries c.lru) ≡ 0 =
                ap total (laws.oldest_none c.lru gone) in
              absurd (ground (arith, nothing))
          | inr ((e, rest), found) ↦
              let before = laws.oldest_some c.lru rest e found in
              let c1 : Cache L = record {
                lru = rest;
                free = evict (e ∷ []) c.free;
                size = c.size;
              } in
              let old1 = if ltb old.capacity e.1.capacity then e.1 else old in
              let balanced : IsBalanced c1 =
                omega (arith, evict-total (e ∷ []) c.free, ap total before) in
              let (c', old', eq, b', fits, same, absent') =
                make_room-IsBalanced laws fuel need c1 old1 id (omega (arith, ap length before))
                  balanced n (laws.contains_rest id c.lru rest e found absent) in
              (c', old', rw (make_room, tight, found) eq, b', fits, same, absent')
        ]
      ]

  insert_entry-IsBalanced :
      (laws : LruLaws lib) (id : ContentId) (blob : Buffer) (c : Cache L)
      → IsBalanced c
      → weight blob ≤ c.free
      → lib.contains id c.lru ≡ false
      → IsBalanced (insert_entry lib id blob c)
  unfolding insert_entry
  insert_entry-IsBalanced laws id blob c b fits absent =
      let (lru, evicted) = lib.add id blob c.lru in
      let both = ap total (laws.add_entries id blob c.lru absent) in
      omega (
        arith,
        both,
        total-append evicted (lib.entries lru),
        total-append (lib.entries c.lru) ((id, blob) ∷ []),
        evict-total evicted c.free,
      )

  -- Where golang-lru keeps its documentation and free and used memory add up to the size of the cache:
  -- `Add` ends, and they still add up to that size, which is thus a bound on the memory that the entries
  -- take.
  pub add_blob-IsBalanced :
      (laws : LruLaws lib) (id : ContentId) (blob : Buffer) (c : Cache L)
      → IsBalanced c
      → (c' : Cache L) × (old : Buffer) × (add_blob lib id blob c ≡ some (c', old))
        × IsBalanced c'
        × (c'.size ≡ c.size)
        × (total (lib.entries c'.lru) ≤ c.size)
  unfolding add_blob
  add_blob-IsBalanced laws id blob c b = elim (Bool-cases (ltb c.size (weight blob))) [
    | inl big ↦ (c, nil, rw (add_blob, big) refl, b, refl, omega arith)
    | inr small ↦ elim (Bool-cases (lib.contains id c.lru)) [
      | inl here ↦ (c, nil, rw (add_blob, small, here) refl, b, refl, omega arith)
      | inr absent ↦
          let (c1, old, eq, b1, fits, same, absent1) =
            make_room-IsBalanced laws (length (lib.entries c.lru)) (weight blob) c nil id
              (omega arith) b (ground arith) absent in
          let c2 = insert_entry lib id blob c1 in
          let b2 = insert_entry-IsBalanced laws id blob c1 b1 fits absent1 in
          let same2 : c2.size ≡ c.size = unfold insert_entry in same in
          (c2, old, rw (add_blob, small, absent, eq) refl, b2, same2, omega (arith, b2, same2))
    ]
  ]

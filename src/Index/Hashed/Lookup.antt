-- ===== src/Index/Hashed/Lookup.antt =====
-- What the hash table finds for an identifier.
use vlbe.Base.{
  ℕ, suc, ◌≤◌, ◌<◌, ◌≡◌, refl, sym, ap, ◌∙◌, inl, inr, true, false, Bool-cases, Option-cases,
  ==_iff, List, [], ◌∷◌, Option, none, some, length, ◌==◌, if◌then◌else◌, arith,
}
use vlbe.Restic.Blob.{ContentId}
use vlbe.Index.Hashed.{
  IndexEntry, Linked, IndexMap, with_id, first_with_id, least_with_id, smaller, hash, chain_of,
  newest_first, foreach_with_id, get, first_index,
}
use vlbe.Index.Hashed.Chains.{hashed, chain-head_of}
use vlbe.Index.Hashed.Content.{content, IsIndexMap, length_zero, hash_bound}

-- the entries of an identifier, and the newest
unfoldable pub matching : ContentId → List IndexEntry → List IndexEntry
matching id [] = []
matching id (e ∷ es) = let rest = matching id es in if e.id == id then e ∷ rest else rest

unfoldable pub newest_of : ContentId → List IndexEntry → Option IndexEntry
newest_of id [] = none
newest_of id (e ∷ es) = let rest = newest_of id es in if e.id == id then some e else rest

-- the position of the oldest entry of an identifier, counted from 1
unfoldable pub oldest_position : ContentId → List IndexEntry → Option ℕ
oldest_position id [] = none
oldest_position id (e ∷ es) = elim (oldest_position id es) [
  | some i ↦ some i
  | none ↦ if e.id == id then some (suc (length es)) else none
]

pub length-newest_first : (es : List Linked) → length (newest_first es) ≡ length es
unfolding newest_first
length-newest_first [] = refl
length-newest_first (e ∷ es) = omega (arith, length-newest_first es)

-- an index that was found before, at a newer entry
abbrev or_else : Option ℕ → Option ℕ → Option ℕ
or_else (some i) idx = some i
or_else none idx = idx

abbrev IsNewer : ℕ → Option ℕ → Type 0
IsNewer k none = Unit
IsNewer k (some i) = k < i

IsNewer-older : (k : ℕ) (idx : Option ℕ) → IsNewer (suc k) idx → IsNewer k idx
IsNewer-older k none newer = tt
IsNewer-older k (some i) newer = omega arith

smaller_newer : (k : ℕ) (idx : Option ℕ) → IsNewer k idx → smaller idx k ≡ some k
unfolding smaller
smaller_newer k none newer = refl
smaller_newer k (some i) newer = ground arith

module _ (sum64 : ℕ → ContentId → ℕ) (seed n : ℕ) (id : ContentId) where
  -- An entry of another hash is not of the identifier.
  other_hash :
      (e : IndexEntry)
      → (hash sum64 seed n e.id == hash sum64 seed n id) ≡ false
      → (e.id == id) ≡ false
  other_hash e other = elim (Bool-cases (e.id == id)) [
    | inl same ↦ absurd (ground (arith, ap (hash sum64 seed n) ((==_iff e.id id).0 same)))
    | inr differs ↦ differs
  ]

  with_id-hashed :
      (es : List Linked)
      → with_id id (hashed sum64 seed n (hash sum64 seed n id) es) ≡ matching id (newest_first es)
  unfolding with_id hashed matching newest_first
  with_id-hashed [] = refl
  with_id-hashed (e ∷ es) =
      elim (Bool-cases (hash sum64 seed n e.entry.id == hash sum64 seed n id)) [
        | inl here ↦ rw (here, with_id-hashed es) refl
        | inr other ↦ rw (other, other_hash e.entry other, with_id-hashed es) refl
      ]

  first_with_id-hashed :
      (es : List Linked)
      → first_with_id id (hashed sum64 seed n (hash sum64 seed n id) es)
        ≡ newest_of id (newest_first es)
  unfolding first_with_id hashed newest_of newest_first
  first_with_id-hashed [] = refl
  first_with_id-hashed (e ∷ es) =
      elim (Bool-cases (hash sum64 seed n e.entry.id == hash sum64 seed n id)) [
        | inl here ↦ rw (here, first_with_id-hashed es) refl
        | inr other ↦ rw (other, other_hash e.entry other, first_with_id-hashed es) refl
      ]

  oldest_position-cons :
      (e : Linked) (es : List Linked) (idx : Option ℕ)
      → (e.entry.id == id) ≡ true
      → or_else (oldest_position id (newest_first es)) (some (suc (length es)))
        ≡ or_else (oldest_position id (newest_first (e ∷ es))) idx
  unfolding oldest_position newest_first
  oldest_position-cons e es idx here = elim (Option-cases (oldest_position id (newest_first es))) [
    | inl nothing ↦ rw (nothing, here, length-newest_first es) refl
    | inr (i, found) ↦ rw found refl
  ]

  oldest_position_other :
      (e : Linked) (es : List Linked)
      → (e.entry.id == id) ≡ false
      → oldest_position id (newest_first (e ∷ es)) ≡ oldest_position id (newest_first es)
  unfolding oldest_position newest_first
  oldest_position_other e es other = elim (Option-cases (oldest_position id (newest_first es))) [
    | inl nothing ↦ rw (nothing, other) refl
    | inr (i, found) ↦ rw found refl
  ]

  least_with_id-hashed :
      (es : List Linked) (idx : Option ℕ)
      → IsNewer (length es) idx
      → least_with_id id idx (hashed sum64 seed n (hash sum64 seed n id) es)
        ≡ or_else (oldest_position id (newest_first es)) idx
  unfolding least_with_id hashed oldest_position newest_first
  least_with_id-hashed [] idx newer = refl
  least_with_id-hashed (e ∷ es) idx newer = elim (Bool-cases (e.entry.id == id)) [
    | inl here ↦
        let same : (hash sum64 seed n e.entry.id == hash sum64 seed n id) ≡ true =
          (==_iff _ _).1 (ap (hash sum64 seed n) ((==_iff e.entry.id id).0 here)) in
        rw (least_with_id, hashed, same, here, smaller_newer (suc (length es)) idx newer)
          (least_with_id-hashed es (some (suc (length es))) (omega arith)
            ∙ oldest_position-cons e es idx here)
    | inr other ↦
        let rest = least_with_id-hashed es idx (IsNewer-older (length es) idx newer) in
        let older = ap (λ o. or_else o idx) (sym (oldest_position_other e es other)) in
        elim (Bool-cases (hash sum64 seed n e.entry.id == hash sum64 seed n id)) [
          | inl collides ↦ rw (hashed, collides, other) rest ∙ older
          | inr apart ↦ rw (hashed, apart) rest ∙ older
        ]
  ]

or_else-none : (o : Option ℕ) → or_else o none ≡ o
or_else-none none = refl
or_else-none (some i) = refl

module _ (sum64 : ℕ → ContentId → ℕ) (id : ContentId) (m : IndexMap) (h : IsIndexMap sum64 m) where
  chain_of_lem :
      1 ≤ length m.buckets
      → chain_of sum64 m id
        ≡ hashed sum64 m.seed
            (length m.buckets)
            (hash sum64 m.seed (length m.buckets) id)
            m.block_list
  unfolding chain_of
  chain_of_lem positive =
      let n = length m.buckets in
      let some_buckets : (n == 0) ≡ false = ground arith in
      let at = hash sum64 m.seed n id in
      rw (chain_of, some_buckets, h.heads at (hash_bound sum64 m.seed n id positive))
        (chain-head_of sum64 m.seed n (suc (length m.block_list)) m.block_list at h.linked
          (omega arith))

  no_buckets : length m.buckets ≡ 0 → (chain_of sum64 m id ≡ []) × (m.block_list ≡ [])
  unfolding chain_of
  no_buckets none_yet =
      let empty : (length m.buckets == 0) ≡ true = ground arith in
      let no_entries : length m.block_list ≡ 0 = ground (arith, h.initialised, h.numbered) in
      (rw empty refl, length_zero m.block_list no_entries)

  abbrev LooksUp : Type 0
  LooksUp =
      (foreach_with_id sum64 id m ≡ matching id (content m))
      × (get sum64 id m ≡ newest_of id (content m))
      × (first_index sum64 id m ≡ oldest_position id (content m))

  empty_lookups : chain_of sum64 m id ≡ [] → m.block_list ≡ [] → LooksUp
  unfolding foreach_with_id get first_index content with_id first_with_id least_with_id matching
      newest_of oldest_position newest_first
  empty_lookups no_chain no_entries = rw (no_chain, no_entries) (refl, refl, refl)

  -- The lookups of a well-formed table answer from the list of entries that it holds, whatever the hash function:
  -- `foreachWithID` passes exactly the entries of the identifier, the newest first, `get` returns the newest, and
  -- `firstIndex` the position of the oldest.
  pub lookups_lem :
      (foreach_with_id sum64 id m ≡ matching id (content m))
      × (get sum64 id m ≡ newest_of id (content m))
      × (first_index sum64 id m ≡ oldest_position id (content m))
  unfolding foreach_with_id get first_index content
  lookups_lem = elim (Bool-cases (length m.buckets == 0)) [
    | inl none_yet ↦
        let (no_chain, no_entries) = no_buckets ((==_iff (length m.buckets) 0).0 none_yet) in
        empty_lookups no_chain no_entries
    | inr some_buckets ↦
        let n = length m.buckets in
        let visits = chain_of_lem (ground arith) in
        (
          ap (with_id id) visits ∙ with_id-hashed sum64 m.seed n id m.block_list,
          ap (first_with_id id) visits ∙ first_with_id-hashed sum64 m.seed n id m.block_list,
          ap (least_with_id id none) visits
              ∙ least_with_id-hashed sum64 m.seed n id m.block_list none tt
              ∙ or_else-none _,
        )
  ]

-- ===== src/Index/Hashed/Content.antt =====
-- The hash table is a list of entries, the newest first.
use vlbe.Base.{
  ℕ, suc, ◌*◌, ◌≤◌, ◌<◌, ◌≡◌, refl, sym, ap, subst, ◌∙◌, ◌⊎◌, inl, inr, Bool-cases, ==_iff, List,
  [], ◌∷◌, length, leb, ◌==◌, arith,
}
use vlbe.Restic.Blob.{ContentId}
use vlbe.Index.Hashed.{
  IndexEntry, Linked, IndexMap, new_index_map, bucket_at, set_bucket, hash, relink, grow, init,
  make_room, prepend, add, initial_buckets, growth_factor, max_load, newest_first,
}
use vlbe.Index.Hashed.Chains.{
  length-zeros, bucket_at-zeros, length-set_bucket, bucket_at-set_bucket, head_of, AreLinked,
}

-- what the table holds
unfoldable pub content : IndexMap → List IndexEntry
content m = newest_first m.block_list

pub length_zero : {A : Type 0} (xs : List A) → length xs ≡ 0 → xs ≡ []
length_zero [] e = refl
length_zero (x ∷ xs) e = absurd (omega arith)

module _ (sum64 : ℕ → ContentId → ℕ) where
  -- Every entry is in the chain of its hash.
  pub record IsIndexMap (m : IndexMap) : Type 0 where
    pub numbered : m.numentries ≡ length m.block_list
    pub initialised : (1 ≤ length m.buckets) ⊎ (m.numentries ≡ 0)
    pub linked : AreLinked sum64 m.seed (length m.buckets) m.block_list
    pub heads :
        (h : ℕ)
        → h < length m.buckets
        → bucket_at m.buckets h ≡ head_of sum64 m.seed (length m.buckets) h m.block_list

  pub new_index_map-IsIndexMap : (seed : ℕ) → IsIndexMap (new_index_map seed)
  new_index_map-IsIndexMap seed = record {
    numbered = refl;
    initialised = inr refl;
    linked = tt;
    heads = λ h below. absurd (omega arith);
  }

  pub hash_bound : (seed n : ℕ) (id : ContentId) → 1 ≤ n → hash sum64 seed n id < n
  unfolding hash
  hash_bound seed n id positive = grind arith

  -- One entry more in front of its chain keeps the buckets right.
  heads_cons :
      (seed n : ℕ) (buckets : List ℕ) (es : List Linked) (e : Linked)
      → length buckets ≡ n
      → 1 ≤ n
      → ((h : ℕ) → h < n → bucket_at buckets h ≡ head_of sum64 seed n h es)
      → (h : ℕ) → h < n
      → bucket_at (set_bucket buckets (hash sum64 seed n e.entry.id) (suc (length es))) h
        ≡ head_of sum64 seed n h (e ∷ es)
  unfolding head_of
  heads_cons seed n buckets es e size positive heads h below =
      let at = hash sum64 seed n e.entry.id in
      let at_below = hash_bound seed n e.entry.id positive in
      ground
        (arith, bucket_at-set_bucket buckets at (suc (length es)) h (omega arith), heads h below)

  content-prepend : (e : IndexEntry) (m : IndexMap) → content (prepend sum64 e m) ≡ e ∷ content m
  unfolding prepend content newest_first
  content-prepend e m = refl

  prepend-IsIndexMap :
      (e : IndexEntry) (m : IndexMap)
      → 1 ≤ length m.buckets
      → IsIndexMap m
      → IsIndexMap (prepend sum64 e m)
  unfolding prepend
  prepend-IsIndexMap e m positive h =
      let n = length m.buckets in
      let at = hash sum64 m.seed n e.id in
      let same = length-set_bucket m.buckets at (suc (length m.block_list)) in
      record {
        numbered = omega (arith, h.numbered);
        initialised = inl (omega (arith, same));
        linked = (
          rw same (h.heads at (hash_bound m.seed n e.id positive)),
          subst (λ k. AreLinked sum64 m.seed k m.block_list) (sym same) h.linked,
        );
        heads = rw same (
            heads_cons m.seed n m.buckets m.block_list
              (record { entry = e; next = bucket_at m.buckets at }) refl positive h.heads);
      }

  -- what `relink` makes of the entries
  record IsRelinked (seed n : ℕ) (es : List Linked) (r : List ℕ × List Linked) : Type 0 where
    sized : length r.0 ≡ n
    linked : AreLinked sum64 seed n r.1
    heads : (h : ℕ) → h < n → bucket_at r.0 h ≡ head_of sum64 seed n h r.1
    kept : newest_first r.1 ≡ newest_first es
    counted : length r.1 ≡ length es

  relink-IsRelinked :
      (seed n : ℕ) (es : List Linked) → 1 ≤ n → IsRelinked seed n es (relink sum64 seed n es)
  unfolding relink newest_first head_of
  relink-IsRelinked seed n [] positive = record {
    sized = length-zeros n;
    linked = tt;
    heads = λ h below. bucket_at-zeros n h;
    kept = refl;
    counted = refl;
  }
  relink-IsRelinked seed n (e ∷ es) positive =
      let (buckets, done) = relink sum64 seed n es in
      let r = relink-IsRelinked seed n es positive in
      let at = hash sum64 seed n e.entry.id in
      record {
        sized = length-set_bucket buckets at (suc (length es)) ∙ r.sized;
        linked = (r.heads at (hash_bound seed n e.entry.id positive), r.linked);
        heads = rw (← r.counted) (
            heads_cons seed n buckets done (record { entry = e.entry; next = bucket_at buckets at })
              r.sized positive r.heads);
        kept = ap (λ l. e.entry ∷ l) r.kept;
        counted = omega (arith, r.counted);
      }

  -- a table with buckets that holds these entries
  abbrev HasRoom : List IndexEntry → IndexMap → Type 0
  HasRoom entries m = (1 ≤ length m.buckets) × IsIndexMap m × (content m ≡ entries)

  grow-HasRoom :
      (m : IndexMap) → 1 ≤ length m.buckets → IsIndexMap m → HasRoom (content m) (grow sum64 m)
  unfolding grow content
  grow-HasRoom m positive h =
      let n = growth_factor * length m.buckets in
      let r = relink-IsRelinked m.seed n m.block_list (omega arith) in
      let linked =
        subst (λ k. AreLinked sum64 m.seed k (relink sum64 m.seed n m.block_list).1) (sym r.sized)
          r.linked in
      (
        omega (arith, r.sized),
        record {
          numbered = h.numbered ∙ sym r.counted;
          initialised = inl (omega (arith, r.sized));
          linked = linked;
          heads = rw r.sized r.heads;
        },
        r.kept,
      )

  init-HasRoom :
      (m : IndexMap) → m.numentries ≡ 0 → IsIndexMap m → HasRoom (content m) (init sum64 m)
  unfolding init content newest_first head_of
  init-HasRoom m empty h =
      let nothing : m.block_list ≡ [] = length_zero m.block_list (sym h.numbered ∙ empty) in
      let sized = length-zeros initial_buckets in
      (
        omega (arith, sized),
        record {
          numbered = empty;
          initialised = inr empty;
          linked = tt;
          heads = λ i below. bucket_at-zeros initial_buckets i;
        },
        sym (ap newest_first nothing),
      )

  -- `add` finds or makes buckets, and no entry is lost.
  make_room-HasRoom : (m : IndexMap) → IsIndexMap m → HasRoom (content m) (make_room sum64 m)
  unfolding make_room
  make_room-HasRoom m h = elim (Bool-cases (m.numentries == 0)) [
    | inl empty ↦ rw empty (init-HasRoom m ((==_iff m.numentries 0).0 empty) h)
    | inr some_entry ↦
        let positive : 1 ≤ length m.buckets = ground (arith, h.initialised) in
        elim (Bool-cases (leb (max_load * length m.buckets) m.numentries)) [
          | inl full ↦ rw (some_entry, full) (grow-HasRoom m positive h)
          | inr free ↦ rw (some_entry, free) (positive, h, refl)
        ]
  ]

  -- `add` puts the entry into a table that stays a table: afterwards it holds the new entry in front of what it held, also where it makes or doubles the buckets, and every entry stands in the chain of its hash.
  pub add-IsIndexMap :
      (e : IndexEntry) (m : IndexMap)
      → IsIndexMap m
      → IsIndexMap (add sum64 e m) × (content (add sum64 e m) ≡ e ∷ content m)
  unfolding add
  add-IsIndexMap e m h =
      let (positive, roomy, same) = make_room-HasRoom m h in
      (
        prepend-IsIndexMap e (make_room sum64 m) positive roomy,
        content-prepend e (make_room sum64 m) ∙ ap (λ l. e ∷ l) same,
      )

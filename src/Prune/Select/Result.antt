-- ===== src/Prune/Select/Result.antt =====
-- What `packInfoFromIndex` promises: it fails exactly when the index lacks a used blob, and where
-- it returns, a copy of every used blob counts as used.
use Prim.Native.Nat.{min}
use vlbe.Base.{
  ◌==◌, ap, ◌∙◌, ℕ, ◌+◌, ◌<◌, ◌≡◌, ◌≢◌, refl, sym, subst, ◌⊎◌, inl, inr, true, false, List, [], ◌∷◌,
  some, Bool-cases, Option-cases, arith, lookup, insert, lookup-insert, Unique, insert-Unique, In,
  All, All-of_lookup, lookup_of_All, length, word, Map, ℕ_key,
}
use vlbe.Restic.Blob.{ContentId, BlobHandle, PackedBlob, same_handle, same_handle_iff, handle_key}
use vlbe.Pack.Size.{size}
use vlbe.Prune.Types.{PruneStats, Counts, ok, err, index_incomplete}
use vlbe.Prune.Select.{
  Selection, Picking, classify, pick, used_set, count_blobs, missing_blobs, header_infos,
  select_copies, pack_info_from_index, conclude,
}
use vlbe.Prune.Select.Copies.{
  copies, count_blobs-Unique, count_blobs_used, count_blobs_unused, nonzero_of_no_missing,
  no_missing_of_nonzero, all_ones_of_ones,
}
use vlbe.Prune.Select.Held.{Held, Bounded, OnesHeld, classify_grows, classify-Held, pick_held}
use vlbe.Prune.Select.Ends.{AllPending, pick_ends, pick-Unique, no_duplicates, pick_keeps}

used_set-Unique : (hs : List BlobHandle) (used : Counts) → Unique used → Unique (used_set hs used)
unfolding used_set
used_set-Unique [] used u = u
used_set-Unique (h ∷ hs) used u = used_set-Unique hs (insert h 0 used) (insert-Unique h 0 used u)

-- a handle that has the counter 0 keeps it
used_set_keeps :
    (hs : List BlobHandle) (used : Counts) (h : BlobHandle)
    → lookup h used ≡ some 0
    → lookup h (used_set hs used) ≡ some 0
unfolding used_set
used_set_keeps [] used h e = e
used_set_keeps (g ∷ hs) used h e =
    used_set_keeps hs (insert g 0 used) h (ground (arith, lookup-insert g h 0 used))

used_set-In :
    (hs : List BlobHandle) (used : Counts) (h : BlobHandle)
    → In h hs
    → lookup h (used_set hs used) ≡ some 0
unfolding used_set
used_set-In [] used h i = absurd i
used_set-In (g ∷ hs) used h (inl e) =
    used_set_keeps hs (insert g 0 used) h
      (ground (arith, lookup-insert g h 0 used, same_handle_iff g h))
used_set-In (g ∷ hs) used h (inr i) = used_set-In hs (insert g 0 used) h i

-- only used blobs have counters
used_set_only :
    (hs : List BlobHandle) (used : Counts) (h : BlobHandle) (n : ℕ)
    → lookup h (used_set hs used) ≡ some n
    → (In h hs × (n ≡ 0)) ⊎ (lookup h used ≡ some n)
unfolding used_set
used_set_only [] used h n e = inr e
used_set_only (g ∷ hs) used h n e = elim (used_set_only hs (insert g 0 used) h n e) [
  | inl (i, z) ↦ inl (inr i, z)
  | inr old ↦ elim (Bool-cases (same_handle g h)) [
    | inl same ↦
        inl (inl (sym ((same_handle_iff g h).0 same)), ground (arith, lookup-insert g h 0 used))
    | inr other ↦ inr (ground (arith, lookup-insert g h 0 used))
  ]
]

header_infos-Bounded : (sizes : Map ContentId ℕ) → Bounded 0 (header_infos sizes)
unfolding header_infos lookup
header_infos-Bounded [] p = omega arith
header_infos-Bounded ((q, n) ∷ sizes) p = ground (arith, header_infos-Bounded sizes p)

module _ (index : List PackedBlob) (used : List BlobHandle) (stats : PruneStats) where
  -- the counters after the first pass
  abbrev counted : Counts
  counted = count_blobs index (used_set used [])

  counted-Unique : Unique counted
  counted-Unique = count_blobs-Unique index (used_set used []) (used_set-Unique used [] tt)

  counted-In : (h : BlobHandle) → In h used → lookup h counted ≡ some (min 255 (copies h index))
  counted-In h i =
      count_blobs_used h index (used_set used []) 0 (omega arith) (used_set-In used [] h i)
      ∙ ap some (omega arith)

  counted_only : (h : BlobHandle) (n : ℕ) → lookup h counted ≡ some n → In h used
  unfolding lookup
  counted_only h n e = elim (Option-cases (lookup h (used_set used []))) [
    | inl unused ↦ absurd (ground (arith, count_blobs_unused h index (used_set used []) unused))
    | inr (m, known) ↦ elim (used_set_only used [] h m known) [
      | inl (i, _) ↦ i
      | inr old ↦ absurd (ground arith)
    ]
  ]

  -- the state after the second pass, and what the function selects
  abbrev sorted : Selection
  sorted = classify counted index (record {
    index_pack = header_infos (size true index []);
    stats = stats;
    has_duplicates = false;
  })

  abbrev unpicked : Picking
  unpicked = record { counts = counted; index_pack = sorted.index_pack; stats = sorted.stats }

  select_copies-cases :
      ((sorted.has_duplicates ≡ true) × (select_copies index counted stats ≡ pick index unpicked))
      ⊎ ((sorted.has_duplicates ≡ false) × (select_copies index counted stats ≡ unpicked))
  unfolding select_copies
  select_copies-cases = elim (Bool-cases sorted.has_duplicates) [
    | inl dup ↦ inl (dup, rw dup)
    | inr none_dup ↦ inr (none_dup, rw none_dup)
  ]

  module _ (found : (h : BlobHandle) → In h used → 0 < copies h index) where
    counted_pending : AllPending index counted
    counted_pending h n e = let i = counted_only h n e in ground (arith, counted-In h i, found h i)

    no_missing : missing_blobs counted ≡ []
    no_missing = no_missing_of_nonzero counted (
        All-of_lookup (λ n. n ≢ 0) counted counted-Unique
          (λ h n e. let i = counted_only h n e in ground (arith, counted-In h i, found h i)))

    selected_ones :
        (h : BlobHandle) (n : ℕ)
        → lookup h (select_copies index counted stats).counts ≡ some n
        → n ≡ 1
    selected_ones h n e = elim select_copies-cases [
      | inl (_, eq) ↦
          pick_ends index unpicked counted_pending h n
            (subst (λ (x : Picking). lookup h x.counts ≡ some n) eq e)
      | inr (none_dup, eq) ↦
          let e' : lookup h counted ≡ some n =
            subst (λ (x : Picking). lookup h x.counts ≡ some n) eq e in
          let i = counted_only h n e' in
          ground (
            arith,
            e',
            counted-In h i,
            found h i,
            (no_duplicates counted index
                  (record {
                    index_pack = header_infos (size true index []);
                    stats = stats;
                    has_duplicates = false;
                  })
                  h none_dup).1
                (found h i),
          )
    ]

    selected-Unique : Unique (select_copies index counted stats).counts
    selected-Unique = elim select_copies-cases [
      | inl (_, eq) ↦
          subst (λ (x : Picking). Unique x.counts) (sym eq)
            (pick-Unique index unpicked counted-Unique)
      | inr (_, eq) ↦ subst (λ (x : Picking). Unique x.counts) (sym eq) counted-Unique
    ]

    select_ok :
        pack_info_from_index index (used_set used []) stats ≡ ok (select_copies index counted stats)
    unfolding pack_info_from_index conclude
    select_ok =
        let picked = select_copies index counted stats in
        let ones =
          all_ones_of_ones picked.counts
            (All-of_lookup (λ n. n ≡ 1) picked.counts selected-Unique selected_ones) in
        ground (arith, no_missing, ones)

  module _ (h : BlobHandle) (i : In h used) (lacking : copies h index ≡ 0) where
    some_missing : missing_blobs counted ≢ []
    some_missing empty =
        lookup_of_All (λ n. n ≢ 0) counted h 0 (nonzero_of_no_missing counted empty)
          (counted-In h i ∙ ap some (omega arith)) refl

    select_incomplete : pack_info_from_index index (used_set used []) stats ≡ err index_incomplete
    unfolding pack_info_from_index conclude
    select_incomplete = ground (arith, some_missing)

  -- where the function returns, it returns the selection, and the index has every used blob
  select_inv :
      (st : Picking)
      → pack_info_from_index index (used_set used []) stats ≡ ok st
      → st ≡ select_copies index counted stats
  unfolding pack_info_from_index conclude
  select_inv st e = ground arith

  found_of_ok :
      (st : Picking)
      → pack_info_from_index index (used_set used []) stats ≡ ok st
      → (h : BlobHandle) → In h used
      → 0 < copies h index
  found_of_ok st e h i = ground (arith, select_incomplete h i)

  selected_has :
      (h : BlobHandle)
      → In h used
      → (m : ℕ) × (lookup h (select_copies index counted stats).counts ≡ some m)
  selected_has h i = elim select_copies-cases [
    | inl (_, eq) ↦
        subst (λ (x : Picking). (m : ℕ) × (lookup h x.counts ≡ some m)) (sym eq)
          (pick_keeps index unpicked h _ (counted-In h i))
    | inr (_, eq) ↦
        subst (λ (x : Picking). (m : ℕ) × (lookup h x.counts ≡ some m)) (sym eq) (_, counted-In h i)
  ]

  module _ (fits : length index + length index < word) where
    abbrev before : Selection
    before = record {
      index_pack = header_infos (size true index []);
      stats = stats;
      has_duplicates = false;
    }

    start_OnesHeld : OnesHeld index unpicked
    start_OnesHeld h e =
        let i = counted_only h 1 e in
        classify-Held counted index before 0 h (header_infos-Bounded _) (omega arith) e
          (ground (arith, counted-In h i))

    selected_held : OnesHeld index (select_copies index counted stats)
    selected_held = elim select_copies-cases [
      | inl (_, eq) ↦ subst (OnesHeld index) (sym eq) (
          pick_held index index unpicked (length index)
            (λ p. omega (
              arith,
              (classify_grows counted index before 0 (header_infos-Bounded _) (omega arith) p).1,
            ))
            fits (λ b inside. inside) start_OnesHeld)
      | inr (_, eq) ↦ subst (OnesHeld index) (sym eq) start_OnesHeld
    ]

-- a used blob without a copy, if there is one
find_missing :
    (index : List PackedBlob) (used : List BlobHandle)
    → All (λ h. 0 < copies h index) used ⊎ ((h : BlobHandle) × In h used × (copies h index ≡ 0))
find_missing index [] = inl tt
find_missing index (h ∷ used) = elim (find_missing index used) [
  | inr (g, i, lacking) ↦ inr (g, inr i, lacking)
  | inl found ↦ elim (Bool-cases (copies h index == 0)) [
    | inl lacking ↦ inr (h, inl refl, ground arith)
    | inr some_copy ↦ inl (ground arith, found)
  ]
]

All-In :
    (P : BlobHandle → Type 0) (hs : List BlobHandle) → All P hs → (h : BlobHandle) → In h hs → P h
All-In P [] a h i = absurd i
All-In P (g ∷ hs) a h (inl e) = subst P (sym e) a.0
All-In P (g ∷ hs) a h (inr i) = All-In P hs a.1 h i

-- `packInfoFromIndex` never panics. Either the index lists a copy of every used blob, and it
-- returns; or some used blob has no copy in the index, and it fails with `ErrIndexIncomplete`.
pub pack_info_from_index_total :
    (index : List PackedBlob) (used : List BlobHandle) (stats : PruneStats)
    → ((st : Picking) × (pack_info_from_index index (used_set used []) stats ≡ ok st)
        × All (λ h. 0 < copies h index) used)
      ⊎ ((h : BlobHandle) × In h used
          × (copies h index ≡ 0)
          × (pack_info_from_index index (used_set used []) stats ≡ err index_incomplete))
pack_info_from_index_total index used stats = elim (find_missing index used) [
  | inl found ↦
      inl (_, select_ok index used stats (All-In (λ h. 0 < copies h index) used found), found)
  | inr (h, i, lacking) ↦ inr (h, i, lacking, select_incomplete index used stats h i lacking)
]

-- Where `packInfoFromIndex` returns, over an index of fewer than 2^63 blobs, a copy of every used
-- blob stands in a pack that has used blobs, and the counter of every used blob is 1.
pub used_blobs-Held :
    (index : List PackedBlob) (used : List BlobHandle) (stats : PruneStats) (st : Picking)
    → length index + length index < word
    → pack_info_from_index index (used_set used []) stats ≡ ok st
    → (h : BlobHandle) → In h used
    → Held st.index_pack index h × (lookup h st.counts ≡ some 1)
used_blobs-Held index used stats st fits e h i =
    let found = found_of_ok index used stats st e in
    let (m, has_m) = selected_has index used stats h i in
    let one : lookup h (select_copies index (count_blobs index (used_set used [])) stats).counts
        ≡ some 1 =
      has_m ∙ ap some (selected_ones index used stats found h m has_m) in
    subst (λ (x : Picking). Held x.index_pack index h × (lookup h x.counts ≡ some 1))
      (sym (select_inv index used stats st e)) (selected_held index used stats fits h one, one)

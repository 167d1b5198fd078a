-- ===== src/Prune/Select/Ends.antt =====
-- The third pass of `packInfoFromIndex` ends with every counter at 1, so its sanity check passes.
use vlbe.Base.{
  ℕ, ◌≤◌, ◌<◌, ◌≡◌, ◌≢◌, sym, subst, ◌⊎◌, inl, inr, false, List, [], ◌∷◌, some, Bool-cases, arith,
  if◌then◌else◌, lookup, Unique, insert-Unique, ℕ_key,
}
use vlbe.Restic.Blob.{BlobHandle, PackedBlob, same_handle, same_handle_iff, handle_key}
use vlbe.Prune.Types.{Counts, or_zero}
use vlbe.Prune.Select.{
  Selection, Picking, classify_step, classify, or_none, pick_step, pick_copy, pick, takes_copy,
  pass_over,
}
use vlbe.Prune.Select.Copies.{copies}
use vlbe.Prune.Select.Held.{counts-pick_copy, pick_step-cases}

-- what the counter `n` asks of the copies that are still to come
abbrev pub Pending : ℕ → ℕ → Type 0
Pending left n = (n ≡ 1) ⊎ ((n ≡ 0) × (1 ≤ left)) ⊎ ((2 ≤ n) × (n ≤ left))

abbrev pub AllPending : List PackedBlob → Counts → Type 0
AllPending bs counts = (h : BlobHandle) (n : ℕ) → lookup h counts ≡ some n → Pending (copies h bs) n

pick_copy_pending :
    (n : ℕ) (b : PackedBlob) (bs : List PackedBlob) (st : Picking)
    → lookup b.handle st.counts ≡ some n
    → n ≢ 1
    → AllPending (b ∷ bs) st.counts
    → AllPending bs (pick_copy n b st).counts
unfolding copies takes_copy pass_over
pick_copy_pending n b bs st e more pending h m e' = elim (Bool-cases (same_handle b.handle h)) [
  | inl same ↦
      let is_h : b.handle ≡ h = (same_handle_iff b.handle h).0 same in
      ground (
        arith,
        same_handle_iff b.handle h,
        counts-pick_copy n b st h,
        pending h n (let e'' : lookup h st.counts ≡ some n = rw (← is_h) e in e''),
      )
  | inr other ↦ ground (arith, counts-pick_copy n b st h, pending h m)
]

pick_step_pending :
    (b : PackedBlob) (bs : List PackedBlob) (st : Picking)
    → AllPending (b ∷ bs) st.counts
    → AllPending bs (pick_step b st).counts
unfolding copies
pick_step_pending b bs st pending = elim (pick_step-cases b st) [
  | inl (same, ones) ↦ rw same λ h n e. elim (Bool-cases (same_handle b.handle h)) [
    | inl is_h ↦
        let one : lookup b.handle st.counts ≡ some n = rw ((same_handle_iff b.handle h).0 is_h) e in
        inl (ones n one)
    | inr other ↦ ground (arith, pending h n e)
  ]
  | inr (n, e, more, picked) ↦ rw picked (pick_copy_pending n b bs st e more pending)
]

-- After the third pass every counter is 1.
pub pick_ends :
    (bs : List PackedBlob) (st : Picking)
    → AllPending bs st.counts
    → (h : BlobHandle) (n : ℕ) → lookup h (pick bs st).counts ≡ some n
    → n ≡ 1
unfolding pick copies
pick_ends [] st pending h n e = ground (arith, pending h n e)
pick_ends (b ∷ bs) st pending h n e =
    pick_ends bs (pick_step b st) (pick_step_pending b bs st pending) h n e

pick_copy-Unique :
    (n : ℕ) (b : PackedBlob) (st : Picking) → Unique st.counts → Unique (pick_copy n b st).counts
unfolding pick_copy
pick_copy-Unique n b st u =
    elim (Bool-cases (takes_copy n (or_zero (lookup b.pack_id st.index_pack)))) [
      | inl taken ↦ rw taken (insert-Unique b.handle 1 st.counts u)
      | inr passed ↦ rw passed (insert-Unique b.handle (pass_over n) st.counts u)
    ]

pick_step-Unique :
    (b : PackedBlob) (st : Picking) → Unique st.counts → Unique (pick_step b st).counts
pick_step-Unique b st u = elim (pick_step-cases b st) [
  | inl (same, _) ↦ subst (λ (x : Picking). Unique x.counts) (sym same) u
  | inr (n, _, _, picked) ↦
      subst (λ (x : Picking). Unique x.counts) (sym picked) (pick_copy-Unique n b st u)
]

pub pick-Unique :
    (bs : List PackedBlob) (st : Picking) → Unique st.counts → Unique (pick bs st).counts
unfolding pick
pick-Unique [] st u = u
pick-Unique (b ∷ bs) st u = pick-Unique bs (pick_step b st) (pick_step-Unique b st u)

-- Where the second pass meets no duplicate, no counter of a blob in the index passes 1.
pub no_duplicates :
    (counts : Counts) (bs : List PackedBlob) (st : Selection) (h : BlobHandle)
    → (classify counts bs st).has_duplicates ≡ false
    → (st.has_duplicates ≡ false) × (0 < copies h bs → or_none (lookup h counts) < 2)
unfolding classify classify_step copies
no_duplicates counts [] st h e = (e, λ some_copy. absurd (omega arith))
no_duplicates counts (b ∷ bs) st h e =
    let rest = no_duplicates counts bs (classify_step counts b st) h e in
    (
      ground arith,
      λ some_copy. elim (Bool-cases (same_handle b.handle h)) [
        | inl same ↦ rw (← (same_handle_iff b.handle h).0 same) (ground arith)
        | inr other ↦ rest.1 (ground arith)
      ],
    )

pick_copy_keeps :
    (c : ℕ) (b : PackedBlob) (st : Picking) (h : BlobHandle) (n : ℕ)
    → lookup h st.counts ≡ some n
    → (m : ℕ) × (lookup h (pick_copy c b st).counts ≡ some m)
pick_copy_keeps c b st h n e =
    let taken = takes_copy c (or_zero (lookup b.pack_id st.index_pack)) in
    (
      if same_handle b.handle h then if taken then 1 else pass_over c else n,
      ground (arith, counts-pick_copy c b st h),
    )

-- The third pass changes counters, and drops none.
pub pick_keeps :
    (bs : List PackedBlob) (st : Picking) (h : BlobHandle) (n : ℕ)
    → lookup h st.counts ≡ some n
    → (m : ℕ) × (lookup h (pick bs st).counts ≡ some m)
unfolding pick
pick_keeps [] st h n e = (n, e)
pick_keeps (b ∷ bs) st h n e = elim (pick_step-cases b st) [
  | inl (same, _) ↦
      pick_keeps bs (pick_step b st) h n
        (subst (λ (x : Picking). lookup h x.counts ≡ some n) (sym same) e)
  | inr (c, _, _, picked) ↦
      let (m, found) = pick_copy_keeps c b st h n e in
      pick_keeps bs (pick_step b st) h m
        (subst (λ (x : Picking). lookup h x.counts ≡ some m) (sym picked) found)
]

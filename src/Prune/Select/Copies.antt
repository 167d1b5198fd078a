-- ===== src/Prune/Select/Copies.antt =====
-- The first pass of `packInfoFromIndex`: what the counters say of the index.
use Prim.Native.Nat.{min}
use vlbe.Base.{
  ℕ, zero, suc, ◌+◌, ◌≤◌, ◌≡◌, ◌≢◌, refl, ap, ◌∙◌, inl, inr, true, List, [], ◌∷◌, Option, none,
  some, Option-cases, Bool-cases, arith, if◌then◌else◌, ltb, lookup, lookup-insert, Unique,
  insert-Unique, All,
}
use vlbe.Restic.Blob.{BlobHandle, PackedBlob, same_handle, same_handle_iff, handle_key}
use vlbe.Prune.Types.{Counts}
use vlbe.Prune.Select.{count_step, count_blobs, missing_blobs, all_ones}

-- how often the index lists `h`
unfoldable pub copies : BlobHandle → List PackedBlob → ℕ
copies h [] = 0
copies h (b ∷ bs) = (if same_handle b.handle h then 1 else 0) + copies h bs

-- a counter after `n` more copies
abbrev pub saturate : ℕ → Option ℕ → Option ℕ
saturate n none = none
saturate n (some c) = some (min 255 (c + n))

-- one more copy
abbrev bump : Option ℕ → Option ℕ
bump none = none
bump (some c) = some (if ltb c 255 then c + 1 else c)

lookup-count_step :
    (h : BlobHandle) (b : PackedBlob) (used : Counts)
    → lookup h (count_step b used)
      ≡ (if same_handle b.handle h then bump (lookup h used) else lookup h used)
unfolding count_step
lookup-count_step h b used = elim (Option-cases (lookup b.handle used)) [
  | inl p ↦ rw (p, count_step) (ground (arith, same_handle_iff b.handle h))
  | inr (c, p) ↦
      rw (p, count_step) (simp lookup-insert (ground (arith, same_handle_iff b.handle h)))
]

pub count_step-Unique : (b : PackedBlob) (used : Counts) → Unique used → Unique (count_step b used)
unfolding count_step
count_step-Unique b used u = elim (Option-cases (lookup b.handle used)) [
  | inl p ↦ rw (p, count_step) u
  | inr (c, p) ↦ rw (p, count_step) (insert-Unique b.handle _ used u)
]

pub count_blobs-Unique :
    (bs : List PackedBlob) (used : Counts) → Unique used → Unique (count_blobs bs used)
unfolding count_blobs
count_blobs-Unique [] used u = u
count_blobs-Unique (b ∷ bs) used u =
    count_blobs-Unique bs (count_step b used) (count_step-Unique b used u)

-- A handle that is not used has no counter.
pub count_blobs_unused :
    (h : BlobHandle) (bs : List PackedBlob) (used : Counts)
    → lookup h used ≡ none
    → lookup h (count_blobs bs used) ≡ none
unfolding count_blobs
count_blobs_unused h [] used e = e
count_blobs_unused h (b ∷ bs) used e =
    count_blobs_unused h bs (count_step b used) (ground (arith, lookup-count_step h b used))

-- After the pass a counter is the number of copies, and 255 where there are more.
pub count_blobs_used :
    (h : BlobHandle) (bs : List PackedBlob) (used : Counts) (n : ℕ)
    → n ≤ 255
    → lookup h used ≡ some n
    → lookup h (count_blobs bs used) ≡ some (min 255 (n + copies h bs))
unfolding count_blobs copies
count_blobs_used h [] used n small e = ground arith
count_blobs_used h (b ∷ bs) used n small e = elim (Bool-cases (same_handle b.handle h)) [
  | inl same ↦
      count_blobs_used h bs (count_step b used) (if ltb n 255 then n + 1 else n) (ground arith)
        (ground (arith, lookup-count_step h b used))
      ∙ ap some (rw same (ground arith))
  | inr other ↦
      count_blobs_used h bs (count_step b used) n small (ground (arith, lookup-count_step h b used))
      ∙ ap some (rw other (ground arith))
]

-- `missing_blobs` is empty exactly when no counter is 0.
pub nonzero_of_no_missing : (used : Counts) → missing_blobs used ≡ [] → All (λ e. e.1 ≢ 0) used
unfolding missing_blobs
nonzero_of_no_missing [] e = tt
nonzero_of_no_missing ((h, zero) ∷ used) e = absurd (cc)
nonzero_of_no_missing ((h, suc c) ∷ used) e =
    (omega arith, nonzero_of_no_missing used (ground arith))

pub no_missing_of_nonzero : (used : Counts) → All (λ e. e.1 ≢ 0) used → missing_blobs used ≡ []
unfolding missing_blobs
no_missing_of_nonzero [] a = refl
no_missing_of_nonzero ((h, zero) ∷ used) a = absurd (a.0 refl)
no_missing_of_nonzero ((h, suc c) ∷ used) a = ground (arith, no_missing_of_nonzero used a.1)

-- the sanity check passes exactly when every counter is 1
pub all_ones_of_ones : (used : Counts) → All (λ e. e.1 ≡ 1) used → all_ones used ≡ true
unfolding all_ones
all_ones_of_ones [] a = refl
all_ones_of_ones ((h, c) ∷ used) a = ground (arith, all_ones_of_ones used a.1)

pub ones_of_all_ones : (used : Counts) → all_ones used ≡ true → All (λ e. e.1 ≡ 1) used
unfolding all_ones
ones_of_all_ones [] e = tt
ones_of_all_ones ((h, c) ∷ used) e = (ground arith, ones_of_all_ones used (ground arith))

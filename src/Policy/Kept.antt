-- ===== src/Policy/Kept.antt =====
-- Which snapshots a policy is sure to keep.
use Prim.Native.String.{String}
use vlbe.Base.{
  ℕ, zero, suc, ◌+◌, ◌-◌, ◌<◌, ◌≡◌, refl, sym, ap, subst, ◌⊎◌, inl, inr, Bool, true, false, ◌&&◌,
  ◌||◌, Bool-cases, Option, none, some, List, [], ◌∷◌, ◌++◌, length, arith, In, ltb, ◌==◌,
  if◌then◌else◌, length-append,
}
use vlbe.Policy.{
  ℤ, pos, negsuc, Snapshot, TimeLib, ExpirePolicy, Reason, Bucket, BucketWithin, Applied, place,
  policy_loop, apply_policy, less, update_buckets, tag_marks, within_marks, Marks, buckets,
  find_latest_timestamp, fires, next_bucket, has_left, count_down, differs, has_tags, has_tags_of,
  back_by, is_zero_duration, within_duration,
}
use vlbe.Policy.Marked.{IsMarked, marks_of, marks_of-IsMarked, marked-In}

In-append_left : {A : Type 0} (x : A) (xs ys : List A) → In x xs → In x (xs ++ ys)
In-append_left x [] ys i = absurd i
In-append_left x (y ∷ xs) ys (inl e) = inl e
In-append_left x (y ∷ xs) ys (inr i) = inr (In-append_left x xs ys i)

In-append_right : {A : Type 0} (x : A) (xs ys : List A) → In x ys → In x (xs ++ ys)
In-append_right x [] ys i = i
In-append_right x (y ∷ xs) ys i = inr (In-append_right x xs ys i)

-- the value of the item before, and the number of runs of one value
abbrev pub value_before :
    {Time : Type 0} → (Time → ℕ → ℕ) → Option ℕ → ℕ → List (Snapshot Time) → Option ℕ
value_before f v nr [] = v
value_before f v nr (x ∷ xs) = value_before f (some (f x.time nr)) (nr + 1) xs

abbrev pub runs : {Time : Type 0} → (Time → ℕ → ℕ) → Option ℕ → ℕ → List (Snapshot Time) → ℕ
runs f v nr [] = 0
runs f v nr (x ∷ xs) =
    (if differs (f x.time nr) v then 1 else 0) + runs f (some (f x.time nr)) (nr + 1) xs

-- whether a count lasts for another run after `k`
abbrev pub lasts : ℤ → ℕ → Bool
lasts (pos n) k = ltb k n
lasts (negsuc zero) k = true
lasts (negsuc (suc n)) k = false

lasts-has_left : (c : ℤ) (k : ℕ) → lasts c k ≡ true → has_left c ≡ true
unfolding has_left
lasts-has_left (pos zero) k e = ground arith
lasts-has_left (pos (suc n)) k e = refl
lasts-has_left (negsuc zero) k e = refl
lasts-has_left (negsuc (suc n)) k e = e

lasts-count_down : (c : ℤ) (k : ℕ) → lasts c (1 + k) ≡ true → lasts (count_down c) k ≡ true
unfolding count_down
lasts-count_down (pos zero) k e = ground arith
lasts-count_down (pos (suc n)) k e = ground arith
lasts-count_down (negsuc zero) k e = refl
lasts-count_down (negsuc (suc n)) k e = e

differs_not : (val : ℕ) (v : Option ℕ) → differs val v ≡ false → v ≡ some val
unfolding differs
differs_not val none e = absurd (cc)
differs_not val (some v) e = let same : val ≡ v = ground arith in ap some (sym same)

module _ {Time : Type 0} (lib : TimeLib Time) where
  -- the bucket when the loop has passed the snapshots
  bucket_after : ℕ → ℕ → List (Snapshot Time) → Bucket Time → Bucket Time
  bucket_after total nr [] b = b
  bucket_after total nr (x ∷ xs) b =
      bucket_after total (nr + 1) xs (next_bucket lib total nr x.time b)

  place-In :
      (cur : Snapshot Time) (m : Marks) (counts : List ℤ) (rest : Applied Time) (r : Reason)
      → IsMarked m
      → In r m.1
      → In cur (place lib cur m counts rest).keep
  unfolding place
  place-In cur m counts rest r marked i = rw (marked-In r m marked i) (inl refl)

  place_rest :
      (cur x : Snapshot Time) (m : Marks) (counts : List ℤ) (rest : Applied Time)
      → In x rest.keep
      → In x (place lib cur m counts rest).keep
  unfolding place
  place_rest cur x (true, rs) counts rest i = inr i
  place_rest cur x (false, rs) counts rest i = i

  fires-reason :
      (total nr : ℕ) (t : Time) (bs : List (Bucket Time)) (b : Bucket Time)
      → In b bs
      → fires lib total nr t b ≡ true
      → In b.reason (update_buckets lib total nr t bs).1.1
  unfolding update_buckets
  fires-reason total nr t [] b i e = absurd i
  fires-reason total nr t (b' ∷ bs) b (inl same) e =
      let e' = subst (λ c. fires lib total nr t c ≡ true) same e in
      rw e' (inl (ap (λ c. c.reason) same))
  fires-reason total nr t (b' ∷ bs) b (inr i) e = elim (Bool-cases (fires lib total nr t b')) [
    | inl hit ↦ rw hit (inr (fires-reason total nr t bs b i e))
    | inr miss ↦ rw miss (fires-reason total nr t bs b i e)
  ]

  next_bucket-In :
      (total nr : ℕ) (t : Time) (bs : List (Bucket Time)) (b : Bucket Time)
      → In b bs
      → In (next_bucket lib total nr t b) (update_buckets lib total nr t bs).0
  unfolding update_buckets
  next_bucket-In total nr t [] b i = absurd i
  next_bucket-In total nr t (b' ∷ bs) b (inl same) = inl (ap (next_bucket lib total nr t) same)
  next_bucket-In total nr t (b' ∷ bs) b (inr i) = inr (next_bucket-In total nr t bs b i)

  -- a bucket that fires at a snapshot keeps it
  fires_kept :
      (p : ExpirePolicy) (latest : Time) (total nr : ℕ) (bs : List (Bucket Time))
      (ws : List (BucketWithin Time)) (pre : List (Snapshot Time)) (x : Snapshot Time)
      (post : List (Snapshot Time)) (b : Bucket Time)
      → In b bs
      → fires lib total (nr + length pre) x.time (bucket_after total nr pre b) ≡ true
      → In x (policy_loop lib p latest total nr bs ws (pre ++ x ∷ post)).keep
  unfolding policy_loop bucket_after
  fires_kept p latest total nr bs ws [] x post b i e =
      let e' = subst (λ k. fires lib total k x.time b ≡ true) (omega arith) e in
      place-In x (marks_of lib p latest total nr bs ws x) _ _ b.reason
        (marks_of-IsMarked lib p latest total nr bs ws x)
        (In-append_right b.reason (tag_marks p.tags x.tags).1 _ (
          In-append_right b.reason (within_marks lib latest p.within x.time).1 _ (
            In-append_left b.reason (update_buckets lib total nr x.time bs).1.1 _
              (fires-reason total nr x.time bs b i e'))))
  fires_kept p latest total nr bs ws (y ∷ pre) x post b i e =
      let e' =
        subst
          (λ k.
            fires lib total k x.time
              (bucket_after total (nr + 1) pre (next_bucket lib total nr y.time b))
            ≡ true)
          (omega arith) e in
      place_rest y x _ _ _ (
        fires_kept p latest total (nr + 1) _ _ pre x post _ (next_bucket-In total nr y.time bs b i)
          e')

  -- while its count lasts, a bucket has counted the runs so far and remembers the last value
  next_bucket-lasts :
      (total nr k : ℕ) (t : Time) (b : Bucket Time)
      → nr + 1 < total
      → lasts b.count ((if differs (b.bucker t nr) b.last_value then 1 else 0) + k) ≡ true
      → (lasts (next_bucket lib total nr t b).count k ≡ true)
        × ((next_bucket lib total nr t b).bucker ≡ b.bucker)
        × ((next_bucket lib total nr t b).last_value ≡ some (b.bucker t nr))
  unfolding next_bucket fires has_left count_down
  next_bucket-lasts total nr k t b room e =
      elim (Bool-cases (differs (b.bucker t nr) b.last_value)) [
        | inl new ↦
            let e' = subst (λ d. lasts b.count ((if d then 1 else 0) + k) ≡ true) new e in
            let left = lasts-has_left b.count (1 + k) e' in
            rw (left, new) (lasts-count_down b.count k e', refl, refl)
        | inr old ↦
            let e' = subst (λ d. lasts b.count ((if d then 1 else 0) + k) ≡ true) old e in
            let before : (nr == total - 1) ≡ false = ground arith in
            let still : (has_left b.count && (false || false)) ≡ false = ground arith in
            rw (old, before, still)
              (
                subst (λ j. lasts b.count j ≡ true) (omega arith) e',
                refl,
                differs_not (b.bucker t nr) b.last_value old,
              )
      ]

  -- a bucket whose count lasts fires at the start of a run and at the last snapshot
  fires_after :
      (total nr : ℕ) (pre : List (Snapshot Time)) (x : Snapshot Time) (b : Bucket Time)
      → nr + length pre < total
      → lasts b.count (runs b.bucker b.last_value nr pre) ≡ true
      → (differs (b.bucker x.time (nr + length pre)) (value_before b.bucker b.last_value nr pre)
          ≡ true)
        ⊎ (nr + length pre + 1 ≡ total)
      → fires lib total (nr + length pre) x.time (bucket_after total nr pre b) ≡ true
  unfolding bucket_after fires
  fires_after total nr [] x b room e start =
      let left = lasts-has_left b.count 0 e in
      elim start [
        | inl new ↦ rw (left, new) refl
        | inr end ↦
            let here : (nr + length {A = Snapshot Time} [] == total - 1) ≡ true = ground arith in
            rw (left, here) (ground arith)
      ]
  fires_after total nr (y ∷ pre) x b room e start =
      let f = b.bucker in
      let v = some (b.bucker y.time nr) in
      let (lasts', same, last) =
        next_bucket-lasts total nr (runs f v (nr + 1) pre) y.time b (omega arith) e in
      let shift : nr + 1 + length pre ≡ nr + length (y ∷ pre) = omega arith in
      subst
        (λ k.
          fires lib total k x.time
            (bucket_after total (nr + 1) pre (next_bucket lib total nr y.time b))
          ≡ true)
        shift
        (fires_after total (nr + 1) pre x (next_bucket lib total nr y.time b) (omega arith)
          (rw (same, last) lasts') (rw (same, last, shift) start))

  -- Let the sorted list be `pre ++ x ∷ post`, and `b` one of the six counted buckets (last, hourly, daily,
  -- weekly, monthly, yearly). If the count of `b` is -1, or greater than the number of runs of one value
  -- (one hour, one day, …) before `x`, then `ApplyPolicy` keeps `x` where `x` begins a run, thus is the
  -- newest of its hour, its day, …, and where `x` is the oldest snapshot of all.
  pub newest_of_run_kept :
      (now : Time) (list pre : List (Snapshot Time)) (x : Snapshot Time)
      (post : List (Snapshot Time)) (p : ExpirePolicy) (b : Bucket Time)
      → lib.sort_stable (less lib) list ≡ pre ++ x ∷ post
      → In b (buckets lib p)
      → lasts b.count (runs b.bucker b.last_value 0 pre) ≡ true
      → (differs (b.bucker x.time (length pre)) (value_before b.bucker b.last_value 0 pre) ≡ true)
        ⊎ (post ≡ [])
      → In x (apply_policy lib now list p).keep
  unfolding apply_policy
  newest_of_run_kept now list pre x post p b sorted i e start =
      let total = length (pre ++ x ∷ post) in
      let sizes = length-append pre (x ∷ post) in
      let zero_more : 0 + length pre ≡ length pre = omega arith in
      let start' : (differs (b.bucker x.time (0 + length pre))
              (value_before b.bucker b.last_value 0 pre)
            ≡ true)
          ⊎ (0 + length pre + 1 ≡ total) =
        elim start [
          | inl new ↦ inl (rw zero_more new)
          | inr end ↦ inr (omega (arith, sizes, ap length end))
        ] in
      let hit = fires_after total 0 pre x b (omega (arith, sizes)) e start' in
      rw sorted (fires_kept p _ total 0 (buckets lib p) _ pre x post b i hit)

tag_marks-In :
    (ls : List (List String)) (l sn_tags : List String)
    → In l ls
    → has_tags sn_tags l ≡ true
    → In (has_tags_of l) (tag_marks ls sn_tags).1
unfolding tag_marks
tag_marks-In [] l sn_tags i e = absurd i
tag_marks-In (l' ∷ ls) l sn_tags (inl same) e =
    let e' = subst (λ c. has_tags sn_tags c ≡ true) same e in rw e' (inl (ap has_tags_of same))
tag_marks-In (l' ∷ ls) l sn_tags (inr i) e = elim (Bool-cases (has_tags sn_tags l')) [
  | inl hit ↦ rw hit (inr (tag_marks-In ls l sn_tags i e))
  | inr miss ↦ rw miss (tag_marks-In ls l sn_tags i e)
]

module _ {Time : Type 0} (lib : TimeLib Time) where
  -- a tag list of the policy or its duration keeps a snapshot
  abbrev pub IsWanted : ExpirePolicy → Time → Snapshot Time → Type 0
  IsWanted p latest x =
      ((l : List String) × In l p.tags × (has_tags x.tags l ≡ true))
      ⊎ ((is_zero_duration p.within ≡ false)
          × (lib.after x.time (back_by lib latest p.within) ≡ true))

  wanted_kept :
      (p : ExpirePolicy) (latest : Time) (total nr : ℕ) (bs : List (Bucket Time))
      (ws : List (BucketWithin Time)) (list : List (Snapshot Time)) (x : Snapshot Time)
      → In x list
      → IsWanted p latest x
      → In x (policy_loop lib p latest total nr bs ws list).keep
  unfolding policy_loop within_marks
  wanted_kept p latest total nr bs ws [] x i w = absurd i
  wanted_kept p latest total nr bs ws (y ∷ list) x (inr i) w =
      place_rest lib y x _ _ _ (wanted_kept p latest total (nr + 1) _ _ list x i w)
  wanted_kept p latest total nr bs ws (y ∷ list) x (inl same) (inl (l, i, e)) =
      let e' = subst (λ c. has_tags c.tags l ≡ true) same e in
      let found = tag_marks-In p.tags l y.tags i e' in
      subst (λ c. In c (policy_loop lib p latest total nr bs ws (y ∷ list)).keep) (sym same)
        (place-In lib y (marks_of lib p latest total nr bs ws y) _ _ (has_tags_of l)
          (marks_of-IsMarked lib p latest total nr bs ws y)
          (In-append_left (has_tags_of l) (tag_marks p.tags y.tags).1 _ found))
  wanted_kept p latest total nr bs ws (y ∷ list) x (inl same) (inr (nonzero, recent)) =
      let recent' =
        subst (λ c. lib.after c.time (back_by lib latest p.within) ≡ true) same recent in
      let here : In (within_duration p.within) (within_marks lib latest p.within y.time).1 =
        rw (nonzero, recent') (inl refl) in
      subst (λ c. In c (policy_loop lib p latest total nr bs ws (y ∷ list)).keep) (sym same)
        (place-In lib y (marks_of lib p latest total nr bs ws y) _ _ (within_duration p.within)
          (marks_of-IsMarked lib p latest total nr bs ws y)
          (In-append_right (within_duration p.within) (tag_marks p.tags y.tags).1 _ (
            In-append_left (within_duration p.within) (within_marks lib latest p.within y.time).1 _
              here)))

  -- `ApplyPolicy` keeps every snapshot that has all tags of one of the policy's tag lists, and, where the
  -- policy's `Within` is not zero, every snapshot made after the latest time that is not in the future,
  -- less that duration.
  pub tagged_or_recent_kept :
      (now : Time) (list : List (Snapshot Time)) (p : ExpirePolicy) (x : Snapshot Time)
      → In x (lib.sort_stable (less lib) list)
      → IsWanted p (find_latest_timestamp lib now (lib.sort_stable (less lib) list)) x
      → In x (apply_policy lib now list p).keep
  unfolding apply_policy
  tagged_or_recent_kept now list p x i w =
      wanted_kept p _ _ 0 _ _ (lib.sort_stable (less lib) list) x i w

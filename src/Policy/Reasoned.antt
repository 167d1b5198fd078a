-- ===== src/Policy/Reasoned.antt =====
-- The reasons that `ApplyPolicy` gives are true.
use Prim.Native.String.{String}
use vlbe.Base.{
  ℕ, zero, suc, ◌≡◌, refl, inl, inr, Bool, true, false, ◌&&◌, not, Bool-cases, List, [], ◌∷◌,
  if◌then◌else◌, In, All, All-append, arith,
}
use vlbe.Policy.{
  ℤ, pos, negsuc, Snapshot, TimeLib, ExpirePolicy, Duration, Reason, has_tags_of, within_duration,
  last_snapshot, hourly_snapshot, daily_snapshot, weekly_snapshot, monthly_snapshot,
  yearly_snapshot, hourly_within, daily_within, weekly_within, monthly_within, yearly_within,
  Bucket, BucketWithin, Marks, no_mark, add_mark, tag_marks, within_marks, update_buckets,
  update_within, next_bucket, next_within, fires, fires_within, has_left, count_down, has_tags,
  back_by, is_zero_duration, buckets, buckets_within,
}
use vlbe.Policy.Marked.{marks_of}

has_left-count_down : (c : ℤ) → has_left (count_down c) ≡ true → has_left c ≡ true
unfolding has_left count_down
has_left-count_down (pos zero) e = e
has_left-count_down (pos (suc n)) e = refl
has_left-count_down (negsuc n) e = e

module _ {Time : Type 0} (lib : TimeLib Time) (p : ExpirePolicy) (latest : Time) where
  -- a duration of the policy that is not zero, and reaches back to the snapshot
  abbrev pub IsWithin : Duration → Duration → Snapshot Time → Type 0
  IsWithin asked d sn =
      (d ≡ asked) × (is_zero_duration d ≡ false) × (lib.after sn.time (back_by lib latest d) ≡ true)

  -- what a reason says of a snapshot and the policy
  abbrev pub IsTrue : Snapshot Time → Reason → Type 0
  IsTrue sn (has_tags_of l) = In l p.tags × (has_tags sn.tags l ≡ true)
  IsTrue sn (within_duration d) = IsWithin p.within d sn
  IsTrue sn last_snapshot = has_left p.last ≡ true
  IsTrue sn hourly_snapshot = has_left p.hourly ≡ true
  IsTrue sn daily_snapshot = has_left p.daily ≡ true
  IsTrue sn weekly_snapshot = has_left p.weekly ≡ true
  IsTrue sn monthly_snapshot = has_left p.monthly ≡ true
  IsTrue sn yearly_snapshot = has_left p.yearly ≡ true
  IsTrue sn (hourly_within d) = IsWithin p.within_hourly d sn
  IsTrue sn (daily_within d) = IsWithin p.within_daily d sn
  IsTrue sn (weekly_within d) = IsWithin p.within_weekly d sn
  IsTrue sn (monthly_within d) = IsWithin p.within_monthly d sn
  IsTrue sn (yearly_within d) = IsWithin p.within_yearly d sn

  abbrev pub AllTrue : Snapshot Time → Marks → Type 0
  AllTrue sn m = All (IsTrue sn) m.1

  -- what the buckets may say
  abbrev pub IsHonest : Bucket Time → Type 0
  IsHonest b = has_left b.count ≡ true → (sn : Snapshot Time) → IsTrue sn b.reason

  abbrev pub IsHonestWithin : BucketWithin Time → Type 0
  IsHonestWithin b =
      (sn : Snapshot Time)
      → is_zero_duration b.within ≡ false
      → lib.after sn.time (back_by lib latest b.within) ≡ true
      → IsTrue sn (b.reason b.within)

  if-AllTrue :
      (sn : Snapshot Time) (b : Bool) (r : Reason) (m : Marks)
      → (b ≡ true → IsTrue sn r)
      → AllTrue sn m
      → AllTrue sn (if b then add_mark r m else m)
  if-AllTrue sn true r m told h = (told refl, h)
  if-AllTrue sn false r m told h = h

  tag_marks-AllTrue :
      (sn : Snapshot Time) (ls : List (List String))
      → ((l : List String) → In l ls → In l p.tags)
      → AllTrue sn (tag_marks ls sn.tags)
  unfolding tag_marks
  tag_marks-AllTrue sn [] among = tt
  tag_marks-AllTrue sn (l ∷ ls) among =
      if-AllTrue sn (has_tags sn.tags l) (has_tags_of l) (tag_marks ls sn.tags)
        (λ e. (among l (inl refl), e)) (tag_marks-AllTrue sn ls (λ k i. among k (inr i)))

  within_marks-AllTrue :
      (sn : Snapshot Time) → AllTrue sn (within_marks lib latest p.within sn.time)
  unfolding within_marks
  within_marks-AllTrue sn =
      if-AllTrue sn
        (not (is_zero_duration p.within) && lib.after sn.time (back_by lib latest p.within))
        (within_duration p.within) no_mark (λ e. (refl, ground arith, ground arith)) tt

  next_bucket-IsHonest :
      (total nr : ℕ) (t : Time) (b : Bucket Time)
      → IsHonest b
      → IsHonest (next_bucket lib total nr t b)
  unfolding next_bucket
  next_bucket-IsHonest total nr t b h = elim (Bool-cases (fires lib total nr t b)) [
    | inl hit ↦ rw hit (λ left. h (has_left-count_down b.count left))
    | inr miss ↦ rw miss h
  ]

  pub update_buckets-IsHonest :
      (total nr : ℕ) (t : Time) (bs : List (Bucket Time))
      → All IsHonest bs
      → All IsHonest (update_buckets lib total nr t bs).0
  unfolding update_buckets
  update_buckets-IsHonest total nr t [] h = tt
  update_buckets-IsHonest total nr t (b ∷ bs) (here, h) =
      (next_bucket-IsHonest total nr t b here, update_buckets-IsHonest total nr t bs h)

  update_buckets-AllTrue :
      (total nr : ℕ) (sn : Snapshot Time) (bs : List (Bucket Time))
      → All IsHonest bs
      → AllTrue sn (update_buckets lib total nr sn.time bs).1
  unfolding update_buckets fires
  update_buckets-AllTrue total nr sn [] h = tt
  update_buckets-AllTrue total nr sn (b ∷ bs) (here, h) =
      if-AllTrue sn (fires lib total nr sn.time b) b.reason
        (update_buckets lib total nr sn.time bs).1 (λ e. here (ground arith) sn)
        (update_buckets-AllTrue total nr sn bs h)

  next_within-IsHonest :
      (total nr : ℕ) (t : Time) (b : BucketWithin Time)
      → IsHonestWithin b
      → IsHonestWithin (next_within lib total nr latest t b)
  unfolding next_within
  next_within-IsHonest total nr t b h = elim (Bool-cases (fires_within lib total nr latest t b)) [
    | inl hit ↦ rw hit h
    | inr miss ↦ rw miss h
  ]

  pub update_within-IsHonest :
      (total nr : ℕ) (t : Time) (ws : List (BucketWithin Time))
      → All IsHonestWithin ws
      → All IsHonestWithin (update_within lib total nr latest t ws).0
  unfolding update_within
  update_within-IsHonest total nr t [] h = tt
  update_within-IsHonest total nr t (b ∷ ws) (here, h) =
      (next_within-IsHonest total nr t b here, update_within-IsHonest total nr t ws h)

  update_within-AllTrue :
      (total nr : ℕ) (sn : Snapshot Time) (ws : List (BucketWithin Time))
      → All IsHonestWithin ws
      → AllTrue sn (update_within lib total nr latest sn.time ws).1
  unfolding update_within fires_within
  update_within-AllTrue total nr sn [] h = tt
  update_within-AllTrue total nr sn (b ∷ ws) (here, h) =
      if-AllTrue sn (fires_within lib total nr latest sn.time b) (b.reason b.within)
        (update_within lib total nr latest sn.time ws).1
        (λ e. here sn (ground arith) (ground arith)) (update_within-AllTrue total nr sn ws h)

  pub marks_of-AllTrue :
      (total nr : ℕ) (bs : List (Bucket Time)) (ws : List (BucketWithin Time)) (sn : Snapshot Time)
      → All IsHonest bs
      → All IsHonestWithin ws
      → AllTrue sn (marks_of lib p latest total nr bs ws sn)
  marks_of-AllTrue total nr bs ws sn h w =
      All-append (IsTrue sn) (tag_marks p.tags sn.tags).1 _ (tag_marks-AllTrue sn p.tags (λ l i. i))
        (All-append (IsTrue sn) (within_marks lib latest p.within sn.time).1 _
          (within_marks-AllTrue sn)
          (All-append (IsTrue sn) (update_buckets lib total nr sn.time bs).1.1
            (update_within lib total nr latest sn.time ws).1.1
            (update_buckets-AllTrue total nr sn bs h) (update_within-AllTrue total nr sn ws w)))

  -- the buckets that the policy begins with
  pub buckets-IsHonest : All IsHonest (buckets lib p)
  unfolding buckets
  buckets-IsHonest = (
    λ left sn. left,
    (
      λ left sn. left,
      (λ left sn. left, (λ left sn. left, (λ left sn. left, (λ left sn. left, tt)))),
    ),
  )

  pub buckets_within-IsHonest : All IsHonestWithin (buckets_within lib p)
  unfolding buckets_within
  buckets_within-IsHonest = (
    λ sn nonzero recent. (refl, nonzero, recent),
    (
      λ sn nonzero recent. (refl, nonzero, recent),
      (
        λ sn nonzero recent. (refl, nonzero, recent),
        (
          λ sn nonzero recent. (refl, nonzero, recent),
          (λ sn nonzero recent. (refl, nonzero, recent), tt),
        ),
      ),
    ),
  )

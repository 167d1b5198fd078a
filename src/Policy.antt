-- ===== src/Policy.antt =====
-- internal/restic/snapshot_policy.go, with `HasTags` of snapshot.go and `Duration` of duration.go:
-- which snapshots a policy keeps. Times and the stable sort belong to Go's library and are the
-- record `TimeLib`. Years are not negative, as in every time that a snapshot is stored with. The text
-- of a reason is a constructor of `Reason`, and `none` is the -1 that a bucket starts with.
pub mod Types
pub mod Marked
pub mod Reasoned
pub mod Partition
pub mod Kept
use Prim.Native.String.{String}
use text.Mathlib.Text.{◌==◌ as str_eq}
use vlbe.Base.{
  ℕ, zero, suc, ◌+◌, ◌-◌, ◌*◌, Bool, true, false, ◌&&◌, ◌||◌, not, List, [], ◌∷◌, ◌++◌, Option,
  none, some, length, ◌==◌, if◌then◌else◌,
}
unfoldable pub use vlbe.Policy.Types.{negate, is_zero, is_zero_duration}
pub use vlbe.Policy.Types.{
  ℤ, pos, negsuc, Duration, Snapshot, TimeLib, ExpirePolicy, Reason, has_tags_of, within_duration,
  last_snapshot, hourly_snapshot, daily_snapshot, weekly_snapshot, monthly_snapshot,
  yearly_snapshot, hourly_within, daily_within, weekly_within, monthly_within, yearly_within,
  Bucket, BucketWithin, KeepReason, Applied, Marks, no_mark, add_mark, join_marks,
}

-- `b.Count > 0 || b.Count == -1`
unfoldable pub has_left : ℤ → Bool
has_left (pos zero) = false
has_left (pos (suc n)) = true
has_left (negsuc zero) = true
has_left (negsuc (suc n)) = false

-- `if buckets[i].Count > 0 { buckets[i].Count-- }`
unfoldable pub count_down : ℤ → ℤ
count_down (pos zero) = pos zero
count_down (pos (suc n)) = pos n
count_down (negsuc n) = negsuc n

-- `val != b.Last`
unfoldable pub differs : ℕ → Option ℕ → Bool
differs val none = true
differs val (some v) = not (val == v)

-- `hasTag`
unfoldable pub has_tag : String → List String → Bool
has_tag tag [] = false
has_tag tag (t ∷ ts) = str_eq tag t || has_tag tag ts

unfoldable pub no_tags : List String → Bool
no_tags [] = true
no_tags (t ∷ ts) = false

-- `HasTags`
unfoldable pub has_tags : List String → List String → Bool
has_tags sn_tags [] = true
has_tags sn_tags (tag ∷ l) =
    let rest = has_tags sn_tags l in
    if str_eq tag "" && no_tags sn_tags
    then true
    else if not (has_tag tag sn_tags)
    then false
    else rest

-- the loop over the tag lists of the policy
unfoldable pub tag_marks : List (List String) → List String → Marks
tag_marks [] sn_tags = no_mark
tag_marks (l ∷ ls) sn_tags =
    let rest = tag_marks ls sn_tags in
    if has_tags sn_tags l then add_mark (has_tags_of l) rest else rest

module _ {Time : Type 0} (lib : TimeLib Time) where
  unfoldable pub ymdh : Time → ℕ → ℕ
  ymdh d nr = lib.year d * 1000000 + lib.month d * 10000 + lib.day d * 100 + lib.hour d

  unfoldable pub ymd : Time → ℕ → ℕ
  ymd d nr = lib.year d * 10000 + lib.month d * 100 + lib.day d

  unfoldable pub yw : Time → ℕ → ℕ
  yw d nr = let (year, week) = lib.iso_week d in year * 100 + week

  unfoldable pub ym : Time → ℕ → ℕ
  ym d nr = lib.year d * 100 + lib.month d

  unfoldable pub y : Time → ℕ → ℕ
  y d nr = lib.year d

  unfoldable pub always : Time → ℕ → ℕ
  always d nr = nr

  -- the loop of `findLatestTimestamp`
  unfoldable pub latest_from : Time → Time → List (Snapshot Time) → Time
  latest_from now latest [] = latest
  latest_from now latest (sn ∷ list) =
      latest_from now
        (if lib.after sn.time latest && lib.before sn.time now then sn.time else latest) list

  -- `findLatestTimestamp` of a list that is not empty
  unfoldable pub find_latest_timestamp : Time → List (Snapshot Time) → Time
  find_latest_timestamp now list = latest_from now lib.zero_time list

  -- the time from which a duration before `latest` keeps
  unfoldable pub back_by : Time → Duration → Time
  back_by latest d =
      lib.add_hours (lib.add_date latest (negate d.years) (negate d.months) (negate d.days))
        (negate d.hours)

  -- the test of the policy's `Within`
  unfoldable pub within_marks : Time → Duration → Time → Marks
  within_marks latest d t =
      if not (is_zero_duration d) && lib.after t (back_by latest d)
      then add_mark (within_duration d) no_mark
      else no_mark

  -- whether a bucket keeps snapshot number `nr` of `total`
  unfoldable pub fires : ℕ → ℕ → Time → Bucket Time → Bool
  fires total nr t b = has_left b.count && (differs (b.bucker t nr) b.last_value || nr == total - 1)

  unfoldable pub next_bucket : ℕ → ℕ → Time → Bucket Time → Bucket Time
  next_bucket total nr t b =
      if fires total nr t b
      then record {
        count = count_down b.count;
        bucker = b.bucker;
        last_value = some (b.bucker t nr);
        reason = b.reason;
      }
      else b

  -- the loop over `buckets`
  unfoldable pub update_buckets : ℕ → ℕ → Time → List (Bucket Time) → List (Bucket Time) × Marks
  update_buckets total nr t [] = ([], no_mark)
  update_buckets total nr t (b ∷ bs) =
      let (bs', marks) = update_buckets total nr t bs in
      (
        next_bucket total nr t b ∷ bs',
        if fires total nr t b then add_mark b.reason marks else marks,
      )

  unfoldable pub fires_within : ℕ → ℕ → Time → Time → BucketWithin Time → Bool
  fires_within total nr latest t b =
      not (is_zero_duration b.within)
      && (lib.after t (back_by latest b.within)
          && (differs (b.bucker t nr) b.last_value || nr == total - 1))

  unfoldable pub next_within : ℕ → ℕ → Time → Time → BucketWithin Time → BucketWithin Time
  next_within total nr latest t b =
      if fires_within total nr latest t b
      then record {
        within = b.within;
        bucker = b.bucker;
        last_value = some (b.bucker t nr);
        reason = b.reason;
      }
      else b

  -- the loop over `bucketsWithin`
  unfoldable pub update_within :
      ℕ → ℕ → Time → Time → List (BucketWithin Time) → List (BucketWithin Time) × Marks
  update_within total nr latest t [] = ([], no_mark)
  update_within total nr latest t (b ∷ bs) =
      let (bs', marks) = update_within total nr latest t bs in
      (
        next_within total nr latest t b ∷ bs',
        if fires_within total nr latest t b then add_mark (b.reason b.within) marks else marks,
      )

  unfoldable pub counts_of : List (Bucket Time) → List ℤ
  counts_of [] = []
  counts_of (b ∷ bs) = b.count ∷ counts_of bs

  -- `if keepSnap`
  unfoldable pub place : Snapshot Time → Marks → List ℤ → Applied Time → Applied Time
  place cur (keep_snap, reasons) counts rest =
      if keep_snap
      then record {
        keep = cur ∷ rest.keep;
        remove = rest.remove;
        reasons = record { snapshot = cur; matches = reasons; counters = counts } ∷ rest.reasons;
      }
      else record { keep = rest.keep; remove = cur ∷ rest.remove; reasons = rest.reasons }

  unfoldable pub policy_loop :
      ExpirePolicy
      → Time
      → ℕ
      → ℕ
      → List (Bucket Time)
      → List (BucketWithin Time)
      → List (Snapshot Time)
      → Applied Time
  policy_loop p latest total nr bs ws [] = record { keep = []; remove = []; reasons = [] }
  policy_loop p latest total nr bs ws (cur ∷ list) =
      let (bs', by_count) = update_buckets total nr cur.time bs in
      let (ws', by_time) = update_within total nr latest cur.time ws in
      let marks =
        join_marks (tag_marks p.tags cur.tags)
          (join_marks (within_marks latest p.within cur.time) (join_marks by_count by_time)) in
      place cur marks (counts_of bs') (policy_loop p latest total (nr + 1) bs' ws' list)

  unfoldable pub buckets : ExpirePolicy → List (Bucket Time)
  buckets p =
      record { count = p.last; bucker = always; last_value = none; reason = last_snapshot }
      ∷ record { count = p.hourly; bucker = ymdh; last_value = none; reason = hourly_snapshot }
      ∷ record { count = p.daily; bucker = ymd; last_value = none; reason = daily_snapshot }
      ∷ record { count = p.weekly; bucker = yw; last_value = none; reason = weekly_snapshot }
      ∷ record { count = p.monthly; bucker = ym; last_value = none; reason = monthly_snapshot }
      ∷ record { count = p.yearly; bucker = y; last_value = none; reason = yearly_snapshot }
      ∷ []

  unfoldable pub buckets_within : ExpirePolicy → List (BucketWithin Time)
  buckets_within p =
      record { within = p.within_hourly; bucker = ymdh; last_value = none; reason = hourly_within }
      ∷ record { within = p.within_daily; bucker = ymd; last_value = none; reason = daily_within }
      ∷ record { within = p.within_weekly; bucker = yw; last_value = none; reason = weekly_within }
      ∷ record {
        within = p.within_monthly;
        bucker = ym;
        last_value = none;
        reason = monthly_within;
      }
      ∷ record { within = p.within_yearly; bucker = y; last_value = none; reason = yearly_within }
      ∷ []

  -- `Snapshots.Less`: the newest first
  unfoldable pub less : Snapshot Time → Snapshot Time → Bool
  less a b = lib.after a.time b.time

  -- `ApplyPolicy` at the time `now`; of no snapshots the loop keeps and removes none, as the early
  -- return does.
  unfoldable pub apply_policy : Time → List (Snapshot Time) → ExpirePolicy → Applied Time
  apply_policy now list p =
      let sorted = lib.sort_stable less list in
      policy_loop p (find_latest_timestamp now sorted) (length sorted) 0 (buckets p)
        (buckets_within p) sorted

-- ===== src/Tests/Policy.antt =====
-- Runs of a policy, with times that are numbers of hours.
use Prim.Native.String.{String}
use vlbe.Base.{ℕ, ◌+◌, ◌-◌, ◌/◌, ◌%◌, ◌≡◌, inl, inr, refl, List, [], ◌∷◌, none, ltb, map, In}
use vlbe.Policy.{
  pos, negsuc, Duration, Snapshot, TimeLib, ExpirePolicy, Bucket, daily_snapshot, apply_policy,
  policy_loop, less, buckets, buckets_within, update_buckets, update_within, next_bucket,
  next_within, fires, fires_within, differs, has_left, count_down, place, counts_of, tag_marks,
  within_marks, has_tags, has_tag, no_tags, is_zero_duration, is_zero, negate, back_by,
  find_latest_timestamp, latest_from, ymdh, ymd, yw, ym, y, always,
}
use vlbe.Policy.Kept.{newest_of_run_kept, tagged_or_recent_kept}

-- 720 hours are a month, and 8640 a year; the lists are sorted already
abbrev hours_lib : TimeLib ℕ
hours_lib = record {
  zero_time = 0;
  after = λ t u. ltb u t;
  before = λ t u. ltb t u;
  year = λ t. t / 8640;
  month = λ t. t % 8640 / 720;
  day = λ t. t % 720 / 24;
  hour = λ t. t % 24;
  iso_week = λ t. (t / 8640, t % 8640 / 168);
  add_date = λ t years months days. t;
  add_hours = λ t hours. elim hours [ pos n ↦ t + n | negsuc n ↦ t - (n + 1) ];
  sort_stable = λ less list. list;
}

abbrev no_duration : Duration
no_duration = record { hours = pos 0; days = pos 0; months = pos 0; years = pos 0 }

abbrev two_daily : ExpirePolicy
two_daily = record {
  last = pos 0;
  hourly = pos 0;
  daily = pos 2;
  weekly = pos 0;
  monthly = pos 0;
  yearly = pos 0;
  within = record { hours = pos 3; days = pos 0; months = pos 0; years = pos 0 };
  within_hourly = no_duration;
  within_daily = no_duration;
  within_weekly = no_duration;
  within_monthly = no_duration;
  within_yearly = no_duration;
  tags = ("pinned" ∷ []) ∷ [];
}

abbrev snapshot : ℕ → ℕ → List String → Snapshot ℕ
snapshot id time tags = record { id = id; time = time; tags = tags }

-- two snapshots of one day, two of the day before, and two of the day before that
abbrev newest : Snapshot ℕ
newest = snapshot 1 100 []

abbrev same_day : Snapshot ℕ
same_day = snapshot 2 96 []

abbrev day_before : Snapshot ℕ
day_before = snapshot 3 90 []

abbrev pinned : Snapshot ℕ
pinned = snapshot 4 80 ("pinned" ∷ [])

abbrev older : List (Snapshot ℕ)
older = pinned ∷ snapshot 5 60 [] ∷ snapshot 6 50 [] ∷ []

abbrev all_snapshots : List (Snapshot ℕ)
all_snapshots = newest ∷ same_day ∷ day_before ∷ older

abbrev ids : List (Snapshot ℕ) → List ℕ
ids list = map (λ s. s.id) list

two_daily_keeps : ids (apply_policy hours_lib 1000 all_snapshots two_daily).keep ≡ 1 ∷ 3 ∷ 4 ∷ []
unfolding apply_policy policy_loop buckets buckets_within update_buckets update_within next_bucket
    next_within fires fires_within differs has_left count_down place counts_of tag_marks
    within_marks has_tags has_tag no_tags is_zero_duration is_zero negate back_by
    find_latest_timestamp latest_from ymdh ymd yw ym y always less
two_daily_keeps = refl

abbrev daily_bucket : Bucket ℕ
daily_bucket = record {
  count = pos 2;
  bucker = ymd hours_lib;
  last_value = none;
  reason = daily_snapshot;
}

newest_of_run_kept_example :
    In day_before (apply_policy hours_lib 1000 all_snapshots two_daily).keep
unfolding buckets ymd differs
newest_of_run_kept_example =
    newest_of_run_kept hours_lib 1000 all_snapshots (newest ∷ same_day ∷ []) day_before older
      two_daily daily_bucket refl (inr (inr (inl refl))) refl (inl refl)

tagged_or_recent_kept_example : In pinned (apply_policy hours_lib 1000 all_snapshots two_daily).keep
unfolding has_tags has_tag no_tags
tagged_or_recent_kept_example =
    tagged_or_recent_kept hours_lib 1000 all_snapshots two_daily pinned (inr (inr (inr (inl refl))))
      (inl ("pinned" ∷ [], inl refl, refl))

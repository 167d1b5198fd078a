-- ===== src/Policy/Types.antt =====
-- internal/restic/snapshot_policy.go: what a policy and its evaluation are made of, with `Duration` of
-- duration.go and what a policy reads of a `Snapshot`.
use Prim.Native.String.{String}
use vlbe.Base.{ℕ, zero, suc, Bool, true, false, ◌&&◌, ◌||◌, List, [], ◌∷◌, ◌++◌, Option}

-- Go's `int`
pub data ℤ : Type 0 where
  pos negsuc : ℕ → ℤ

unfoldable pub negate : ℤ → ℤ
negate (pos zero) = pos zero
negate (pos (suc n)) = negsuc n
negate (negsuc n) = pos (suc n)

unfoldable pub is_zero : ℤ → Bool
is_zero (pos zero) = true
is_zero (pos (suc n)) = false
is_zero (negsuc n) = false

-- `Duration`
pub record Duration : Type 0 where
  pub hours : ℤ
  pub days : ℤ
  pub months : ℤ
  pub years : ℤ

-- `Duration.Zero`
unfoldable pub is_zero_duration : Duration → Bool
unfolding is_zero
is_zero_duration d = is_zero d.years && (is_zero d.months && (is_zero d.days && is_zero d.hours))

-- `Snapshot`, as far as a policy reads it
pub record Snapshot (Time : Type 0) : Type 0 where
  pub id : ℕ
  pub time : Time
  pub tags : List String

-- what Go's library gives: `time.Time`, and `sort.Stable` by a test `Less`
pub record TimeLib (Time : Type 0) : Type 0 where
  pub zero_time : Time
  pub after : Time → Time → Bool
  pub before : Time → Time → Bool
  pub year : Time → ℕ
  pub month : Time → ℕ
  pub day : Time → ℕ
  pub hour : Time → ℕ
  pub iso_week : Time → ℕ × ℕ
  pub add_date : Time → ℤ → ℤ → ℤ → Time
  pub add_hours : Time → ℤ → Time
  pub sort_stable :
      (Snapshot Time → Snapshot Time → Bool) → List (Snapshot Time) → List (Snapshot Time)

-- `ExpirePolicy`
pub record ExpirePolicy : Type 0 where
  pub last : ℤ
  pub hourly : ℤ
  pub daily : ℤ
  pub weekly : ℤ
  pub monthly : ℤ
  pub yearly : ℤ
  pub within : Duration
  pub within_hourly : Duration
  pub within_daily : Duration
  pub within_weekly : Duration
  pub within_monthly : Duration
  pub within_yearly : Duration
  pub tags : List (List String)

pub data Reason : Type 0 where
  has_tags_of : List String → Reason
  within_duration : Duration → Reason
  last_snapshot hourly_snapshot daily_snapshot weekly_snapshot monthly_snapshot yearly_snapshot :
      Reason
  hourly_within daily_within weekly_within monthly_within yearly_within : Duration → Reason

-- an item of `buckets`
pub record Bucket (Time : Type 0) : Type 0 where
  pub count : ℤ
  pub bucker : Time → ℕ → ℕ
  pub last_value : Option ℕ
  pub reason : Reason

-- an item of `bucketsWithin`
pub record BucketWithin (Time : Type 0) : Type 0 where
  pub within : Duration
  pub bucker : Time → ℕ → ℕ
  pub last_value : Option ℕ
  pub reason : Duration → Reason

-- `KeepReason`
pub record KeepReason (Time : Type 0) : Type 0 where
  pub snapshot : Snapshot Time
  pub matches : List Reason
  pub counters : List ℤ

-- what `ApplyPolicy` returns
pub record Applied (Time : Type 0) : Type 0 where
  pub keep : List (Snapshot Time)
  pub remove : List (Snapshot Time)
  pub reasons : List (KeepReason Time)

-- `keepSnap` and `keepSnapReasons`, and what a keeping branch does to them
abbrev pub Marks : Type 0
Marks = Bool × List Reason

abbrev pub no_mark : Marks
no_mark = (false, [])

abbrev pub add_mark : Reason → Marks → Marks
add_mark r (keep_snap, reasons) = (true, r ∷ reasons)

-- the marks of one part of the loop body and those of the parts behind it
abbrev pub join_marks : Marks → Marks → Marks
join_marks (keep_snap, reasons) (keep_snap', reasons') =
    (keep_snap || keep_snap', reasons ++ reasons')

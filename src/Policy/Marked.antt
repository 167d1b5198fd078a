-- ===== src/Policy/Marked.antt =====
-- `keepSnap` is set exactly where a reason is noted.
use Prim.Native.String.{String}
use vlbe.Base.{
  ℕ, ◌≡◌, refl, sym, not, ◌&&◌, if◌then◌else◌, Bool, true, false, ◌||◌, List, [], ◌∷◌, ◌++◌, In,
}
use vlbe.Policy.{
  Snapshot, TimeLib, ExpirePolicy, Duration, Reason, Bucket, BucketWithin, Marks, no_mark, add_mark,
  join_marks, tag_marks, within_marks, update_buckets, update_within, fires, fires_within, has_tags,
  has_tags_of, back_by, is_zero_duration, within_duration,
}

abbrev pub some_reason : List Reason → Bool
some_reason [] = false
some_reason (r ∷ rs) = true

abbrev pub IsMarked : Marks → Type 0
IsMarked m = m.0 ≡ some_reason m.1

some_reason-append :
    (rs rs' : List Reason) → some_reason (rs ++ rs') ≡ (some_reason rs || some_reason rs')
some_reason-append [] rs' = refl
some_reason-append (r ∷ rs) rs' = refl

pub join_marks-IsMarked : (m n : Marks) → IsMarked m → IsMarked n → IsMarked (join_marks m n)
join_marks-IsMarked (k, rs) (k', rs') e e' = rw (e, e') (sym (some_reason-append rs rs'))

-- what a branch does that keeps or does not
if-IsMarked :
    (b : Bool) (r : Reason) (m : Marks) → IsMarked m → IsMarked (if b then add_mark r m else m)
if-IsMarked true r m e = refl
if-IsMarked false r m e = e

pub marked-In : (r : Reason) (m : Marks) → IsMarked m → In r m.1 → m.0 ≡ true
marked-In r (k, []) e i = absurd i
marked-In r (k, r' ∷ rs) e i = e

pub tag_marks-IsMarked :
    (ls : List (List String)) (sn_tags : List String) → IsMarked (tag_marks ls sn_tags)
unfolding tag_marks
tag_marks-IsMarked [] sn_tags = refl
tag_marks-IsMarked (l ∷ ls) sn_tags =
    if-IsMarked (has_tags sn_tags l) (has_tags_of l) (tag_marks ls sn_tags)
      (tag_marks-IsMarked ls sn_tags)

module _ {Time : Type 0} (lib : TimeLib Time) where
  pub within_marks-IsMarked :
      (latest : Time) (d : Duration) (t : Time) → IsMarked (within_marks lib latest d t)
  unfolding within_marks
  within_marks-IsMarked latest d t =
      if-IsMarked (not (is_zero_duration d) && lib.after t (back_by lib latest d))
        (within_duration d) no_mark refl

  pub update_buckets-IsMarked :
      (total nr : ℕ) (t : Time) (bs : List (Bucket Time))
      → IsMarked (update_buckets lib total nr t bs).1
  unfolding update_buckets
  update_buckets-IsMarked total nr t [] = refl
  update_buckets-IsMarked total nr t (b ∷ bs) =
      if-IsMarked (fires lib total nr t b) b.reason (update_buckets lib total nr t bs).1
        (update_buckets-IsMarked total nr t bs)

  pub update_within-IsMarked :
      (total nr : ℕ) (latest t : Time) (ws : List (BucketWithin Time))
      → IsMarked (update_within lib total nr latest t ws).1
  unfolding update_within
  update_within-IsMarked total nr latest t [] = refl
  update_within-IsMarked total nr latest t (b ∷ ws) =
      if-IsMarked (fires_within lib total nr latest t b) (b.reason b.within)
        (update_within lib total nr latest t ws).1 (update_within-IsMarked total nr latest t ws)

  -- the marks of one round of the loop
  abbrev pub marks_of :
      ExpirePolicy
      → Time
      → ℕ
      → ℕ
      → List (Bucket Time)
      → List (BucketWithin Time)
      → Snapshot Time
      → Marks
  marks_of p latest total nr bs ws cur = join_marks (tag_marks p.tags cur.tags) (
      join_marks (within_marks lib latest p.within cur.time) (
        join_marks (update_buckets lib total nr cur.time bs).1
          (update_within lib total nr latest cur.time ws).1))

  pub marks_of-IsMarked :
      (p : ExpirePolicy) (latest : Time) (total nr : ℕ) (bs : List (Bucket Time))
      (ws : List (BucketWithin Time)) (cur : Snapshot Time)
      → IsMarked (marks_of p latest total nr bs ws cur)
  marks_of-IsMarked p latest total nr bs ws cur =
      let by_count = (update_buckets lib total nr cur.time bs).1 in
      let by_time = (update_within lib total nr latest cur.time ws).1 in
      let counted =
        join_marks-IsMarked by_count by_time (update_buckets-IsMarked total nr cur.time bs)
          (update_within-IsMarked total nr latest cur.time ws) in
      let recent = within_marks lib latest p.within cur.time in
      join_marks-IsMarked (tag_marks p.tags cur.tags)
        (join_marks recent (join_marks by_count by_time)) (tag_marks-IsMarked p.tags cur.tags)
        (join_marks-IsMarked recent (join_marks by_count by_time)
          (within_marks-IsMarked latest p.within cur.time) counted)

-- ===== src/Prune/Plan/Safety.antt =====
-- What a plan promises: no used blob is lost.
use vlbe.Base.{
  In-cons_elim, ◌+◌, ◌<◌, ◌≡◌, ◌≢◌, refl, subst, ◌∙◌, ◌⊎◌, inl, inr, Bool, true, false, ◌||◌, List,
  [], ◌∷◌, some, none, Bool-cases, Option-cases, arith, lookup, lookup-delete, In, ℕ_key, has,
  length, word, if◌then◌else◌,
}
use vlbe.Restic.Blob.{ContentId, BlobHandle, PackedBlob, same_handle, same_handle_iff, handle_key}
use vlbe.Prune.Types.{PruneOptions, PackInfo, IndexPack, Counts, Repo, ok, >>=-eq-ok, zero_stats}
use vlbe.Prune.Select.{used_set, pack_info_from_index}
use vlbe.Prune.Select.Held.{Held}
use vlbe.Prune.Select.Result.{used_blobs-Held}
use vlbe.Prune.Select.Known.{packs_known}
use vlbe.Prune.Decide.Sets.{listed, Distinct}
use vlbe.Prune.Repack.{Decision, Sorter, decide_pack_action}
use vlbe.Prune.Repack.Sets.{DecisionSets, decide_pack_action_sets}
use vlbe.Prune.Plan.{
  PrunePlan, drop_kept_step, drop_kept, if_repacking, blobs_to_keep, adjust, plan_from, plan_prune,
}

-- a pack file that the plan does not touch
pub record Untouched (repo : Repo) (d : Decision) (p : ContentId) : Type 0 where
  pub present : listed p repo.packs ≡ true
  pub not_removed : has p d.remove_packs ≡ false
  pub not_removed_first : has p d.remove_packs_first ≡ false
  pub not_repacked : has p d.repack_packs ≡ false

-- a pack file that the plan repacks, and removes in no other way before
pub record Repacked (repo : Repo) (d : Decision) (p : ContentId) : Type 0 where
  pub present : listed p repo.packs ≡ true
  pub not_removed_first : has p d.remove_packs_first ≡ false
  pub repacked : has p d.repack_packs ≡ true

-- A copy of the blob stands in a file that stays, or in one whose blobs are copied, this one too.
abbrev pub Kept : Repo → PrunePlan → BlobHandle → Type 0
Kept repo plan h =
    ((b : PackedBlob) × In b repo.index × (b.handle ≡ h) × Untouched repo plan.decision b.pack_id)
    ⊎ ((b : PackedBlob) × In b repo.index
        × (b.handle ≡ h)
        × Repacked repo plan.decision b.pack_id
        × (keep : Counts) × (plan.keep_blobs ≡ some keep)
        × (lookup h keep ≢ none))

-- the test of the loop over the index: does the pack go, with all its blobs?
abbrev pub goes : Decision → PackedBlob → Bool
goes d b = has b.pack_id d.remove_packs || has b.pack_id d.repack_packs

pub lookup-drop_kept_step :
    (d : Decision) (b : PackedBlob) (keep : Counts) (h : BlobHandle)
    → lookup h (drop_kept_step d b keep)
      ≡ (if goes d b then lookup h keep else if same_handle b.handle h then none else lookup h keep)
unfolding drop_kept_step
lookup-drop_kept_step d b keep h = ground (arith, lookup-delete b.handle h keep)

-- What `drop_kept` leaves of a handle: its entry, if all its copies go, or a copy that stays.
drop_kept-cases :
    (d : Decision) (bs : List PackedBlob) (keep : Counts) (h : BlobHandle)
    → ((lookup h (drop_kept d bs keep) ≡ lookup h keep)
        × ((b : PackedBlob) → In b bs → b.handle ≡ h → goes d b ≡ true))
      ⊎ ((b : PackedBlob) × In b bs × (b.handle ≡ h) × (goes d b ≡ false))
unfolding drop_kept
drop_kept-cases d [] keep h = inl (refl, λ b i. absurd i)
drop_kept-cases d (b ∷ bs) keep h = elim (drop_kept-cases d bs (drop_kept_step d b keep) h) [
  | inr (c, i, is_h, stays) ↦ inr (c, inr i, is_h, stays)
  | inl (same, all_go) ↦ elim (Bool-cases (goes d b)) [
    | inl gone ↦ inl (
      same ∙ ground (arith, lookup-drop_kept_step d b keep h),
      In-cons_elim (λ c. c.handle ≡ h → goes d c ≡ true) b bs (λ _. gone) all_go,
    )
    | inr stays ↦ elim (Bool-cases (same_handle b.handle h)) [
      | inl is_h ↦ inr (b, inl refl, (same_handle_iff b.handle h).0 is_h, stays)
      | inr other ↦ inl (
        same ∙ ground (arith, lookup-drop_kept_step d b keep h),
        In-cons_elim (λ c. c.handle ≡ h → goes d c ≡ true) b bs
            (λ is_h. ground (arith, same_handle_iff b.handle h)) all_go,
      )
    ]
  ]
]

module _ (repo : Repo) (packs : IndexPack) (d : Decision)
    (sets : (j : ContentId) → DecisionSets repo packs d j) where
  -- a pack with used blobs is there, and stays unless it is repacked
  held_present :
      (p : ContentId) (info : PackInfo)
      → lookup p packs ≡ some info
      → 0 < info.used_blobs
      → (listed p repo.packs ≡ true)
        × (has p d.remove_packs ≡ false)
        × (has p d.remove_packs_first ≡ false)
  held_present p info known used =
      let here : listed p repo.packs ≡ true = elim (Bool-cases (listed p repo.packs)) [
        | inl yes_listed ↦ yes_listed
        | inr absent ↦ absurd (ground (arith, sets p))
      ] in
      (here, ground (arith, sets p), ground (arith, sets p))

  -- a known pack that no set names is there, and stays
  unnamed_present :
      (p : ContentId) (info : PackInfo)
      → lookup p packs ≡ some info
      → has p d.ignore_packs ≡ false
      → has p d.remove_packs ≡ false
      → (listed p repo.packs ≡ true) × (has p d.remove_packs_first ≡ false)
  unnamed_present p info known ign rem = elim (Bool-cases (listed p repo.packs)) [
    | inl here ↦ (here, ground (arith, sets p))
    | inr absent ↦ absurd (ground (arith, sets p))
  ]

keep_of_repacked :
    (packs : List ContentId) (p : ContentId) (keep : Counts)
    → has p packs ≡ true
    → if_repacking packs keep ≡ some keep
unfolding if_repacking has
keep_of_repacked [] p keep e = cc
keep_of_repacked (q ∷ packs) p keep e = refl

-- Every used blob is kept by a decision on the packs where it is held.
module _ (repo : Repo) (packs : IndexPack) (counts : Counts) (d : Decision) (opts : PruneOptions)
    (sets : (j : ContentId) → DecisionSets repo packs d j)
    (knows : (c : PackedBlob) → In c repo.index → lookup c.pack_id packs ≢ none) (h : BlobHandle)
    (held : Held packs repo.index h) (counted : lookup h counts ≡ some 1)
    (ignored : (c : PackedBlob)
      → In c repo.index
      → c.handle ≡ h
      → has c.pack_id d.ignore_packs ≡ false) where
  abbrev made : PrunePlan
  made = record { decision = d; keep_blobs = blobs_to_keep repo.index counts d; opts = opts }

  -- a copy whose pack is neither removed nor repacked
  stays_Kept :
      (c : PackedBlob) → In c repo.index → c.handle ≡ h → goes d c ≡ false → Kept repo made h
  stays_Kept c i is_h stays = elim (Option-cases (lookup c.pack_id packs)) [
    | inl unknown ↦ absurd (knows c i unknown)
    | inr (info, known) ↦
        let (here, first) =
          unnamed_present repo packs d sets c.pack_id info known (ignored c i is_h)
            (ground arith) in
        inl (
          c,
          i,
          is_h,
          record {
            present = here;
            not_removed = ground arith;
            not_removed_first = first;
            not_repacked = ground arith;
          },
        )
  ]

  -- the copy that counts as used, where its pack is repacked
  Repacked-Kept :
      (b : PackedBlob)
      → In b repo.index
      → b.handle ≡ h
      → Repacked repo d b.pack_id
      → Kept repo made h
  unfolding blobs_to_keep
  Repacked-Kept b i is_h r = elim (drop_kept-cases d repo.index counts h) [
    | inl (same, _) ↦ inr (
      b,
      i,
      is_h,
      r,
      drop_kept d repo.index counts,
      keep_of_repacked d.repack_packs b.pack_id _ r.repacked,
      ground arith,
    )
    | inr (c, j, c_is_h, stays) ↦ stays_Kept c j c_is_h stays
  ]

  held_Kept : Kept repo made h
  held_Kept =
      let (b, i, is_h, used) = held in
      elim (Option-cases (lookup b.pack_id packs)) [
        | inl unknown ↦ absurd (knows b i unknown)
        | inr (info, known) ↦
            let (here, kept, first) =
              held_present repo packs d sets b.pack_id info known (ground arith) in
            elim (Bool-cases (goes d b)) [
              | inl gone ↦
                  Repacked-Kept b i is_h
                    (record { present = here; not_removed_first = first; repacked = ground arith })
              | inr stays ↦ stays_Kept b i is_h stays
            ]
      ]

module _ (sort_slice : Sorter) (opts : PruneOptions) (repo : Repo) (used : List BlobHandle) where
  plan_from_keeps :
      (plan : PrunePlan) (h : BlobHandle)
      → Distinct repo.packs
      → length repo.index + length repo.index < word
      → plan_from sort_slice opts repo used ≡ ok plan
      → In h used
      → ((c : PackedBlob)
          → In c repo.index
          → c.handle ≡ h
          → has c.pack_id plan.ignore_packs ≡ false)
      → Kept repo plan h
  unfolding plan_from
  plan_from_keeps plan h distinct fits e i ignored =
      let (st, selected, rest) =
        >>=-eq-ok (pack_info_from_index repo.index (used_set used []) zero_stats) _ e in
      let (d, decided, done) =
        >>=-eq-ok (decide_pack_action sort_slice opts repo st.index_pack st.stats) _ rest in
      let (held, counted) = used_blobs-Held repo.index used zero_stats st fits selected h i in
      let (u, knows) = packs_known repo.index (used_set used []) zero_stats st selected in
      let same : record {
        decision = d;
        keep_blobs = blobs_to_keep repo.index st.counts d;
        opts = opts;
      }
          ≡ plan =
        ground (arith, done) in
      subst
        (λ (x : PrunePlan).
          ((c : PackedBlob) → In c repo.index → c.handle ≡ h → has c.pack_id x.ignore_packs ≡ false)
          → Kept repo x h)
        same
        (held_Kept repo st.index_pack st.counts d opts
          (λ j.
            decide_pack_action_sets sort_slice opts repo st.index_pack st.stats d j distinct u
              decided)
          knows h held counted)
        ignored

module _ (sort_slice : Sorter) (opts : PruneOptions) (repo : Repo) (used : List BlobHandle)
    (plan : PrunePlan) (planned : plan_prune sort_slice opts repo (some used) ≡ ok plan) where
  planned_from : plan_from sort_slice (adjust opts) repo used ≡ ok plan
  unfolding plan_prune
  planned_from = let e = planned in ground arith

  -- Of every used blob, a plan leaves a copy in a pack file that stays untouched, or it repacks a
  -- file with a copy and has the blob among those to copy. Conditions: the backend lists no file
  -- twice, the index has fewer than 2^63 blobs, and no copy of the blob stands in a pack that the
  -- plan ignores because its file is missing.
  pub plan_prune_keeps :
      Distinct repo.packs
      → length repo.index + length repo.index < word
      → (h : BlobHandle) → In h used
      → ((c : PackedBlob)
          → In c repo.index
          → c.handle ≡ h
          → has c.pack_id plan.ignore_packs ≡ false)
      → Kept repo plan h
  plan_prune_keeps distinct fits h i ignored =
      plan_from_keeps sort_slice (adjust opts) repo used plan h distinct fits planned_from i ignored

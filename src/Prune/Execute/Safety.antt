-- ===== src/Prune/Execute/Safety.antt =====
-- While `Execute` runs, and wherever it stops, no blob is lost that its plan keeps.
use vlbe.Base.{
  length, word, ◌+◌, ◌<◌, ◌≡◌, ◌≢◌, refl, sym, subst, ◌⊎◌, inl, inr, true, false, List, [], ◌∷◌,
  none, some, lookup, merge, has-merge, ℕ_key, In, has, arith, Bool-cases,
}
use vlbe.Restic.Blob.{ContentId, BlobHandle, PackedBlob, handle_key}
use vlbe.Prune.Types.{PruneOptions, Counts, Repo, ok}
use vlbe.Prune.Decide.Sets.{Distinct}
use vlbe.Prune.Repack.{Sorter}
use vlbe.Prune.Plan.{PrunePlan, plan_prune}
use vlbe.Prune.Plan.Safety.{Untouched, Repacked, Kept, plan_prune_keeps}
use vlbe.Prune.Execute.Trace.{
  World, apply_all, Throughout, Throughout-resume, Respects, Respects-resume, Throughout-mono,
}
use vlbe.Prune.Execute.{
  Env, Exec, ◌>>◌, done, remove_files, repack_stage, index_stage, check_context, fallback_stage,
  execute_plan, execute, or_empty,
}
use vlbe.Prune.Execute.Steady.{
  Present, Saved, Present-remove_files, Saved-remove_files, Present-IsSteady, Saved-IsSteady,
  check_context_steady, closing_steady, repack_stage_steady,
}
use vlbe.Prune.Execute.Copies.{repack_stage-Saved}

-- a copy of the blob stands in a pack file of the index that is there, or in a new file
abbrev pub Available : Repo → BlobHandle → World → Type 0
Available repo h w =
    ((b : PackedBlob) × In b repo.index × (b.handle ≡ h) × (has b.pack_id w.gone ≡ false))
    ⊎ (has h w.saved ≡ true)

-- before `Execute` no pack is gone
abbrev pub untouched : World
untouched = record { gone = []; pending = []; saved = [] }

ne_of_has : (packs : List ContentId) (p : ContentId) → has p packs ≡ true → packs ≢ []
unfolding has
ne_of_has [] p e = cc
ne_of_has (q ∷ packs) p e = cc

module _ (env : Env) (repo : Repo) (plan : PrunePlan) where
  abbrev remove : List ContentId
  remove = merge plan.remove_packs plan.repack_packs

  abbrev ignore : List ContentId
  ignore = merge plan.ignore_packs remove

  -- what follows the removal of unreferenced packs
  abbrev after_first : Exec (Unit {0})
  after_first =
      check_context env.cancelled_early
      >> (repack_stage env repo.index plan.repack_packs (or_empty plan.keep_blobs)
          >> (index_stage env plan.opts.unsafe_recovery ignore
              >> ((remove_files env remove, ok tt)
                  >> (check_context env.cancelled_late
                      >> fallback_stage env plan.opts.unsafe_recovery ignore))))

  -- a pack that the plan does not touch is there throughout
  untouched_stays :
      (p : ContentId)
      → Untouched repo plan.decision p
      → Throughout (Present p) (execute_plan env repo plan).0 untouched
  unfolding execute_plan has
  untouched_stays p u =
      let first = Present-remove_files env p plan.remove_packs_first u.not_removed_first in
      let last =
        Present-remove_files env p remove
          (ground (arith, has-merge plan.remove_packs plan.repack_packs p, u)) in
      let steady = Present-IsSteady p in
      let rest : Respects (Present p) after_first.0 =
        Respects-resume (Present p) (check_context env.cancelled_early) _
          (check_context_steady (Present p) steady env env.cancelled_early)
          (λ _.
            Respects-resume (Present p)
              (repack_stage env repo.index plan.repack_packs (or_empty plan.keep_blobs)) _
              (repack_stage_steady (Present p) steady env repo.index plan.repack_packs
                (or_empty plan.keep_blobs))
              (λ _.
                closing_steady (Present p) steady env plan.opts.unsafe_recovery remove ignore
                  last)) in
      (Respects-resume (Present p) (remove_files env plan.remove_packs_first, ok tt)
        (λ (_ : Unit {0}). after_first) first (λ _. rest) untouched refl).0

  -- A blob of a pack that is repacked is there until the pack goes, and then in a new file.
  module _ (p : ContentId) (h : BlobHandle) (keep : Counts) (r : Repacked repo plan.decision p)
      (kept : plan.keep_blobs ≡ some keep) (wants : lookup h keep ≢ none) where
    abbrev Somewhere : World → Type 0
    Somewhere w = Present p w ⊎ Saved h w

    repacking :
        (w : World)
        → Present p w
        → Throughout Somewhere
            (repack_stage env repo.index plan.repack_packs (or_empty plan.keep_blobs)
              >> (index_stage env plan.opts.unsafe_recovery ignore
                  >> ((remove_files env remove, ok tt)
                      >> (check_context env.cancelled_late
                          >> fallback_stage env plan.opts.unsafe_recovery ignore)))).0
            w
    repacking w here =
        let stage = repack_stage env repo.index plan.repack_packs (or_empty plan.keep_blobs) in
        Throughout-resume Somewhere stage _ w
          (Throughout-mono (Present p) Somewhere stage.0 w (λ v k. inl k)
            (repack_stage_steady (Present p) (Present-IsSteady p) env repo.index plan.repack_packs
              (or_empty plan.keep_blobs) w here).0)
          (λ a ran.
            let closing =
              closing_steady (Saved h) (Saved-IsSteady h) env plan.opts.unsafe_recovery remove
                ignore (Saved-remove_files env h remove) in
            Throughout-mono (Saved h) Somewhere _ (apply_all stage.0 w) (λ v k. inr k)
              (closing (apply_all stage.0 w) (
                repack_stage-Saved env h repo.index plan.repack_packs (or_empty plan.keep_blobs) w
                  (ne_of_has plan.repack_packs p r.repacked) ran (rw kept wants))).0)

    repacked_stays : Throughout Somewhere (execute_plan env repo plan).0 untouched
    unfolding execute_plan has
    repacked_stays =
        let firsts = remove_files env plan.remove_packs_first in
        let removing = Present-remove_files env p plan.remove_packs_first r.not_removed_first in
        let (through, w1_here) = removing untouched refl in
        let w1 = apply_all firsts untouched in
        let checking = check_context env.cancelled_early in
        let check =
          check_context_steady (Present p) (Present-IsSteady p) env env.cancelled_early w1
            w1_here in
        Throughout-resume Somewhere (firsts, ok tt) (λ (_ : Unit {0}). after_first) untouched
          (Throughout-mono (Present p) Somewhere firsts untouched (λ v k. inl k) through)
          (λ _ _.
            Throughout-resume Somewhere checking _ w1
              (Throughout-mono (Present p) Somewhere checking.0 w1 (λ v k. inl k) check.0)
              (λ _ _. repacking (apply_all checking.0 w1) check.1))

dry_execute :
    (env : Env) (repo : Repo) (plan : PrunePlan)
    → plan.opts.dry_run ≡ true
    → execute env repo plan ≡ done
unfolding execute
dry_execute env repo plan dry = ground arith

real_execute :
    (env : Env) (repo : Repo) (plan : PrunePlan)
    → plan.opts.dry_run ≡ false
    → execute env repo plan ≡ execute_plan env repo plan
unfolding execute
real_execute env repo plan real = ground arith

Available-untouched :
    (repo : Repo) (plan : PrunePlan) (h : BlobHandle)
    → Kept repo plan h
    → Available repo h untouched
unfolding has
Available-untouched repo plan h (inl (b, i, is_h, u)) = inl (b, i, is_h, refl)
Available-untouched repo plan h (inr (b, i, is_h, r, keep, e, wants)) = inl (b, i, is_h, refl)

execute_plan_keeps :
    (env : Env) (repo : Repo) (plan : PrunePlan) (h : BlobHandle)
    → Kept repo plan h
    → Throughout (Available repo h) (execute_plan env repo plan).0 untouched
execute_plan_keeps env repo plan h (inl (b, i, is_h, u)) =
    Throughout-mono (Present b.pack_id) (Available repo h) (execute_plan env repo plan).0 untouched
      (λ v k. inl (b, i, is_h, k)) (untouched_stays env repo plan b.pack_id u)
execute_plan_keeps env repo plan h (inr (b, i, is_h, r, keep, e, wants)) =
    Throughout-mono (Somewhere env repo plan b.pack_id h keep r e wants) (Available repo h)
      (execute_plan env repo plan).0 untouched
      (λ v k. elim k [ inl here ↦ inl (b, i, is_h, here) | inr saved ↦ inr saved ])
      (repacked_stays env repo plan b.pack_id h keep r e wants)

-- At every moment of `Execute`, at its end and wherever it fails or is cancelled, a copy of each
-- blob that the plan keeps is available: in a pack file of the index that is not removed, or in a
-- new pack file that is flushed.
pub execute_keeps :
    (env : Env) (repo : Repo) (plan : PrunePlan) (h : BlobHandle)
    → Kept repo plan h
    → Throughout (Available repo h) (execute env repo plan).0 untouched
execute_keeps env repo plan h kept = elim (Bool-cases plan.opts.dry_run) [
  | inl dry ↦
      subst (λ x. Throughout (Available repo h) x.0 untouched) (sym (dry_execute env repo plan dry))
        (Available-untouched repo plan h kept)
  | inr real ↦
      subst (λ x. Throughout (Available repo h) x.0 untouched)
        (sym (real_execute env repo plan real)) (execute_plan_keeps env repo plan h kept)
]

-- Prune loses no used blob: whatever calls fail, at every moment of executing a plan a copy of each
-- used blob is available. Conditions: the backend lists no file twice, the index has fewer than
-- 2^63 blobs, and no copy of the blob stands in a pack that the plan ignores because its file is
-- missing.
pub prune_loses_nothing :
    (sort_slice : Sorter) (opts : PruneOptions) (repo : Repo) (used : List BlobHandle)
    (plan : PrunePlan) (env : Env)
    → plan_prune sort_slice opts repo (some used) ≡ ok plan
    → Distinct repo.packs
    → length repo.index + length repo.index < word
    → (h : BlobHandle) → In h used
    → ((c : PackedBlob) → In c repo.index → c.handle ≡ h → has c.pack_id plan.ignore_packs ≡ false)
    → Throughout (Available repo h) (execute env repo plan).0 untouched
prune_loses_nothing sort_slice opts repo used plan env planned distinct fits h i ignored =
    execute_keeps env repo plan h
      (plan_prune_keeps sort_slice opts repo used plan planned distinct fits h i ignored)

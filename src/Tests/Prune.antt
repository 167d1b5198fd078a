-- ===== src/Tests/Prune.antt =====
-- internal/repository/prune.go at small repositories.
use vlbe.Base.{
  ℕ, ◌≡◌, refl, ◌⊎◌, inl, true, false, [], ◌∷◌, some, none, arith, lookup, insert, delete, has, add,
  merge, add64, sub64, mul64, In, length, ◌<◌, All, ℕ_key,
}
use vlbe.Restic.Blob.{
  BlobHandle, PackedBlob, data_blob, same_type, same_handle, type_code, is_compressed, handle_key,
}
use vlbe.Pack.Size.{size, size_step, calculate_entry_size}
use vlbe.Prune.Types.{PruneOptions, zero_stats, Repo, Outcome, ok, err, index_incomplete}
use vlbe.Prune.Select.{
  Picking, used_set, count_step, count_blobs, missing_blobs, header_infos, set_type, sort_blob,
  sort_stats, classified, classify_step, classify, takes_copy, use_copy, use_stats, pass_over,
  pick_copy, pick_step, pick, all_ones, check_picked, select_copies, conclude, pack_info_from_index,
}
use vlbe.Prune.Select.Copies.{copies}
use vlbe.Prune.Select.Held.{Held}
use vlbe.Prune.Select.Result.{pack_info_from_index_total, used_blobs-Held}
use vlbe.Prune.Decide.{
  target_pack_size, index_size, must_compress, note_pack, note_removed, note_kept, decide_pack,
  known_pack, unknown_pack, decide_step, decide_all, sort_missing, add_small,
}
use vlbe.Prune.Decide.Sets.{listed, Distinct}
use vlbe.Prune.Repack.{
  Sorter, repack, reached_unused_size, reached_repack_size, repack_step, repack_all, final_stats,
  choose_repacks, finish_with, finish, decide_pack_action,
}
use vlbe.Prune.Repack.Sets.{DecisionSets, decide_pack_action_sets}
use vlbe.Prune.Plan.{
  PrunePlan, drop_kept_step, drop_kept, if_repacking, blobs_to_keep, adjust, plan_from, plan_prune,
}
use vlbe.Prune.Plan.Safety.{Kept, plan_prune_keeps}
use vlbe.Prune.Plan.Limits.{unsafe_recovery_repacks_nothing}
use vlbe.Prune.Execute.{
  Env, execute, execute_plan, resume, remove_files, copy_blob, copy_blobs, wanted, repack_packs,
  check_repacked, repack_stage, index_stage, check_context, fallback_stage,
}
use vlbe.Prune.Execute.Trace.{apply, apply_all, Throughout}
use vlbe.Prune.Execute.Safety.{Available, untouched, execute_keeps, prune_loses_nothing}

program : Unit {0}
unfolding lookup insert delete has add merge add64 sub64 mul64 same_type same_handle type_code
    is_compressed size size_step calculate_entry_size used_set count_step count_blobs missing_blobs
    header_infos set_type sort_blob sort_stats classified classify_step classify takes_copy use_copy
    use_stats pass_over pick_copy pick_step pick all_ones check_picked select_copies conclude
    pack_info_from_index target_pack_size index_size must_compress note_pack note_removed note_kept
    decide_pack known_pack unknown_pack decide_step decide_all sort_missing add_small repack
    reached_unused_size reached_repack_size repack_step repack_all final_stats choose_repacks
    finish_with finish decide_pack_action drop_kept_step drop_kept if_repacking blobs_to_keep adjust
    plan_from plan_prune execute execute_plan resume remove_files copy_blob copy_blobs wanted
    repack_packs check_repacked repack_stage index_stage check_context fallback_stage apply
    apply_all listed copies
program = tt

abbrev blob : ℕ → ℕ → ℕ → PackedBlob
blob id length pack = record {
  blob = record {
    handle = record { id = id; tpe = data_blob };
    length = length;
    offset = 0;
    uncompressed_length = 0;
  };
  pack_id = pack;
}

abbrev handle : ℕ → BlobHandle
handle id = record { id = id; tpe = data_blob }

abbrev options : PruneOptions
options = record {
  dry_run = false;
  unsafe_recovery = false;
  max_unused_bytes = λ used. 0;
  max_repack_bytes = 100000;
  repack_cacheable_only = false;
  repack_small = false;
  repack_uncompressed = false;
}

-- `sort.Slice` may leave equals in any order, and a list of one item as it is
abbrev as_is : Sorter
as_is before cs = cs

-- one pack with a used and an unused blob, one with an unused blob, one that no index knows
abbrev mixed : Repo
mixed = record {
  version = 2;
  connections = 5;
  pack_size = 16777216;
  index = blob 1 10 100 ∷ blob 2 5 100 ∷ blob 3 7 200 ∷ [];
  packs = (100, 125) ∷ (200, 80) ∷ (300, 1) ∷ [];
}

abbrev none_planned : PrunePlan
none_planned = record {
  decision = record {
    remove_packs_first = [];
    remove_packs = [];
    repack_packs = [];
    ignore_packs = [];
    stats = zero_stats;
  };
  keep_blobs = none;
  opts = options;
}

abbrev the_plan : Outcome PrunePlan → PrunePlan
the_plan (ok plan) = plan
the_plan _ = none_planned

abbrev mixed_plan : PrunePlan
mixed_plan = the_plan (plan_prune as_is options mixed (some (handle 1 ∷ [])))

mixed_planned : plan_prune as_is options mixed (some (handle 1 ∷ [])) ≡ ok mixed_plan
unfolding program
mixed_planned = refl

mixed_sets :
    (mixed_plan.remove_packs_first ≡ 300 ∷ [])
    × (mixed_plan.remove_packs ≡ 200 ∷ [])
    × (mixed_plan.repack_packs ≡ 100 ∷ [])
    × (mixed_plan.keep_blobs ≡ some ((handle 1, 1) ∷ []))
unfolding program
mixed_sets = (refl, refl, refl, refl)

-- every call succeeds
abbrev smooth : Env
smooth = record {
  removable = λ p. true;
  loads = λ p h. true;
  saves = λ h. true;
  flushes = true;
  rewrites_index = true;
  deletes_index = true;
  saves_fallback = true;
  cancelled_early = false;
  cancelled_late = false;
}

mixed-Distinct : Distinct mixed.packs
unfolding program
mixed-Distinct = (refl, (refl, (refl, tt)))

pack_info_from_index_total_example :
    ((st : Picking) × (pack_info_from_index mixed.index (used_set (handle 1 ∷ []) []) zero_stats
        ≡ ok st)
      × All (λ h. 0 < copies h mixed.index) (handle 1 ∷ []))
    ⊎ ((h : BlobHandle) × In h (handle 1 ∷ [])
        × (copies h mixed.index ≡ 0)
        × (pack_info_from_index mixed.index (used_set (handle 1 ∷ []) []) zero_stats
            ≡ err index_incomplete))
pack_info_from_index_total_example =
    pack_info_from_index_total mixed.index (handle 1 ∷ []) zero_stats

-- a blob that no pack has
missing_blob :
    pack_info_from_index mixed.index (used_set (handle 4 ∷ []) []) zero_stats ≡ err index_incomplete
unfolding program
missing_blob = refl

abbrev the_picking : Outcome Picking → Picking
the_picking (ok st) = st
the_picking _ = record { counts = []; index_pack = []; stats = zero_stats }

abbrev mixed_picking : Picking
mixed_picking =
    the_picking (pack_info_from_index mixed.index (used_set (handle 1 ∷ []) []) zero_stats)

used_blobs-Held_example :
    Held mixed_picking.index_pack mixed.index (handle 1)
    × (lookup (handle 1) mixed_picking.counts ≡ some 1)
unfolding program
used_blobs-Held_example =
    used_blobs-Held mixed.index (handle 1 ∷ []) zero_stats mixed_picking (omega arith) refl
      (handle 1) (inl refl)

decide_pack_action_sets_example :
    DecisionSets mixed mixed_picking.index_pack mixed_plan.decision 200
unfolding program
decide_pack_action_sets_example =
    decide_pack_action_sets as_is options mixed mixed_picking.index_pack mixed_picking.stats
      mixed_plan.decision 200 mixed-Distinct (refl, (refl, tt)) refl

plan_prune_keeps_example : Kept mixed mixed_plan (handle 1)
unfolding program
plan_prune_keeps_example =
    plan_prune_keeps as_is options mixed (handle 1 ∷ []) mixed_plan mixed_planned mixed-Distinct
      (omega arith) (handle 1) (inl refl) (λ c i e. refl)

execute_keeps_example :
    Throughout (Available mixed (handle 1)) (execute smooth mixed mixed_plan).0 untouched
execute_keeps_example = execute_keeps smooth mixed mixed_plan (handle 1) plan_prune_keeps_example

prune_loses_nothing_example :
    Throughout (Available mixed (handle 1)) (execute smooth mixed mixed_plan).0 untouched
unfolding program
prune_loses_nothing_example =
    prune_loses_nothing as_is options mixed (handle 1 ∷ []) mixed_plan smooth mixed_planned
      mixed-Distinct (omega arith) (handle 1) (inl refl) (λ c i e. refl)

-- with `UnsafeRecovery` the pack with the unused blob stays
abbrev recovering : PruneOptions
recovering = record options { unsafe_recovery = true }

unsafe_recovery_repacks_nothing_example :
    ((the_plan (plan_prune as_is recovering mixed (some (handle 1 ∷ [])))).repack_packs ≡ [])
    × ((the_plan (plan_prune as_is recovering mixed (some (handle 1 ∷ [])))).keep_blobs ≡ none)
unfolding program
unsafe_recovery_repacks_nothing_example =
    unsafe_recovery_repacks_nothing as_is recovering mixed (handle 1 ∷ [])
      (the_plan (plan_prune as_is recovering mixed (some (handle 1 ∷ [])))) refl mixed-Distinct refl

-- Blob 1 has a copy in pack 100, which is missing, and one in pack 200, which is repacked.
abbrev missing_file : Repo
missing_file = record {
  version = 2;
  connections = 5;
  pack_size = 16777216;
  index = blob 1 10 100 ∷ blob 2 5 100 ∷ blob 1 10 200 ∷ blob 3 7 200 ∷ [];
  packs = (200, 127) ∷ [];
}

abbrev missing_plan : PrunePlan
missing_plan = the_plan (plan_prune as_is options missing_file (some (handle 1 ∷ [])))

missing_sets :
    (missing_plan.ignore_packs ≡ 100 ∷ [])
    × (missing_plan.repack_packs ≡ 200 ∷ [])
    × (missing_plan.keep_blobs ≡ some [])
unfolding program
missing_sets = (refl, refl, refl)

-- Both copies are gone at the end, and the blob is in no new pack file.
copies_lost :
    ((execute smooth missing_file missing_plan).1 ≡ ok tt)
    × (has 200 (apply_all (execute smooth missing_file missing_plan).0 untouched).gone ≡ true)
    × ((apply_all (execute smooth missing_file missing_plan).0 untouched).saved ≡ [])
unfolding program
copies_lost = (refl, refl, refl)

-- ===== src/Prune/Plan.antt =====
-- `PlanPrune` of internal/repository/prune.go: from the used blobs to a plan.
pub mod Safety
pub mod Limits
use vlbe.Base.{
  ◌&&◌, ◌||◌, List, [], ◌∷◌, Option, none, some, ltb, if◌then◌else◌, has, insert, delete, ℕ_key,
}
use vlbe.Restic.Blob.{ContentId, BlobHandle, PackedBlob, handle_key}
use vlbe.Prune.Types.{
  PruneOptions, zero_stats, Counts, Repo, Outcome, ok, err, ◌>>=◌, too_few_connections,
  needs_version_2, used_blobs_failed,
}
use vlbe.Prune.Select.{pack_info_from_index, used_set}
use vlbe.Prune.Repack.{Decision, Sorter, decide_pack_action}

-- `PrunePlan`
pub record PrunePlan : Type 0 where
  pub decision : Decision
  pub open decision use *
  pub keep_blobs : Option Counts
  pub opts : PruneOptions

-- blobs of packs that stay need not be copied
unfoldable pub drop_kept_step : Decision → PackedBlob → Counts → Counts
drop_kept_step d b keep =
    if has b.pack_id d.remove_packs || has b.pack_id d.repack_packs
    then keep
    else delete b.handle keep

unfoldable pub drop_kept : Decision → List PackedBlob → Counts → Counts
drop_kept d [] keep = keep
drop_kept d (b ∷ bs) keep = drop_kept d bs (drop_kept_step d b keep)

-- `keepBlobs` is dropped where no pack is repacked
unfoldable pub if_repacking : List ContentId → Counts → Option Counts
if_repacking [] keep = none
if_repacking (id ∷ more) keep = some keep

-- `plan.keepBlobs`
unfoldable pub blobs_to_keep : List PackedBlob → Counts → Decision → Option Counts
unfolding if_repacking
blobs_to_keep index keep d = if_repacking d.repack_packs (drop_kept d index keep)

-- with `UnsafeRecovery` nothing is repacked
unfoldable pub adjust : PruneOptions → PruneOptions
adjust opts = if opts.unsafe_recovery then record opts { max_repack_bytes = 0 } else opts

-- the part after the checks
unfoldable pub plan_from : Sorter → PruneOptions → Repo → List BlobHandle → Outcome PrunePlan
plan_from sort_slice opts repo used = do
  picked ← pack_info_from_index repo.index (used_set used []) zero_stats
  d ← decide_pack_action sort_slice opts repo picked.index_pack picked.stats
  ok (record { decision = d; keep_blobs = blobs_to_keep repo.index picked.counts d; opts = opts })

-- `PlanPrune`; `used` is what `getUsedBlobs` finds, or nothing where it fails
unfoldable pub plan_prune :
    Sorter → PruneOptions → Repo → Option (List BlobHandle) → Outcome PrunePlan
unfolding adjust
plan_prune sort_slice opts repo used =
    if ltb repo.connections 2
    then err too_few_connections
    else if ltb repo.version 2 && opts.repack_uncompressed
    then err needs_version_2
    else elim used [
      | none ↦ err used_blobs_failed
      | some handles ↦ plan_from sort_slice (adjust opts) repo handles
    ]

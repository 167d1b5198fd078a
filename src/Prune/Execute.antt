-- ===== src/Prune/Execute.antt =====
-- `PrunePlan.Execute` of internal/repository/prune.go and `repack` of internal/repository/repack.go:
-- the effects on the repository, in order. What the environment decides is the record `Env`. The
-- workers of `repack`, which share `keepBlobs` under a lock, are run one after the other.
pub mod Trace
pub mod Steady
pub mod Copies
pub mod Safety
use vlbe.Base.{
  ℕ, Bool, true, false, ◌&&◌, List, [], ◌∷◌, ◌++◌, Option, none, some, ◌==◌, if◌then◌else◌, lookup,
  delete, merge, ℕ_key,
}
use vlbe.Restic.Blob.{ContentId, BlobHandle, PackedBlob, handle_key}
use vlbe.Prune.Types.{
  Counts, Repo, Outcome, PruneError, ok, err, panic, cancelled, repack_failed, blobs_not_repacked,
  index_failed,
}
use vlbe.Prune.Plan.{PrunePlan}

-- which calls succeed: removing a pack file, loading a blob from a pack, saving a blob, flushing,
-- and the calls on index files; and whether the context is cancelled at the two tests
pub record Env : Type 0 where
  pub removable : ContentId → Bool
  pub loads : ContentId → BlobHandle → Bool
  pub saves : BlobHandle → Bool
  pub flushes : Bool
  pub rewrites_index : Bool
  pub deletes_index : Bool
  pub saves_fallback : Bool
  pub cancelled_early : Bool
  pub cancelled_late : Bool

-- what changes in the repository
pub data Effect : Type 0 where
  removed_pack : ContentId → Effect
  saved_blob : BlobHandle → Effect
  flushed : Effect
  rewrote_index : List ContentId → Effect
  removed_index : Effect
  saved_fallback : List ContentId → Effect

-- the effects of a call, with what it returns
abbrev pub Exec {ℓ} : Type ℓ → Type ℓ
Exec A = List Effect × Outcome A

module _ {ℓ κ} {A : Type ℓ} {B : Type κ} where
  unfoldable pub resume : List Effect → Outcome A → (A → Exec B) → Exec B
  resume t (ok a) f = (t ++ (f a).0, (f a).1)
  resume t (err e) f = (t, err e)
  resume t panic f = (t, panic)

  infixl 10 ◌>>=◌
  abbrev pub ◌>>=◌ : Exec A → (A → Exec B) → Exec B
  m >>= f = resume m.0 m.1 f

infixl 10 ◌>>◌
abbrev pub ◌>>◌ {ℓ} : {B : Type ℓ} → Exec (Unit {0}) → Exec B → Exec B
m >> k = let f = λ (_ : Unit {0}). k in resume m.0 m.1 f

abbrev pub done : Exec (Unit {0})
done = ([], ok tt)

abbrev pub fail {ℓ} : {A : Type ℓ} → PruneError → Exec A
fail e = ([], err e)

-- a call that has an effect, or fails
abbrev pub attempt : Bool → PruneError → Effect → Exec (Unit {0})
attempt b e effect = if b then (effect ∷ [], ok tt) else fail e

-- `deleteFiles` with `ignoreError`: files that cannot be removed stay
unfoldable pub remove_files : Env → List ContentId → List Effect
remove_files env [] = []
remove_files env (p ∷ packs) =
    let rest = remove_files env packs in if env.removable p then removed_pack p ∷ rest else rest

-- the callback of `LoadBlobsFromPack`, for one blob
unfoldable pub copy_blob : Env → ContentId → BlobHandle → Counts → Exec Counts
copy_blob env p h keep =
    if env.loads p h
    then elim (lookup h keep) [
      | none ↦ ([], ok keep)
      | some _ ↦ if env.saves h then (saved_blob h ∷ [], ok (delete h keep)) else fail repack_failed
    ]
    else fail repack_failed

unfoldable pub copy_blobs : Env → ContentId → List BlobHandle → Counts → Exec Counts
copy_blobs env p [] keep = ([], ok keep)
copy_blobs env p (h ∷ hs) keep = do keep' ← copy_blob env p h keep; copy_blobs env p hs keep'

-- the blobs of a pack that are in `keepBlobs`, as the index lists them
unfoldable pub wanted : ContentId → List PackedBlob → Counts → List BlobHandle
wanted p [] keep = []
wanted p (b ∷ index) keep =
    let rest = wanted p index keep in
    if b.pack_id == p
    then elim (lookup b.handle keep) [ none ↦ rest | some _ ↦ b.handle ∷ rest ]
    else rest

-- `repack`, up to the flush
unfoldable pub repack_packs : Env → List PackedBlob → List ContentId → Counts → Exec Counts
repack_packs env index [] keep = ([], ok keep)
repack_packs env index (p ∷ packs) keep = do
  keep' ← copy_blobs env p (wanted p index keep) keep
  repack_packs env index packs keep'

abbrev pub or_empty : Option Counts → Counts
or_empty none = []
or_empty (some keep) = keep

-- `plan.keepBlobs.Len() != 0` is an internal error
unfoldable pub check_repacked : Counts → Exec (Unit {0})
check_repacked [] = done
check_repacked (k ∷ keep) = fail blobs_not_repacked

-- the repacking in `Execute`, where there is something to repack
unfoldable pub repack_stage : Env → List PackedBlob → List ContentId → Counts → Exec (Unit {0})
repack_stage env index [] keep = done
repack_stage env index (p ∷ packs) keep = do
  keep' ← repack_packs env index (p ∷ packs) keep
  attempt env.flushes repack_failed flushed
  check_repacked keep'

-- the index files: deleted for a recovery, rewritten where packs go
unfoldable pub index_stage : Env → Bool → List ContentId → Exec (Unit {0})
index_stage env true ignore = attempt env.deletes_index index_failed removed_index
index_stage env false [] = done
index_stage env false (p ∷ ignore) =
    attempt env.rewrites_index index_failed (rewrote_index (p ∷ ignore))

unfoldable pub check_context : Bool → Exec (Unit {0})
check_context true = fail cancelled
check_context false = done

-- after a recovery a fresh index is written
unfoldable pub fallback_stage : Env → Bool → List ContentId → Exec (Unit {0})
fallback_stage env true ignore = attempt env.saves_fallback index_failed (saved_fallback ignore)
fallback_stage env false ignore = done

-- `Execute`, unless it is a dry run
unfoldable pub execute_plan : Env → Repo → PrunePlan → Exec (Unit {0})
execute_plan env repo plan = do
  (remove_files env plan.remove_packs_first, ok tt)
  check_context env.cancelled_early
  repack_stage env repo.index plan.repack_packs (or_empty plan.keep_blobs)
  let remove = merge plan.remove_packs plan.repack_packs
  let ignore = merge plan.ignore_packs remove
  index_stage env plan.opts.unsafe_recovery ignore
  (remove_files env remove, ok tt)
  check_context env.cancelled_late
  fallback_stage env plan.opts.unsafe_recovery ignore

-- `Execute`
unfoldable pub execute : Env → Repo → PrunePlan → Exec (Unit {0})
execute env repo plan = if plan.opts.dry_run then done else execute_plan env repo plan

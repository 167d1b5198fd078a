-- ===== src/Prune/Repack.antt =====
-- The second half of `decidePackAction` of internal/repository/prune.go: which candidates are
-- repacked, within the limits of the options, and the function as a whole. `sort.Slice` belongs to
-- Go's library and is the parameter `sort_slice`.
pub mod Sets
use vlbe.Base.{
  ℕ, Bool, true, false, ◌&&◌, ◌||◌, not, List, [], ◌∷◌, length, ltb, leb, if◌then◌else◌, add64,
  sub64, mul64, add, ℕ_key,
}
use vlbe.Restic.Blob.{ContentId, data_blob, same_type}
use vlbe.Prune.Types.{
  PruneOptions, PruneStats, PackInfo, IndexPack, Repo, Outcome, ok, err, ◌>>=◌, packs_missing,
}
use vlbe.Prune.Decide.{
  PackInfoWithId, Deciding, Missing, target_pack_size, index_size, note_kept, decide_all,
  sort_missing, add_small,
}

-- the order of the candidates: trees, mixed and short packs first, then by unused over used size
unfoldable pub picks_before : ℕ → PackInfoWithId → PackInfoWithId → Bool
picks_before target pi pj =
    if not (same_type pi.info.tpe data_blob) && same_type pj.info.tpe data_blob
    then true
    else if not (same_type pj.info.tpe data_blob) && same_type pi.info.tpe data_blob
    then false
    else if ltb (index_size pi.info) target && leb target (index_size pj.info)
    then true
    else if ltb (index_size pj.info) target && leb target (index_size pi.info)
    then false
    else ltb (mul64 pj.info.unused_size pi.info.used_size)
        (mul64 pi.info.unused_size pj.info.used_size)

-- the function `repack`
unfoldable pub repack : PackInfoWithId → Deciding → Deciding
repack c st =
    let s = st.stats in
    let p = c.info in
    let repacked = record (s.size) {
      repack = add64 s.size.repack (index_size p);
      repackrm = add64 s.size.repackrm p.unused_size;
    } in
    record st {
      repack_packs = add c.id st.repack_packs;
      stats = record s {
        blobs = record (s.blobs) {
          repack = add64 s.blobs.repack (add64 p.unused_blobs p.used_blobs);
          repackrm = add64 s.blobs.repackrm p.unused_blobs;
        };
        size =
            if p.uncompressed
            then record repacked { uncompressed = sub64 repacked.uncompressed (index_size p) }
            else repacked;
      };
    }

unfoldable pub reached_unused_size : ℕ → PruneStats → Bool
reached_unused_size max_unused s =
    ltb (sub64 (sub64 s.size.unused s.size.remove) s.size.repackrm) max_unused

-- `stats.Size.Repack + p.unusedSize + p.usedSize >= opts.MaxRepackBytes`
unfoldable pub reached_repack_size : PruneOptions → PackInfo → PruneStats → Bool
reached_repack_size opts p s =
    leb opts.max_repack_bytes (add64 (add64 s.size.repack p.unused_size) p.used_size)

-- the loop over the candidates
unfoldable pub repack_step : PruneOptions → ℕ → ℕ → PackInfoWithId → Deciding → Deciding
repack_step opts target max_unused c st =
    if reached_repack_size opts c.info st.stats
    then record st { stats = note_kept 1 st.stats }
    else if not (same_type c.info.tpe data_blob) || c.must_compress
    then repack c st
    else if reached_unused_size max_unused st.stats && leb target (index_size c.info)
    then record st { stats = note_kept 1 st.stats }
    else repack c st

unfoldable pub repack_all : PruneOptions → ℕ → ℕ → List PackInfoWithId → Deciding → Deciding
repack_all opts target max_unused [] st = st
repack_all opts target max_unused (c ∷ cs) st =
    repack_all opts target max_unused cs (repack_step opts target max_unused c st)

-- the sets of `PrunePlan`, with the statistics
pub record Decision : Type 0 where
  pub remove_packs_first : List ContentId
  pub remove_packs : List ContentId
  pub repack_packs : List ContentId
  pub ignore_packs : List ContentId
  pub stats : PruneStats

-- the numbers that are known at the end
unfoldable pub final_stats : Repo → Deciding → PruneStats
final_stats repo st =
    let s = st.stats in
    record s {
      packs = record (s.packs) {
        unref = length st.remove_packs_first;
        repack = length st.repack_packs;
        remove = length st.remove_packs;
      };
      size = if ltb repo.version 2 then record (s.size) { uncompressed = 0 } else s.size;
    }

-- the state that `decidePackAction` begins with
abbrev pub start : IndexPack → PruneStats → Deciding
start index_pack stats = record {
  remove_packs_first = [];
  remove_packs = [];
  repack_packs = [];
  repack_candidates = [];
  repack_small_candidates = [];
  index_pack = index_pack;
  stats = stats;
}

-- `sort.Slice` by the order of the candidates
abbrev pub Sorter : Type 0
Sorter = (PackInfoWithId → PackInfoWithId → Bool) → List PackInfoWithId → List PackInfoWithId

-- sorting and choosing the candidates
unfoldable pub choose_repacks : Sorter → PruneOptions → Repo → Deciding → Deciding
choose_repacks sort_slice opts repo st =
    let target = target_pack_size opts repo in
    repack_all opts target (opts.max_unused_bytes st.stats.size.used)
      (sort_slice (picks_before target) st.repack_candidates) st

-- what follows once the packs are sorted that the backend lacks
unfoldable pub finish_with :
    Sorter → PruneOptions → Repo → List ContentId → Missing → Deciding → Outcome Decision
finish_with sort_slice opts repo [] m st =
    let st' = choose_repacks sort_slice opts repo (add_small (record st { stats = m.stats })) in
    ok (record {
      remove_packs_first = st'.remove_packs_first;
      remove_packs = st'.remove_packs;
      repack_packs = st'.repack_packs;
      ignore_packs = m.ignore_packs;
      stats = final_stats repo st';
    })
finish_with sort_slice opts repo (id ∷ more) m st = err packs_missing

unfoldable pub finish : Sorter → PruneOptions → Repo → Deciding → Outcome Decision
unfolding finish_with
finish sort_slice opts repo st =
    let m =
      sort_missing st.index_pack (record { ignore_packs = []; needed = []; stats = st.stats }) in
    finish_with sort_slice opts repo m.needed m st

-- `decidePackAction`
unfoldable pub decide_pack_action :
    Sorter → PruneOptions → Repo → IndexPack → PruneStats → Outcome Decision
decide_pack_action sort_slice opts repo index_pack stats =
    decide_all opts repo repo.packs (start index_pack stats) >>= finish sort_slice opts repo

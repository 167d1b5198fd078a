-- ===== src/Prune/Decide.antt =====
-- `decidePackAction` of internal/repository/prune.go: what happens to each pack file.
pub mod Sets
use vlbe.Base.{
  ℕ, ◌/◌, Bool, false, ◌&&◌, ◌||◌, not, List, [], ◌∷◌, ◌++◌, none, some, length, ltb, leb, ◌==◌,
  if◌then◌else◌, add64, mul64, ℕ_key, lookup, delete, add,
}
use vlbe.Restic.Blob.{ContentId, invalid_blob, data_blob, tree_blob, same_type}
use vlbe.Prune.Types.{
  PruneOptions, PruneStats, PackInfo, IndexPack, Repo, Outcome, ok, err, ◌>>=◌, size_not_matching,
}

-- `packInfoWithID`
pub record PackInfoWithId : Type 0 where
  pub id : ContentId
  pub info : PackInfo
  pub open info use *
  pub must_compress : Bool

-- The sets and candidates that the function collects, the packs of the index that are still to
-- come, and the statistics.
pub record Deciding : Type 0 where
  pub remove_packs_first : List ContentId
  pub remove_packs : List ContentId
  pub repack_packs : List ContentId
  pub repack_candidates : List PackInfoWithId
  pub repack_small_candidates : List PackInfoWithId
  pub index_pack : IndexPack
  pub stats : PruneStats

-- `targetPackSize`
unfoldable pub target_pack_size : PruneOptions → Repo → ℕ
target_pack_size opts repo =
    if opts.repack_small then mul64 (repo.pack_size / 5) 4 else repo.pack_size / 25

-- the size of a pack as the index tells it
unfoldable pub index_size : PackInfo → ℕ
index_size p = add64 p.unused_size p.used_size

-- `mustCompress`
unfoldable pub must_compress : PruneOptions → Repo → PackInfo → Bool
must_compress opts repo p =
    if leb 2 repo.version
    then (same_type p.tpe tree_blob || opts.repack_uncompressed) && p.uncompressed
    else false

-- the statistics that each pack of the index enters
unfoldable pub note_pack : PackInfo → PruneStats → PruneStats
note_pack p s =
    let packs =
      if p.used_blobs == 0
      then record (s.packs) { unused = add64 s.packs.unused 1 }
      else if p.unused_blobs == 0
      then record (s.packs) { used = add64 s.packs.used 1 }
      else record (s.packs) { partly_used = add64 s.packs.partly_used 1 } in
    let size =
      if p.uncompressed
      then record (s.size) { uncompressed = add64 s.size.uncompressed (index_size p) }
      else s.size in
    record s { packs = packs; size = size }

-- the statistics of a pack that goes with all its blobs
unfoldable pub note_removed : PackInfo → PruneStats → PruneStats
note_removed p s = record s {
  blobs = record (s.blobs) { remove = add64 s.blobs.remove p.unused_blobs };
  size = record (s.size) { remove = add64 s.size.remove p.unused_size };
}

-- `stats.Packs.Keep += n`
unfoldable pub note_kept : ℕ → PruneStats → PruneStats
note_kept n s = record s { packs = record (s.packs) { keep = add64 s.packs.keep n } }

-- the second `switch` of the callback
unfoldable pub decide_pack : PruneOptions → Repo → ContentId → ℕ → PackInfo → Deciding → Deciding
decide_pack opts repo id pack_size p st =
    let candidate : PackInfoWithId = record {
      id = id;
      info = p;
      must_compress = must_compress opts repo p;
    } in
    if p.used_blobs == 0
    then record st { remove_packs = add id st.remove_packs; stats = note_removed p st.stats }
    else if opts.repack_cacheable_only && same_type p.tpe data_blob
    then record st { stats = note_kept 1 st.stats }
    else if (p.unused_blobs == 0)
        && not (same_type p.tpe invalid_blob)
        && not (must_compress opts repo p)
    then (if leb (target_pack_size opts repo) pack_size
        then record st { stats = note_kept 1 st.stats }
        else record st { repack_small_candidates = st.repack_small_candidates ++ candidate ∷ [] })
    else record st { repack_candidates = st.repack_candidates ++ candidate ∷ [] }

-- a pack file that the index knows
unfoldable pub known_pack :
    PruneOptions → Repo → ContentId → ℕ → PackInfo → Deciding → Outcome Deciding
known_pack opts repo id pack_size p st =
    if not (index_size p == pack_size) && not (p.used_blobs == 0)
    then err size_not_matching
    else let st' =
        decide_pack opts repo id pack_size p (record st { stats = note_pack p st.stats }) in
      ok (record st' { index_pack = delete id st'.index_pack })

-- a pack file that the index does not know
unfoldable pub unknown_pack : ContentId → ℕ → Deciding → Deciding
unknown_pack id pack_size st = record st {
  remove_packs_first = add id st.remove_packs_first;
  stats = record (st.stats) {
    size = record (st.stats.size) { unref = add64 st.stats.size.unref pack_size };
  };
}

-- the callback of `repo.List`, for one pack file
unfoldable pub decide_step : PruneOptions → Repo → ContentId → ℕ → Deciding → Outcome Deciding
decide_step opts repo id pack_size st = elim (lookup id st.index_pack) [
  | none ↦ ok (unknown_pack id pack_size st)
  | some p ↦ known_pack opts repo id pack_size p st
]

unfoldable pub decide_all : PruneOptions → Repo → List (ContentId × ℕ) → Deciding → Outcome Deciding
decide_all opts repo [] st = ok st
decide_all opts repo ((id, pack_size) ∷ files) st =
    decide_step opts repo id pack_size st >>= decide_all opts repo files

-- The packs of the index that the backend does not have: those with no used blob are ignored.
pub record Missing : Type 0 where
  pub ignore_packs : List ContentId
  pub needed : List ContentId
  pub stats : PruneStats

unfoldable pub sort_missing : IndexPack → Missing → Missing
sort_missing [] m = m
sort_missing ((id, p) ∷ packs) m = sort_missing packs (
    if p.used_blobs == 0
    then record m { ignore_packs = add id m.ignore_packs; stats = note_removed p m.stats }
    else record m { needed = id ∷ m.needed })

-- fewer than ten small packs are kept as they are
unfoldable pub add_small : Deciding → Deciding
add_small st =
    if ltb (length st.repack_small_candidates) 10
    then record st { stats = note_kept (length st.repack_small_candidates) st.stats }
    else record st { repack_candidates = st.repack_candidates ++ st.repack_small_candidates }

-- ===== src/Prune/Select.antt =====
-- `packInfoFromIndex` of internal/repository/prune.go: three passes over the blobs of the index
-- count the copies of each used blob, sort the blobs of each pack, and choose one copy of each
-- duplicate.
pub mod Copies
pub mod Held
pub mod Ends
pub mod Result
pub mod Known
use vlbe.Base.{
  ℕ, ◌+◌, ◌-◌, Bool, true, false, ◌||◌, not, List, [], ◌∷◌, Option, none, some, ltb, leb, ◌==◌,
  if◌then◌else◌, add64, sub64, Map, ℕ_key, lookup, insert,
}
use vlbe.Restic.Blob.{
  ContentId, BlobHandle, PackedBlob, invalid_blob, num_blob_types, same_type, is_compressed,
  handle_key,
}
use vlbe.Pack.Size.{size}
use vlbe.Prune.Types.{
  PruneStats, PackInfo, or_zero, IndexPack, Counts, Outcome, ok, err, panic, index_incomplete,
}

-- `usedBlobs` as `getUsedBlobs` leaves it: each used blob once, with the counter 0
unfoldable pub used_set : List BlobHandle → Counts → Counts
used_set [] used = used
used_set (h ∷ hs) used = used_set hs (insert h 0 used)

-- First pass: a used blob counts one more copy, up to 255.
unfoldable pub count_step : PackedBlob → Counts → Counts
count_step b used = elim (lookup b.handle used) [
  | none ↦ used
  | some count ↦ insert b.handle (if ltb count 255 then count + 1 else count) used
]

unfoldable pub count_blobs : List PackedBlob → Counts → Counts
count_blobs [] used = used
count_blobs (b ∷ bs) used = count_blobs bs (count_step b used)

-- `missingBlobs`
unfoldable pub missing_blobs : Counts → List BlobHandle
missing_blobs [] = []
missing_blobs ((h, count) ∷ used) =
    let rest = missing_blobs used in if count == 0 then h ∷ rest else rest

-- `indexPack` before the second pass: the header of each pack counts as used
unfoldable pub header_infos : Map ContentId ℕ → IndexPack
header_infos [] = []
header_infos ((pid, hdr_size) ∷ sizes) =
    (
      pid,
      record {
        used_blobs = 0;
        unused_blobs = 0;
        duplicate_blobs = 0;
        used_size = hdr_size;
        unused_size = 0;
        tpe = num_blob_types;
        uncompressed = false;
      },
    )
    ∷ header_infos sizes

-- `count, ok := usedBlobs.Get(bh)`
abbrev pub or_none : Option ℕ → ℕ
or_none none = 0
or_none (some n) = n

-- what the passes change
pub record Selection : Type 0 where
  pub index_pack : IndexPack
  pub stats : PruneStats
  pub has_duplicates : Bool

-- the type of a pack: that of its blobs, or `InvalidBlob` where they differ
unfoldable pub set_type : PackedBlob → PackInfo → PackInfo
set_type b ip =
    let first = if same_type ip.tpe num_blob_types then record ip { tpe = b.handle.tpe } else ip in
    if same_type first.tpe b.handle.tpe then first else record first { tpe = invalid_blob }

-- the cases of the second pass, by `dupCount`
unfoldable pub sort_blob : ℕ → ℕ → PackInfo → PackInfo
sort_blob dup_count size ip =
    if leb 2 dup_count
    then record ip {
      unused_size = add64 ip.unused_size size;
      unused_blobs = add64 ip.unused_blobs 1;
      duplicate_blobs = add64 ip.duplicate_blobs 1;
    }
    else if dup_count == 1
    then record ip { used_size = add64 ip.used_size size; used_blobs = add64 ip.used_blobs 1 }
    else record ip {
      unused_size = add64 ip.unused_size size;
      unused_blobs = add64 ip.unused_blobs 1;
    }

unfoldable pub sort_stats : ℕ → ℕ → PruneStats → PruneStats
sort_stats dup_count size s =
    if leb 2 dup_count
    then record s {
      size = record (s.size) { duplicate = add64 s.size.duplicate size };
      blobs = record (s.blobs) { duplicate = add64 s.blobs.duplicate 1 };
    }
    else if dup_count == 1
    then record s {
      size = record (s.size) { used = add64 s.size.used size };
      blobs = record (s.blobs) { used = add64 s.blobs.used 1 };
    }
    else record s {
      size = record (s.size) { unused = add64 s.size.unused size };
      blobs = record (s.blobs) { unused = add64 s.blobs.unused 1 };
    }

-- what the second pass makes of a pack, by a blob with the counter `dup_count`
unfoldable pub classified : ℕ → PackedBlob → PackInfo → PackInfo
unfolding sort_blob set_type
classified dup_count b ip =
    let sorted = sort_blob dup_count b.length (set_type b ip) in
    if not (is_compressed b.blob) then record sorted { uncompressed = true } else sorted

-- Second pass, over one blob.
unfoldable pub classify_step : Counts → PackedBlob → Selection → Selection
classify_step used b st =
    let dup_count = or_none (lookup b.handle used) in
    let ip = or_zero (lookup b.pack_id st.index_pack) in
    record {
      index_pack = insert b.pack_id (classified dup_count b ip) st.index_pack;
      stats = sort_stats dup_count b.length st.stats;
      has_duplicates = st.has_duplicates || leb 2 dup_count;
    }

unfoldable pub classify : Counts → List PackedBlob → Selection → Selection
classify used [] st = st
classify used (b ∷ bs) st = classify used bs (classify_step used b st)

-- the state of the third pass
pub record Picking : Type 0 where
  pub counts : Counts
  pub index_pack : IndexPack
  pub stats : PruneStats

-- the test of the third pass: does this copy of a duplicate become the used one?
unfoldable pub takes_copy : ℕ → PackInfo → Bool
takes_copy count ip = ltb 0 ip.used_blobs || (ip.duplicate_blobs == ip.unused_blobs) || (count == 0)

unfoldable pub use_copy : ℕ → PackInfo → PackInfo
use_copy size ip = record ip {
  used_size = add64 ip.used_size size;
  used_blobs = add64 ip.used_blobs 1;
  unused_size = sub64 ip.unused_size size;
  unused_blobs = sub64 ip.unused_blobs 1;
}

unfoldable pub use_stats : ℕ → PruneStats → PruneStats
use_stats size s = record s {
  size = record (s.size) { used = add64 s.size.used size; duplicate = sub64 s.size.duplicate size };
  blobs = record (s.blobs) { used = add64 s.blobs.used 1; duplicate = sub64 s.blobs.duplicate 1 };
}

-- the counter of a duplicate that stays unused: 0 says that one copy is left
unfoldable pub pass_over : ℕ → ℕ
pass_over count = if (count - 1) == 1 then 0 else count - 1

-- Third pass, over one blob with the counter `count`.
unfoldable pub pick_copy : ℕ → PackedBlob → Picking → Picking
pick_copy count b st =
    let ip = or_zero (lookup b.pack_id st.index_pack) in
    if takes_copy count ip
    then record {
      counts = insert b.handle 1 st.counts;
      index_pack = insert b.pack_id (use_copy b.length ip) st.index_pack;
      stats = use_stats b.length st.stats;
    }
    else record {
      counts = insert b.handle (pass_over count) st.counts;
      index_pack = insert b.pack_id ip st.index_pack;
      stats = st.stats;
    }

unfoldable pub pick_step : PackedBlob → Picking → Picking
pick_step b st = elim (lookup b.handle st.counts) [
  | none ↦ st
  | some count ↦ if count == 1 then st else pick_copy count b st
]

unfoldable pub pick : List PackedBlob → Picking → Picking
pick [] st = st
pick (b ∷ bs) st = pick bs (pick_step b st)

-- the sanity check: every counter is 1
unfoldable pub all_ones : Counts → Bool
all_ones [] = true
all_ones ((h, count) ∷ used) = let rest = all_ones used in if count == 1 then rest else false

unfoldable pub check_picked : Picking → Outcome Picking
check_picked st = if all_ones st.counts then ok st else panic

-- the passes after the count
unfoldable pub select_copies : List PackedBlob → Counts → PruneStats → Picking
select_copies index counts stats =
    let infos = header_infos (size true index []) in
    let st =
      classify counts index
        (record { index_pack = infos; stats = stats; has_duplicates = false }) in
    let sorted : Picking = record {
      counts = counts;
      index_pack = st.index_pack;
      stats = st.stats;
    } in
    if st.has_duplicates then pick index sorted else sorted

-- without missing blobs the selection is checked, with some the function fails
unfoldable pub conclude : List BlobHandle → Picking → Outcome Picking
unfolding check_picked
conclude [] picked = check_picked picked
conclude (h ∷ more) picked = err index_incomplete

-- `packInfoFromIndex`: the counters, the packs and the statistics
unfoldable pub pack_info_from_index : List PackedBlob → Counts → PruneStats → Outcome Picking
pack_info_from_index index used stats =
    let counts = count_blobs index used in
    conclude (missing_blobs counts) (select_copies index counts stats)

-- ===== src/Lib.antt =====
-- A verification library for this repository, a backup program: snapshots of file trees are cut into
-- blobs, blobs are stored in pack files, and index files say which pack holds which blob.
--
-- The parts modelled here are those that decide what is thrown away, and those that find again what was
-- stored: sealing, pack files and the index. `forget` applies a policy to the
-- snapshots; `prune` finds the blobs that the remaining snapshots use, chooses for each pack file
-- whether to keep, repack or remove it, and carries that out; the filter decides which paths a
-- backup leaves out.
--
-- - internal/restic/blob.go, id.go: Restic/Blob.antt. A handle is a type and an identifier, and an
--   identifier is a number. A table keyed by handles is an association list (Base/Maps.antt) whose
--   laws need only that the test on keys decides equality.
-- - internal/crypto/crypto.go, buffer.go: Crypto.antt has `Seal` and `Open`. A slice of bytes is a list
--   of numbers.
-- - internal/repository/pack/pack.go: Pack/Size.antt has `CalculateEntrySize`, `CalculateHeaderSize`
--   and `Size`, which prune uses to know a pack's size from the index; Pack/Header.antt has the header
--   at the end of a pack, from `makeHeader` to `List`; Pack/Packer.antt has the packer with `Add`,
--   `Finalize` and `verifyHeader`.
-- - internal/repository/index/indexmap.go: Index/Hashed.antt has the hash table of the index, whose
--   `hashedArrayTree` is a list of entries there; Index/ArrayTree.antt has `hashedArrayTree` itself, with
--   its blocks.
-- - internal/repository/index/index.go: Index/PackIndex.antt has one index, and Index/Saved.antt the list
--   of packs that is saved and its decoding.
-- - internal/repository/index/master_index.go: Index/Master.antt has the indexes of a repository and the
--   pending blobs.
-- - internal/repository/prune.go: Prune/Types.antt has the options, the statistics and `packInfo`;
--   Prune/Select.antt has `packInfoFromIndex`, with one function for the body of each of its loops;
--   Prune/Decide.antt and Prune/Repack.antt have `decidePackAction`; Prune/Plan.antt has `PlanPrune`;
--   Prune/Execute.antt has `PrunePlan.Execute`, with `repack` of internal/repository/repack.go, as a
--   computation that returns the list of its effects on the repository besides its result.
-- - internal/filter/filter.go: Filter.antt has the patterns and `match`; Filter/Spec.antt says what a
--   pattern means without the order in which `match` tries things; Filter/Patterns.antt has the lists
--   of patterns, `list`.
-- - internal/restic/snapshot_policy.go, with parts of snapshot.go and duration.go: Policy/Types.antt
--   has a policy and its reasons, and Policy.antt `ApplyPolicy`; Tags.antt has the changes of a
--   snapshot's tags and the tests a snapshot is selected by.
-- - internal/repository/index/associated_data.go: Index/Associated.antt has `AssociatedSet`, the map that
--   prune keeps its counters in; `blobIndex` is a parameter there, and a definition in Index/Master.antt.
-- - internal/bloblru/cache.go: BlobCache.antt has the cache of blobs in memory, less `GetOrCompute`.
--
-- How they are connected: `Finalize` of the packer seals the header with `Seal` and reads it again with
-- `List` before it is written; the blobs of a finished pack go to `MasterIndex.StorePack`, which puts
-- them into the hash tables of an open index. `PlanPrune` calls `packInfoFromIndex` on the index and the used blobs, hands
-- the table of packs to `decidePackAction`, and drops from the blobs to copy those that stay in a
-- pack; `Execute` takes the plan. `Exec` in Prune/Execute.antt composes stages that fail: the effects up
-- to a failure stay. A property about every moment is one about every prefix of the list of effects.
--
-- Integers. Counters of 64 bits wrap around (Base/Words.antt); the 8-bit counter of duplicates stops
-- at 255, as the source does. Subtraction on natural numbers is used where the source's result cannot
-- be negative, or where a negative bound makes a loop run no round, as does 0.
--
-- Fuel. `match` of the filter calls itself on an argument that is not a part of its own; it is
-- given as many steps as the pattern has `**`, since each call has one less; Filter/Definite.antt proves
-- that it never runs out. The loop that makes room in the blob cache is given as many rounds as there
-- are entries, and BlobCache/Bounds.antt shows that they last. The loop of `List` is given the length of
-- the header, of which every entry takes some, and a walk along a chain of the hash table as many steps
-- as there are entries and one more, since links lead to older entries (Index/Hashed/Chains.antt).
--
-- What is a parameter. The environment of `Execute` (`Env`) decides which calls to the backend fail and
-- when the context is cancelled. `sort.Slice` and `sort.Stable`, `filepath.Match`, `filepath.Clean`,
-- the splitting of strings and `time.Time` belong to Go's library: they are arguments or the records
-- `PathLib` and `TimeLib`; golang-lru is the record `LruLib`,
-- and what it documents is `LruLaws` and `IsFixedSize`; AES and Poly1305 are the record
-- `CipherLib`, and what they document is `CipherLaws`; `maphash` is an arbitrary function. The listing of pack files is a list in
-- `Repo`, whose items are distinct where a theorem says so.
--
-- What is not modelled. The workers of `repack` share the set of blobs to keep under a lock, and are run
-- one after the other. Progress output is left out. Data races, the network and the text of JSON files are
-- not modelled, nor are the archiver, the restorer, the repository's uploads, the locks and the storage
-- backends. The locks of packers and indexes are left out: each of their operations is one step.
pub mod Base
pub mod Restic
pub mod Crypto
pub mod Pack
pub mod Prune
pub mod Filter
pub mod Policy
pub mod Tags
pub mod Index
pub mod BlobCache
mod Tests

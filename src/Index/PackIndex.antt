-- ===== src/Index/PackIndex.antt =====
-- internal/repository/index/index.go: one index. Its locks are left out: each operation is one step. A
-- panic is an error value, too. The clock is the argument `age` of `index_full`.
pub mod Lookup
pub mod Stored
pub mod Merging
pub mod Merged
pub mod Lifecycle
use vlbe.Base.{
  ℕ, zero, suc, ◌+◌, ◌-◌, ◌*◌, ◌^◌, Bool, true, false, ◌&&◌, ◌||◌, not, List, [], ◌∷◌, ◌++◌, Option,
  none, some, length, ltb, leb, ◌==◌, if◌then◌else◌, map, add, merge, ℕ_key,
}
use vlbe.Restic.Blob.{
  ContentId, BlobType, invalid_blob, data_blob, tree_blob, same_type, BlobHandle, Blob, PackedBlob,
  same_packed_blob,
}
use vlbe.Crypto.{plaintext_length}
use vlbe.Index.Hashed.{
  IndexEntry, IndexMap, new_index_map, foreach, foreach_with_id, get, first_index,
}
use vlbe.Index.Hashed

-- `Index`; no blob has the type `num_blob_types`
pub record Index : Type 0 where
  pub by_type : BlobType → IndexMap
  pub packs : List ContentId
  pub final : Bool
  pub ids : List ContentId

pub data IndexError : Type 0 where
  does_not_fit finalized_store not_finalized not_final already_set merged_not_final out_of_range :
      IndexError
  null_pack nil_pointer legacy_format not_json : IndexError

pub data IndexAnswer (A : Type 0) : Type 0 where
  ok : A → IndexAnswer A
  err : IndexError → IndexAnswer A

infixl 5 ◌>>=◌
abbrev pub ◌>>=◌ : {A B : Type 0} → IndexAnswer A → (A → IndexAnswer B) → IndexAnswer B
ok a >>= f = f a
err e >>= f = err e

-- `NewIndex`, by the seeds of the hash tables
abbrev pub new_index : (BlobType → ℕ) → Index
new_index seeds = record {
  by_type = λ t. new_index_map (seeds t);
  packs = [];
  final = false;
  ids = [];
}

abbrev pub all_types : List BlobType
all_types = invalid_blob ∷ data_blob ∷ tree_blob ∷ []

abbrev pub max_uint32 : ℕ
max_uint32 = 2 ^ 32 - 1

-- `&idx.byType[t]` changed to `m`
unfoldable pub set_map : BlobType → IndexMap → (BlobType → IndexMap) → BlobType → IndexMap
set_map t m by_type s = if same_type t s then m else by_type s

-- `idx.packs[i]`. An index out of range panics, and is 0 here; `IsIndex` rules it out.
unfoldable pub pack_at : List ContentId → ℕ → ContentId
pack_at [] i = 0
pack_at (p ∷ ps) zero = p
pack_at (p ∷ ps) (suc i) = pack_at ps i

-- `toPackedBlob`, of an index with these packs
unfoldable pub to_packed_blob : List ContentId → BlobType → IndexEntry → PackedBlob
to_packed_blob packs t e = record {
  blob = record {
    handle = record { id = e.id; tpe = t };
    length = e.length;
    offset = e.offset;
    uncompressed_length = e.uncompressed_length;
  };
  pack_id = pack_at packs e.pack_index;
}

-- `Finalize`
unfoldable pub finalize : Index → Index
finalize idx = record idx { final = true }

-- `IDs`
unfoldable pub get_ids : Index → IndexAnswer (List ContentId)
get_ids idx = if not idx.final then err not_finalized else ok idx.ids

-- `SetID`
unfoldable pub set_id : ContentId → Index → IndexAnswer Index
set_id id idx =
    if not idx.final
    then err not_final
    else if ltb 0 (length idx.ids)
    then err already_set
    else ok (record idx { ids = idx.ids ++ (id ∷ []) })

-- `Packs`
unfoldable pub packs_of : Index → List ContentId
packs_of idx = merge [] idx.packs

-- `Len`
unfoldable pub len : BlobType → Index → ℕ
len t idx = (idx.by_type t).numentries

abbrev pub index_max_blobs : ℕ
index_max_blobs = 50000

-- `IndexFull`; is the index as old as `indexMaxAge`?
unfoldable pub index_full : Bool → Index → Bool
unfolding len
index_full old idx =
    let blobs = (len invalid_blob idx + len data_blob idx) + len tree_blob idx in
    if old then true else leb index_max_blobs blobs

-- `hasIdenticalEntry`, over the entries that `foreachWithID` passes
unfoldable pub any_identical : List ContentId → BlobType → PackedBlob → List IndexEntry → Bool
any_identical packs t b2 [] = false
any_identical packs t b2 (e ∷ es) =
    same_packed_blob (to_packed_blob packs t e) b2 || any_identical packs t b2 es

module _ (sum64 : ℕ → ContentId → ℕ) where
  -- `store`
  unfoldable pub store : ℕ → Blob → Index → IndexAnswer Index
  store pack_index b idx =
      let e : IndexEntry = record {
        id = b.handle.id;
        pack_index = pack_index;
        offset = b.offset;
        length = b.length;
        uncompressed_length = b.uncompressed_length;
      } in
      if ltb max_uint32 b.offset
        || (ltb max_uint32 b.length || ltb max_uint32 b.uncompressed_length)
      then err does_not_fit
      else ok (record idx {
        by_type = set_map b.handle.tpe (Hashed.add sum64 e (idx.by_type b.handle.tpe)) idx.by_type;
      })

  -- the loop of `StorePack`
  unfoldable pub store_all : ℕ → List Blob → Index → IndexAnswer Index
  store_all pack_index [] idx = ok idx
  store_all pack_index (b ∷ bs) idx =
      store pack_index b idx >>= λ next. store_all pack_index bs next

  -- `StorePack`
  unfoldable pub store_pack : ContentId → List Blob → Index → IndexAnswer Index
  store_pack id blobs idx =
      if idx.final
      then err finalized_store
      else store_all (length idx.packs) blobs (record idx { packs = idx.packs ++ (id ∷ []) })

  -- `Lookup`
  unfoldable pub lookup : BlobHandle → Index → List PackedBlob → List PackedBlob
  lookup bh idx pbs =
      pbs
      ++ map (to_packed_blob idx.packs bh.tpe) (foreach_with_id sum64 bh.id (idx.by_type bh.tpe))

  -- `Has`
  unfoldable pub has_blob : BlobHandle → Index → Bool
  has_blob bh idx = elim (get sum64 bh.id (idx.by_type bh.tpe)) [ none ↦ false | some e ↦ true ]

  -- `LookupSize`
  unfoldable pub lookup_size : BlobHandle → Index → Option ℕ
  lookup_size bh idx = elim (get sum64 bh.id (idx.by_type bh.tpe)) [
    | none ↦ none
    | some e ↦
        if not (e.uncompressed_length == 0)
        then some e.uncompressed_length
        else some (plaintext_length e.length)
  ]

  -- `BlobIndex`
  unfoldable pub blob_index : BlobHandle → Index → Option ℕ
  blob_index bh idx = first_index sum64 bh.id (idx.by_type bh.tpe)

  -- the callback of `m2.foreach`; `packs` are the packs of both
  unfoldable pub merge_entry :
      ℕ → List ContentId → List ContentId → BlobType → IndexEntry → IndexMap → IndexMap
  merge_entry packlen packs packs2 t e2 m =
      if any_identical packs t (to_packed_blob packs2 t e2) (foreach_with_id sum64 e2.id m)
      then m
      else Hashed.add sum64 (record e2 { pack_index = e2.pack_index + packlen }) m

  unfoldable pub merge_entries :
      ℕ → List ContentId → List ContentId → BlobType → List IndexEntry → IndexMap → IndexMap
  merge_entries packlen packs packs2 t [] m = m
  merge_entries packlen packs packs2 t (e2 ∷ es2) m =
      merge_entries packlen packs packs2 t es2 (merge_entry packlen packs packs2 t e2 m)

  -- the loop of `merge` over the types
  unfoldable pub merge_types : ℕ → Index → List BlobType → Index → Index
  merge_types packlen idx2 [] idx = idx
  merge_types packlen idx2 (t ∷ ts) idx = merge_types packlen idx2 ts (record idx {
    by_type =
        set_map t
          (merge_entries packlen idx.packs idx2.packs t (foreach (idx2.by_type t)) (idx.by_type t))
          idx.by_type;
  })

  -- `merge`
  unfoldable pub merge_index : Index → Index → IndexAnswer Index
  merge_index idx idx2 =
      if not idx2.final
      then err merged_not_final
      else let both = record idx { packs = idx.packs ++ idx2.packs } in
        let merged = merge_types (length idx.packs) idx2 all_types both in
        ok (record merged { ids = merged.ids ++ idx2.ids })

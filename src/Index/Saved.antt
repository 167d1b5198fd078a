-- ===== src/Index/Saved.antt =====
-- internal/repository/index/index.go: the form in which an index is saved. JSON is a library: an index file
-- is what `json.Unmarshal` makes of it.
pub mod Listing
pub mod Types
pub mod Decoding
use vlbe.Base.{ℕ, Bool, true, false, List, [], ◌∷◌, ◌++◌, length, ◌==◌, if◌then◌else◌, map}
use vlbe.Restic.Blob.{ContentId, BlobType, Blob, PackedBlob}
use vlbe.Index.Hashed.{foreach}
use vlbe.Index.PackIndex.{
  Index, IndexError, null_pack, nil_pointer, legacy_format, not_json, IndexAnswer, ok, err, ◌>>=◌,
  new_index, all_types, to_packed_blob, store_all,
}

-- `packJSON`; a `blobJSON` has the fields of a blob
pub record PackJson : Type 0 where
  pub id : ContentId
  pub blobs : List Blob

-- the blobs of some types, in the order of `Each`
unfoldable pub each_of : Index → List BlobType → List PackedBlob
each_of idx [] = []
each_of idx (t ∷ ts) = map (to_packed_blob idx.packs t) (foreach (idx.by_type t)) ++ each_of idx ts

-- `Each`, as the list of the blobs that it passes to `fn`
unfoldable pub each : Index → List PackedBlob
each idx = each_of idx all_types

-- A blob joins its pack in the list, or starts it. `packs` maps a pack to its place in the list.
unfoldable pub append_blob : ContentId → Blob → List PackJson → List PackJson
append_blob pack b [] = record { id = pack; blobs = b ∷ [] } ∷ []
append_blob pack b (j ∷ js) =
    let rest = append_blob pack b js in
    if j.id == pack then record { id = j.id; blobs = j.blobs ++ (b ∷ []) } ∷ js else j ∷ rest

-- the loop of `generatePackList`, over the blobs in the order of `Each`
unfoldable pub generate_from : List PackedBlob → List PackJson → IndexAnswer (List PackJson)
generate_from [] list = ok list
generate_from (pb ∷ pbs) list =
    if pb.pack_id == 0
    then err null_pack
    else generate_from pbs (append_blob pb.pack_id pb.blob list)

-- `generatePackList`
unfoldable pub generate_pack_list : Index → IndexAnswer (List PackJson)
generate_pack_list idx = generate_from (each idx) []

-- what `json.Unmarshal` makes of an index file: the new format, an error that is or is not about an array,
-- with what the second attempt, at the old format, gives
pub data IndexFile : Type 0 where
  packs_json : List PackJson → IndexFile
  old_packs_json : List PackJson → IndexFile
  neither array_error : IndexFile

-- a blob of the old format has no uncompressed length
abbrev old_blob : Blob → Blob
old_blob b = record b { uncompressed_length = 0 }

module _ (sum64 : ℕ → ContentId → ℕ) where
  -- the loop over packs of `DecodeIndex` and `decodeOldIndex`
  unfoldable pub add_packs : List PackJson → Index → IndexAnswer Index
  add_packs [] idx = ok idx
  add_packs (j ∷ js) idx =
      store_all sum64 (length idx.packs) j.blobs (record idx { packs = idx.packs ++ (j.id ∷ []) })
      >>= λ next. add_packs js next

  -- `decodeOldIndex`, of a list that was parsed
  unfoldable pub decode_old_index : (BlobType → ℕ) → List PackJson → IndexAnswer Index
  decode_old_index seeds js =
      add_packs (map (λ (j : PackJson). record { id = j.id; blobs = map old_blob j.blobs }) js)
        (new_index seeds)
      >>= λ idx. ok (record idx { final = true })

  -- `DecodeIndex`, with whether the format is old. Where the old format cannot be parsed either, the error
  -- of `decodeOldIndex` comes with a nil index, whose `ids` are then set.
  unfoldable pub decode_index :
      (BlobType → ℕ) → Bool → IndexFile → ContentId → IndexAnswer (Index × Bool)
  decode_index seeds deprecated file id = elim file [
    | packs_json js ↦ add_packs js (new_index seeds) >>= λ idx.
        ok (record idx { ids = idx.ids ++ (id ∷ []); final = true }, false)
    | old_packs_json js ↦
        if deprecated
        then err legacy_format
        else (decode_old_index seeds js >>= λ idx.
            ok (record idx { ids = idx.ids ++ (id ∷ []) }, true))
    | neither ↦ err not_json
    | array_error ↦ if deprecated then err legacy_format else err nil_pointer
  ]

-- ===== src/Restic/Blob.antt =====
-- internal/restic/blob.go and id.go: identifiers, handles and blobs.
use vlbe.Base.{ℕ, ◌≡◌, ◌↔◌, Bool, true, false, ◌&&◌, not, arith, ◌==◌, Key, if◌then◌else◌}
use vlbe.Crypto.{plaintext_length}

-- `restic.ContentId`, a SHA-256, is the number whose 32 base-256 digits are its bytes.
abbrev pub ContentId : Type 0
ContentId = ℕ

pub data BlobType : Type 0 where
  invalid_blob data_blob tree_blob num_blob_types : BlobType

-- the values that `iota` gives
unfoldable pub type_code : BlobType → ℕ
type_code invalid_blob = 0
type_code data_blob = 1
type_code tree_blob = 2
type_code num_blob_types = 3

-- `s == t` on blob types
unfoldable pub same_type : BlobType → BlobType → Bool
unfolding type_code
same_type s t = type_code s == type_code t

pub same_type_iff : (s t : BlobType) → (same_type s t ≡ true) ↔ (s ≡ t)
unfolding same_type
same_type_iff s t = ground arith

-- `t.IsMetadata()`
unfoldable pub is_metadata : BlobType → Bool
is_metadata tree_blob = true
is_metadata _ = false

pub record BlobHandle : Type 0 where
  pub id : ContentId
  pub tpe : BlobType

-- `g == h` on handles
unfoldable pub same_handle : BlobHandle → BlobHandle → Bool
same_handle g h = (g.id == h.id) && same_type g.tpe h.tpe

pub same_handle_iff : (g h : BlobHandle) → (same_handle g h ≡ true) ↔ (g ≡ h)
unfolding same_handle
same_handle_iff g h = ground (arith, same_type_iff g.tpe h.tpe)

instance abbrev pub handle_key : Key BlobHandle
handle_key = record { same = same_handle; same_iff = same_handle_iff }

pub record Blob : Type 0 where
  pub handle : BlobHandle
  pub length : ℕ
  pub offset : ℕ
  pub uncompressed_length : ℕ

-- `b.IsCompressed()`
unfoldable pub is_compressed : Blob → Bool
is_compressed b = not (b.uncompressed_length == 0)

-- `b.DataLength()`
unfoldable pub data_length : Blob → ℕ
data_length b =
    if not (b.uncompressed_length == 0) then b.uncompressed_length else plaintext_length b.length

-- `b == c` on blobs
unfoldable pub same_blob : Blob → Blob → Bool
same_blob b c =
    same_handle b.handle c.handle
    && ((b.length == c.length)
        && ((b.offset == c.offset) && (b.uncompressed_length == c.uncompressed_length)))

pub same_blob_iff : (b c : Blob) → (same_blob b c ≡ true) ↔ (b ≡ c)
unfolding same_blob
same_blob_iff b c = ground (arith, same_handle_iff b.handle c.handle)

pub record PackedBlob : Type 0 where
  pub blob : Blob
  pub open blob use *
  pub pack_id : ContentId

-- `b == c` on packed blobs
unfoldable pub same_packed_blob : PackedBlob → PackedBlob → Bool
same_packed_blob b c = same_blob b.blob c.blob && (b.pack_id == c.pack_id)

pub same_packed_blob_iff : (b c : PackedBlob) → (same_packed_blob b c ≡ true) ↔ (b ≡ c)
unfolding same_packed_blob
same_packed_blob_iff b c = ground (arith, same_blob_iff b.blob c.blob)

-- ===== src/Pack/Size.antt =====
-- internal/repository/pack/pack.go: the sizes of pack headers, and of packs as the index tells them.
use vlbe.Base.{
  ℕ, ◌+◌, ◌*◌, Bool, List, [], ◌∷◌, Map, ℕ_key, lookup, insert, ◌==◌, add64, if◌then◌else◌, none,
  some, Option,
}
use vlbe.Restic.Blob.{ContentId, Blob, PackedBlob}

-- `crypto.Extension`: a nonce and a MAC of 16 bytes each
abbrev pub extension : ℕ
extension = 32

-- `headerLengthSize` and `headerSize`
abbrev pub header_length_size : ℕ
header_length_size = 4

abbrev pub header_size : ℕ
header_size = header_length_size + extension

-- a type byte, one or two lengths and an ContentId
abbrev pub entry_size : ℕ
entry_size = 1 + 2 * header_length_size + 32

abbrev pub plain_entry_size : ℕ
plain_entry_size = 1 + header_length_size + 32

-- `CalculateEntrySize(blob)`
unfoldable pub calculate_entry_size : Blob → ℕ
calculate_entry_size b = if b.uncompressed_length == 0 then plain_entry_size else entry_size

-- `CalculateHeaderSize(blobs)`
unfoldable pub calculate_header_size : List Blob → ℕ
unfolding calculate_entry_size
calculate_header_size [] = header_size
calculate_header_size (b ∷ bs) = calculate_entry_size b + calculate_header_size bs

abbrev pub size_or_header : Option ℕ → ℕ
size_or_header none = header_size
size_or_header (some n) = n

-- one call of the callback in `Size`
unfoldable pub size_step : Bool → PackedBlob → Map ContentId ℕ → Map ContentId ℕ
size_step only_hdr b sizes =
    let known = size_or_header (lookup b.pack_id sizes) in
    let with_blob = if only_hdr then known else add64 known b.length in
    insert b.pack_id (add64 with_blob (calculate_entry_size b.blob)) sizes

-- `Size(ctx, mi, onlyHdr)` over the blobs that `mi.ListBlobs` lists. Sums are `int64`, read as
-- bit patterns.
unfoldable pub size : Bool → List PackedBlob → Map ContentId ℕ → Map ContentId ℕ
unfolding size_step calculate_entry_size
size only_hdr [] sizes = sizes
size only_hdr (b ∷ bs) sizes = size only_hdr bs (size_step only_hdr b sizes)

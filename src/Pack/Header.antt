-- ===== src/Pack/Header.antt =====
-- internal/repository/pack/pack.go: the header at the end of a pack file, written and read.
pub mod Entries
pub mod Listing
pub mod Reading
use vlbe.Base.{
  ℕ, zero, suc, ◌+◌, ◌-◌, ◌*◌, Bool, true, false, ◌&&◌, ◌||◌, not, List, [], ◌∷◌, ◌++◌, Option,
  none, some, length, take, drop, ltb, leb, ◌==◌, if◌then◌else◌, add64, to_bytes, of_bytes,
}
use vlbe.Restic.Blob.{
  ContentId, BlobType, data_blob, tree_blob, invalid_blob, num_blob_types, Blob, is_compressed,
}
use vlbe.Crypto.{Bytes, CryptoAnswer, bytes, iv_size, ciphertext_length}
use vlbe.Pack.Size.{extension, header_length_size, header_size, entry_size, plain_entry_size}

-- `MaxHeaderSize`, `eagerEntries` and `minFileSize`
abbrev pub max_header_size : ℕ
max_header_size = 16 * 1024 * 1024 + header_length_size

abbrev pub eager_entries : ℕ
eager_entries = 15

abbrev pub min_file_size : ℕ
min_file_size = plain_entry_size + extension + header_length_size

-- what can be wrong with a pack file
pub data PackError : Type 0 where
  file_too_short header_length_zero header_length_too_short : PackError
  header_larger_than_file header_larger_than_max invalid_header_too_short : PackError
  entry_too_short read_failed : PackError
  invalid_type : ℕ → PackError
  not_opened : CryptoAnswer → PackError

pub data PackAnswer (A : Type 0) : Type 0 where
  ok : A → PackAnswer A
  bad : PackError → PackAnswer A

infixl 5 ◌>>=◌
abbrev pub ◌>>=◌ : {A B : Type 0} → PackAnswer A → (A → PackAnswer B) → PackAnswer B
ok a >>= f = f a
bad e >>= f = bad e

-- the type byte of an entry
unfoldable pub type_byte : Blob → Option ℕ
unfolding is_compressed
type_byte b = elim b.handle.tpe [
  | data_blob ↦ some (if is_compressed b then 2 else 0)
  | tree_blob ↦ some (if is_compressed b then 3 else 1)
  | _ ↦ none
]

-- the entry of one blob, behind its type byte
unfoldable pub entry_rest : Blob → Bytes
unfolding is_compressed
entry_rest b =
    to_bytes 4 b.length
    ++ ((if is_compressed b then to_bytes 4 b.uncompressed_length else [])
        ++ to_bytes 32 b.handle.id)

-- `makeHeader`, which fails on an invalid blob type
unfoldable pub make_header : List Blob → Option Bytes
make_header [] = some []
make_header (b ∷ bs) =
    let rest = make_header bs in
    elim (type_byte b) [
      | none ↦ none
      | some tpe ↦ elim rest [ none ↦ none | some buf ↦ some (tpe ∷ (entry_rest b ++ buf)) ]
    ]

-- the blob type that a type byte stands for, and whether the entry is of a compressed blob
unfoldable pub byte_type : ℕ → Option (BlobType × Bool)
byte_type tpe =
    if tpe == 0
    then some (data_blob, false)
    else if tpe == 2
    then some (data_blob, true)
    else if tpe == 1
    then some (tree_blob, false)
    else if tpe == 3
    then some (tree_blob, true)
    else none

abbrev pub header_blob : BlobType → ℕ → ℕ → Bytes → Blob
header_blob t length uncompressed_length id = record {
  handle = record { id = of_bytes (take 32 id); tpe = t };
  length = length;
  offset = 0;
  uncompressed_length = uncompressed_length;
}

-- `parseHeaderEntry`, of a buffer whose first byte is `tpe`
unfoldable pub parse_header_entry : ℕ → Bytes → PackAnswer (Blob × ℕ)
parse_header_entry tpe p =
    let l = length p + 1 in
    let blob_length = of_bytes (take 4 p) in
    let plain = λ (t : BlobType). header_blob t blob_length 0 (drop 4 p) in
    let compressed = λ (t : BlobType).
      header_blob t blob_length (of_bytes (take 4 (drop 4 p))) (drop 4 (drop 4 p)) in
    if ltb l plain_entry_size then bad entry_too_short else elim (byte_type tpe) [
      | none ↦ bad (invalid_type tpe)
      | some (t, false) ↦ ok (plain t, plain_entry_size)
      | some (t, true) ↦
          if ltb l entry_size then bad entry_too_short else ok (compressed t, entry_size)
    ]

-- The loop of `List`. An entry is not empty, so the length of the buffer is fuel enough.
unfoldable pub list_entries : ℕ → ℕ → Bytes → PackAnswer (List Blob)
list_entries fuel pos [] = ok []
list_entries zero pos (tpe ∷ p) = bad entry_too_short
list_entries (suc fuel) pos (tpe ∷ p) = do
  (entry, size) ← parse_header_entry tpe p
  rest ← list_entries fuel (add64 pos entry.length) (drop size (tpe ∷ p))
  ok (record entry { offset = pos } ∷ rest)

-- The file is read through `io.ReaderAt`: so many bytes from an offset, or an error.
abbrev pub ReaderAt : Type 0
ReaderAt = ℕ → ℕ → Option Bytes

-- the test on the header's length that `readRecords` makes
unfoldable pub check_header_length : ℕ → ℕ → PackAnswer (Unit {0})
check_header_length hlen size =
    if hlen == 0
    then bad header_length_zero
    else if ltb hlen extension
    then bad header_length_too_short
    else if ltb (size - header_length_size) hlen
    then bad header_larger_than_file
    else if ltb (max_header_size - header_length_size) hlen
    then bad header_larger_than_max
    else ok tt

-- `readRecords`: the header, or as much of its end as fits, and its length with the length field
unfoldable pub read_records : ReaderAt → ℕ → ℕ → PackAnswer (Bytes × ℕ)
read_records rd size bufsize =
    let n = if ltb size bufsize then size else bufsize in
    elim (rd (size - n) n) [
      | none ↦ bad read_failed
      | some b ↦
          let hlen = of_bytes (drop (length b - header_length_size) b) in
          let front = take (length b - header_length_size) b in
          let total = hlen + header_length_size in
          check_header_length hlen size >>= λ _.
          ok (if ltb total n then drop (length front - hlen) front else front, total)
    ]

abbrev pub eager_size : ℕ
eager_size = eager_entries * entry_size + header_size

-- `readHeader`
unfoldable pub read_header : ReaderAt → ℕ → PackAnswer Bytes
read_header rd size =
    let again = λ (c : ℕ). (read_records rd size c >>= λ r. ok r.0) in
    if ltb size min_file_size
    then bad file_too_short
    else (read_records rd size eager_size >>= λ r.
        (if leb r.1 eager_size then ok r.0 else again r.1))

module _ (open_with : Bytes → Bytes → CryptoAnswer) where
  -- `List`; `open_with` is `k.Open`
  unfoldable pub list_pack : ReaderAt → ℕ → PackAnswer (List Blob × ℕ)
  list_pack rd size = read_header rd size >>= λ buf.
      if ltb (length buf) (ciphertext_length 0)
      then bad invalid_header_too_short
      else elim (open_with (take iv_size buf) (drop iv_size buf)) [
        | bytes plain ↦ list_entries (length plain) 0 plain >>= λ entries.
            ok (entries, header_length_size + length buf)
        | failure ↦ bad (not_opened failure)
      ]

-- ===== src/Pack/Packer.antt =====
-- internal/repository/pack/pack.go: the packer, which writes blobs and then the header that lists them.
-- `wr` is the parameter `write`: of what was written before and of the new data it tells how many
-- bytes it takes and whether it fails. The nonce, which is random, is an argument of `finalize`.
pub mod Added
pub mod Checked
pub mod Written
use vlbe.Base.{
  ℕ, zero, suc, ◌+◌, ◌-◌, ◌*◌, Bool, true, false, ◌&&◌, ◌||◌, not, List, [], ◌∷◌, ◌++◌, Option,
  none, some, length, take, drop, ltb, leb, ◌==◌, if◌then◌else◌, add64, to_bytes,
}
use vlbe.Restic.Blob.{ContentId, BlobType, BlobHandle, Blob, same_blob}
use vlbe.Crypto.{Bytes, CipherLib, Key, CryptoAnswer, bytes, seal, open_sealed}
use vlbe.Pack.Size.{extension, header_length_size, header_size, entry_size, calculate_entry_size}
use vlbe.Pack.Header.{
  max_header_size, PackError, PackAnswer, ok, bad, make_header, ReaderAt, list_pack,
}

-- `Packer`; `output` is what the writer has taken
pub record Packer : Type 0 where
  pub blobs : List Blob
  pub size : ℕ
  pub output : Bytes

-- `NewPacker`
abbrev pub new_packer : Packer
new_packer = record { blobs = []; size = 0; output = [] }

-- `HeaderFull`
unfoldable pub header_full : Packer → Bool
header_full p = ltb max_header_size (header_size + (length p.blobs + 1) * entry_size)

-- `decoded[i] != expected[i]` for no `i`
unfoldable pub same_blobs : List Blob → List Blob → Bool
same_blobs (b ∷ bs) (c ∷ cs) = same_blob b c && same_blobs bs cs
same_blobs _ _ = true

pub data VerifyAnswer : Type 0 where
  verified unexpected_size count_mismatch entry_mismatch : VerifyAnswer
  decoding_failed : PackError → VerifyAnswer

pub data FinalizeAnswer : Type 0 where
  finalized invalid_type seal_panicked write_failed wrong_count : FinalizeAnswer
  corrupted : VerifyAnswer → FinalizeAnswer

-- the bytes of a buffer as an `io.ReaderAt`, as `bytes.NewReader`
abbrev pub reader_of : Bytes → ReaderAt
reader_of file =
    λ off n. if leb (off + n) (length file) then some (take n (drop off file)) else none

-- the encrypted header and its length, behind the nonce
unfoldable pub encrypted_header : Bytes → Bytes → Bytes
encrypted_header nonce sealed = (nonce ++ sealed) ++ to_bytes 4 (length (nonce ++ sealed))

module _ (lib : CipherLib) (write : Bytes → Bytes → ℕ × Bool) where
  -- `Add`, with the number that it returns and whether it returns an error
  unfoldable pub pack_add : BlobType → ContentId → Bytes → ℕ → Packer → Packer × (ℕ × Bool)
  pack_add t id data_bytes uncompressed_length p =
      let (n, failed) = write p.output data_bytes in
      let c : Blob = record {
        handle = record { id = id; tpe = t };
        length = n;
        offset = p.size;
        uncompressed_length = uncompressed_length;
      } in
      (
        record {
          blobs = p.blobs ++ (c ∷ []);
          size = add64 p.size n;
          output = p.output ++ take n data_bytes;
        },
        (n + calculate_entry_size c, failed),
      )

  -- `verifyHeader`
  unfoldable pub verify_header : Key → Bytes → List Blob → VerifyAnswer
  verify_header k header expected =
      elim (list_pack (open_sealed lib k) (reader_of header) (length header)) [
        | bad e ↦ decoding_failed e
        | ok (decoded, hdr_size) ↦
            if not (hdr_size == length header)
            then unexpected_size
            else if not (length decoded == length expected)
            then count_mismatch
            else if same_blobs decoded expected
            then verified
            else entry_mismatch
      ]

  -- `Finalize`
  unfoldable pub finalize : Key → Bytes → Packer → Packer × FinalizeAnswer
  finalize k nonce p = elim (make_header p.blobs) [
    | none ↦ (p, invalid_type)
    | some header ↦ elim (seal lib k nonce header) [
      | bytes sealed ↦
          let encrypted = encrypted_header nonce sealed in
          let (n, failed) = write p.output encrypted in
          let sent = record p { output = p.output ++ take n encrypted } in
          elim (verify_header k encrypted p.blobs) [
            | verified ↦
                if failed
                then (sent, write_failed)
                else if not (n == length encrypted)
                then (sent, wrong_count)
                else (record sent { size = add64 p.size (length encrypted) }, finalized)
            | answer ↦ (p, corrupted answer)
          ]
      | _ ↦ (p, seal_panicked)
    ]
  ]

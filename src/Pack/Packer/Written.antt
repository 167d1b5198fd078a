-- ===== src/Pack/Packer/Written.antt =====
-- What a packer has finalized is read back.
use mathlib.Core.List.{append_assoc}
use vlbe.Base.{
  ℕ, ◌+◌, ◌≤◌, ◌≡◌, ◌≢◌, refl, ap, subst, ◌∙◌, Bool, true, false, List, [], ◌∷◌, ◌++◌, some, length,
  ltb, ◌==◌, add64, to_bytes, length-to_bytes, take-append, drop-append, length-append, arith, All,
  take_all,
}
use vlbe.Restic.Blob.{Blob, same_blob_iff}
use vlbe.Crypto.{
  Bytes, iv_size, is_valid_key, valid_nonce, poly1305_mac, ciphertext_length, CipherLib, Key, bytes,
  seal, open_sealed,
}
use vlbe.Crypto.Authentic.{CipherLaws, open_sealed-seal}
use vlbe.Pack.Size.{header_length_size, header_size, calculate_entry_size, calculate_header_size}
use vlbe.Pack.Header.{
  max_header_size, min_file_size, ok, make_header, ReaderAt, list_pack, list_entries,
}
use vlbe.Pack.Header.Entries.{IsEncodable}
use vlbe.Pack.Header.Listing.{positioned, make_header_lem}
use vlbe.Pack.Header.Reading.{ReadsFile, pack_file, read_header-pack_file}
use vlbe.Pack.Packer.Added.{IsPacking}
use vlbe.Pack.Packer.{
  Packer, same_blobs, verified, finalized, reader_of, verify_header, encrypted_header, finalize,
}

same_blobs_self : (bs : List Blob) → same_blobs bs bs ≡ true
unfolding same_blobs
same_blobs_self [] = refl
same_blobs_self (b ∷ bs) = ground (arith, same_blobs_self bs, same_blob_iff b b)

reader_of-ReadsFile : (file : Bytes) → ReadsFile (reader_of file) file
reader_of-ReadsFile file off n h = ground arith

calculate_header_size-header_size : (bs : List Blob) → header_size ≤ calculate_header_size bs
unfolding calculate_header_size
calculate_header_size-header_size [] = omega arith
calculate_header_size-header_size (b ∷ bs) = omega (arith, calculate_header_size-header_size bs)

calculate_header_size_pos : (bs : List Blob) → bs ≢ [] → min_file_size ≤ calculate_header_size bs
unfolding calculate_header_size calculate_entry_size
calculate_header_size_pos [] h = absurd (h refl)
calculate_header_size_pos (b ∷ bs) h = ground (arith, calculate_header_size-header_size bs)

module _ (lib : CipherLib) (laws : CipherLaws lib) (k : Key) (nonce : Bytes) (bs : List Blob) where
  -- The header is decrypted and parsed.
  list_pack-pack_file :
      (plain sealed out : Bytes)
      → seal lib k nonce plain ≡ bytes sealed
      → length nonce ≡ iv_size
      → ((fuel pos : ℕ)
          → length plain ≤ fuel
          → list_entries fuel pos plain ≡ ok (positioned pos bs))
      → min_file_size ≤ length plain + header_size
      → length plain + header_size ≤ max_header_size
      → (rd : ReaderAt) → ReadsFile rd (pack_file out (nonce ++ sealed))
      → list_pack (open_sealed lib k) rd (length (pack_file out (nonce ++ sealed)))
        ≡ ok (positioned 0 bs, header_length_size + length (nonce ++ sealed))
  unfolding list_pack ciphertext_length
  list_pack-pack_file plain sealed out e nonce_size listed many few rd reads =
      let (opened, sealed_length) = open_sealed-seal lib laws k nonce plain sealed e in
      let whole : length (nonce ++ sealed) + header_length_size ≡ length plain + header_size =
        omega (arith, length-append {0} nonce sealed) in
      let size =
        length-append {0} (out ++ (nonce ++ sealed)) (to_bytes 4 (length (nonce ++ sealed))) in
      let found = read_header-pack_file out (nonce ++ sealed) rd reads (omega arith) (omega arith) (
        omega (
          arith,
          size,
          length-append {0} out (nonce ++ sealed),
          length-to_bytes 4 (length (nonce ++ sealed)),
        )) in
      let long : ltb (length (nonce ++ sealed)) (ciphertext_length 0) ≡ false =
        ground (arith, whole) in
      rw
        (
          found,
          long,
          take-append nonce sealed iv_size nonce_size,
          drop-append nonce sealed iv_size nonce_size,
          opened,
          listed (length plain) 0 (omega arith),
        )
        refl

-- `Seal` returns for a key and a nonce that are set.
seal_lem :
    (lib : CipherLib) (k : Key) (nonce plain : Bytes)
    → is_valid_key k ≡ true
    → length nonce ≡ iv_size
    → valid_nonce nonce ≡ true
    → (sealed : Bytes) × (seal lib k nonce plain ≡ bytes sealed)
unfolding seal
seal_lem lib k nonce plain valid size fresh =
    let right_size : (length nonce == iv_size) ≡ true = ground (arith, size) in
    let out = lib.xor_key_stream k.encryption_key nonce plain in
    (out ++ poly1305_mac lib out nonce k.mac_key, rw (seal, valid, right_size, fresh) refl)

module _ (lib : CipherLib) (laws : CipherLaws lib) (write : Bytes → Bytes → ℕ × Bool)
    (takes_all : (before data_bytes : Bytes)
      → write before data_bytes ≡ (length data_bytes, false)) where
  verify_header_of_list :
      (k : Key) (header : Bytes) (bs : List Blob)
      → list_pack (open_sealed lib k) (reader_of header) (length header) ≡ ok (bs, length header)
      → verify_header lib write k header bs ≡ verified
  unfolding verify_header
  verify_header_of_list k header bs listed =
      let right_size : (length header == length header) ≡ true = ground arith in
      let right_count : (length bs == length bs) ≡ true = ground arith in
      rw (verify_header, listed, right_size, right_count, same_blobs_self bs) refl

  finalize_of_verified :
      (k : Key) (nonce plain sealed : Bytes) (p : Packer)
      → make_header p.blobs ≡ some plain
      → seal lib k nonce plain ≡ bytes sealed
      → verify_header lib write k (encrypted_header nonce sealed) p.blobs ≡ verified
      → (header : Bytes) → encrypted_header nonce sealed ≡ header
      → finalize lib write k nonce p ≡ (
        record {
          blobs = p.blobs;
          size = add64 p.size (length header);
          output = p.output ++ header;
        },
        finalized,
      )
  unfolding finalize
  finalize_of_verified k nonce plain sealed p made sealing passed header whole =
      let right_count : (length header == length header) ≡ true = ground arith in
      rw
        (
          finalize,
          made,
          sealing,
          passed,
          whole,
          takes_all p.output header,
          right_count,
          take_all (length header) header refl,
        )
        refl

  -- Where the cipher keeps its documentation and the writer takes what it is given, `Finalize` succeeds on a packer with blobs that lie one after another, whose types are valid and whose numbers fit into the header's
  -- fields, below the largest header size and with a key and nonce that are set. It appends a header of exactly `CalculateHeaderSize` bytes, and `List` on the file then returns the blobs of the packer.
  pub finalize-list_pack :
      (k : Key) (nonce : Bytes) (p : Packer)
      → is_valid_key k ≡ true
      → length nonce ≡ iv_size
      → valid_nonce nonce ≡ true
      → IsPacking p
      → All IsEncodable p.blobs
      → p.blobs ≢ []
      → calculate_header_size p.blobs ≤ max_header_size
      → (header : Bytes) × (length header ≡ calculate_header_size p.blobs)
        × (finalize lib write k nonce p ≡ (
          record {
            blobs = p.blobs;
            size = add64 p.size (length header);
            output = p.output ++ header;
          },
          finalized,
        ))
        × (list_pack
              (open_sealed lib k)
              (reader_of (p.output ++ header))
              (length (p.output ++ header))
            ≡ ok (p.blobs, length header))
  unfolding encrypted_header
  finalize-list_pack k nonce p valid nonce_size fresh packing encodable some_blob few =
      let (plain, made, plain_size, listed) = make_header_lem p.blobs encodable in
      let (sealed, sealing) = seal_lem lib k nonce plain valid nonce_size fresh in
      let many = calculate_header_size_pos p.blobs some_blob in
      let header = encrypted_header nonce sealed in
      let buf_length : length (nonce ++ sealed) + header_length_size
          ≡ calculate_header_size p.blobs =
        omega (
          arith,
          length-append {0} nonce sealed,
          (open_sealed-seal lib laws k nonce plain sealed sealing).1,
          nonce_size,
          plain_size,
        ) in
      let header_length : length header ≡ calculate_header_size p.blobs = omega (
        arith,
        buf_length,
        length-append {0} (nonce ++ sealed) (to_bytes 4 (length (nonce ++ sealed))),
        length-to_bytes 4 (length (nonce ++ sealed)),
      ) in
      let counted : header_length_size + length (nonce ++ sealed) ≡ length header =
        omega (arith, header_length, buf_length) in
      let parts = append_assoc p.output (nonce ++ sealed) (to_bytes 4 (length (nonce ++ sealed))) in
      let listed_in =
        λ (out : Bytes) (rd : ReaderAt) (reads : ReadsFile rd (pack_file out (nonce ++ sealed))).
          list_pack-pack_file lib laws k nonce p.blobs plain sealed out sealing nonce_size listed
            (omega (arith, many, plain_size)) (omega (arith, few, plain_size)) rd reads
          ∙ ap ok (
              ap (λ bs. (bs, header_length_size + length (nonce ++ sealed))) packing.in_order
              ∙ ap (λ n. (p.blobs, n)) counted) in
      (
        header,
        header_length,
        finalize_of_verified k nonce plain sealed p made sealing
            (verify_header_of_list k header p.blobs
              (listed_in [] (reader_of header) (reader_of-ReadsFile header)))
            header refl,
        subst
            (λ file.
              list_pack (open_sealed lib k) (reader_of file) (length file)
              ≡ ok (p.blobs, length header))
            parts
            (listed_in p.output (reader_of (pack_file p.output (nonce ++ sealed)))
              (reader_of-ReadsFile (pack_file p.output (nonce ++ sealed)))),
      )

-- ===== src/Tests/Pack.antt =====
-- A pack of two blobs, written and read back.
use vlbe.Base.{
  ℕ, ◌≤◌, ◌≡◌, refl, ap, Bool, true, false, [], ◌∷◌, ◌++◌, length, take, drop, add64, arith,
  to_bytes, length-to_bytes, All, inl, inr,
}
use vlbe.Restic.Blob.{data_blob, tree_blob, Blob}
use vlbe.Crypto.{
  Bytes, is_valid_key, is_valid_encryption_key, is_valid_mac_key, any_set, valid_nonce, open_sealed,
}
use vlbe.Pack.Size.{calculate_header_size, calculate_entry_size}
use vlbe.Pack.Header.{max_header_size, ok, list_pack}
use vlbe.Pack.Header.Entries.{IsEncodable}
use vlbe.Pack.Header.Listing.{positioned}
use vlbe.Pack.Packer.{Packer, new_packer, reader_of, finalized, pack_add, finalize}
use vlbe.Pack.Packer.Added.{IsPacking, end_of, pack_add-IsPacking}
use vlbe.Pack.Packer.Checked.{finalize_checked}
use vlbe.Pack.Packer.Written.{finalize-list_pack}
use vlbe.Tests.Crypto.{toy_cipher, toy_cipher-CipherLaws, toy_key, toy_nonce}

-- a file that takes everything
abbrev to_file : Bytes → Bytes → ℕ × Bool
to_file before new_bytes = (length new_bytes, false)

abbrev two_blobs : Packer
two_blobs = record {
  blobs =
      record {
        handle = record { id = 11; tpe = data_blob };
        length = 2;
        offset = 0;
        uncompressed_length = 0;
      }
      ∷ record {
        handle = record { id = 12; tpe = tree_blob };
        length = 3;
        offset = 2;
        uncompressed_length = 9;
      }
      ∷ [];
  size = 5;
  output = 1 ∷ 2 ∷ 3 ∷ 4 ∷ 5 ∷ [];
}

abbrev one_blob : Packer
one_blob = (pack_add toy_cipher to_file data_blob 11 (1 ∷ 2 ∷ []) 0 new_packer).0

two_blobs_added :
    (pack_add toy_cipher to_file tree_blob 12 (3 ∷ 4 ∷ 5 ∷ []) 9 one_blob).0 ≡ two_blobs
unfolding pack_add add64
two_blobs_added = refl

two_blobs-IsPacking : IsPacking two_blobs
unfolding positioned end_of add64
two_blobs-IsPacking = record { in_order = refl; ends = refl; in_output = refl }

two_blobs-IsEncodable : All IsEncodable two_blobs.blobs
two_blobs-IsEncodable = (
  record {
    typed = inl refl;
    length_fits = omega arith;
    uncompressed_fits = omega arith;
    id_fits = omega arith;
  },
  (
    record {
      typed = inr refl;
      length_fits = omega arith;
      uncompressed_fits = omega arith;
      id_fits = omega arith;
    },
    tt,
  ),
)

header_fits : calculate_header_size two_blobs.blobs ≤ max_header_size
unfolding calculate_header_size calculate_entry_size
header_fits = omega arith

toy_key_valid : is_valid_key toy_key ≡ true
unfolding is_valid_key is_valid_encryption_key is_valid_mac_key any_set
toy_key_valid = refl

toy_nonce_set : valid_nonce toy_nonce ≡ true
unfolding valid_nonce any_set to_bytes
toy_nonce_set = refl

pack_add-IsPacking_example :
    let q = (pack_add toy_cipher to_file data_blob 13 (6 ∷ 7 ∷ []) 0 two_blobs).0 in
    IsPacking q
    × (q.output ≡ two_blobs.output ++ (6 ∷ 7 ∷ []))
    × ((b : Blob) × (q.blobs ≡ two_blobs.blobs ++ (b ∷ []))
        × (b.handle ≡ record { id = 13; tpe = data_blob })
        × (take b.length (drop b.offset q.output) ≡ 6 ∷ 7 ∷ []))
pack_add-IsPacking_example =
    pack_add-IsPacking toy_cipher to_file data_blob 13 (6 ∷ 7 ∷ []) 0 two_blobs refl (omega arith)
      two_blobs-IsPacking

finalize-list_pack_example :
    (header : Bytes) × (length header ≡ calculate_header_size two_blobs.blobs)
    × (finalize toy_cipher to_file toy_key toy_nonce two_blobs ≡ (
      record {
        blobs = two_blobs.blobs;
        size = add64 5 (length header);
        output = two_blobs.output ++ header;
      },
      finalized,
    ))
    × (list_pack
          (open_sealed toy_cipher toy_key)
          (reader_of (two_blobs.output ++ header))
          (length (two_blobs.output ++ header))
        ≡ ok (two_blobs.blobs, length header))
finalize-list_pack_example =
    finalize-list_pack toy_cipher toy_cipher-CipherLaws to_file (λ before new_bytes. refl) toy_key
      toy_nonce two_blobs toy_key_valid (length-to_bytes 16 7) toy_nonce_set two_blobs-IsPacking
      two_blobs-IsEncodable (λ e. ground arith) header_fits

two_blobs_finalized : (finalize toy_cipher to_file toy_key toy_nonce two_blobs).1 ≡ finalized
two_blobs_finalized =
    ap (λ r. r.1)
      (finalize-list_pack toy_cipher toy_cipher-CipherLaws to_file (λ before new_bytes. refl)
        toy_key toy_nonce two_blobs toy_key_valid (length-to_bytes 16 7) toy_nonce_set
        two_blobs-IsPacking two_blobs-IsEncodable (λ e. ground arith) header_fits).2

finalize_checked_example :
    (header : Bytes) × ((finalize toy_cipher to_file toy_key toy_nonce two_blobs).0 ≡ record {
      blobs = two_blobs.blobs;
      size = add64 5 (length header);
      output = two_blobs.output ++ header;
    })
    × (list_pack (open_sealed toy_cipher toy_key) (reader_of header) (length header)
        ≡ ok (two_blobs.blobs, length header))
finalize_checked_example =
    finalize_checked toy_cipher to_file toy_key toy_nonce two_blobs two_blobs_finalized

-- ===== src/Pack/Packer/Checked.antt =====
-- What `Finalize` checks before it writes.
use vlbe.Base.{
  ℕ, ◌≡◌, ◌≢◌, refl, ap, ◌∙◌, ◌⊎◌, inl, inr, Bool, true, Option-cases, List, [], ◌∷◌, ◌++◌, some,
  length, take, add64, take_all, arith,
}
use vlbe.Restic.Blob.{Blob, same_blob, same_blob_iff}
use vlbe.Crypto.{
  Bytes, CipherLib, Key, CryptoAnswer, bytes, invalid_key, invalid_nonce, too_short,
  unauthenticated, crypto_panic, seal, open_sealed,
}
use vlbe.Pack.Header.{PackAnswer, PackError, ok, bad, make_header, list_pack}
use vlbe.Pack.Packer.{
  Packer, same_blobs, verified, finalized, reader_of, verify_header, encrypted_header, finalize,
}

same_blobs_eq : (bs cs : List Blob) → length bs ≡ length cs → same_blobs bs cs ≡ true → bs ≡ cs
unfolding same_blobs
same_blobs_eq [] [] l e = refl
same_blobs_eq [] (c ∷ cs) l e = absurd (omega arith)
same_blobs_eq (b ∷ bs) [] l e = absurd (omega arith)
same_blobs_eq (b ∷ bs) (c ∷ cs) l e =
    let one : same_blob b c ≡ true = ground arith in
    let rest : same_blobs bs cs ≡ true = ground arith in
    rw ((same_blob_iff b c).0 one, same_blobs_eq bs cs (omega arith) rest) refl

sealed-cases : (a : CryptoAnswer) → ((p : Bytes) → a ≢ bytes p) ⊎ ((p : Bytes) × (a ≡ bytes p))
sealed-cases (bytes p) = inr (p, refl)
sealed-cases invalid_key = inl (λ p e. ground arith)
sealed-cases invalid_nonce = inl (λ p e. ground arith)
sealed-cases too_short = inl (λ p e. ground arith)
sealed-cases unauthenticated = inl (λ p e. ground arith)
sealed-cases crypto_panic = inl (λ p e. ground arith)

listed-cases :
    (a : PackAnswer (List Blob × ℕ))
    → ((e : PackError) × (a ≡ bad e)) ⊎ ((r : List Blob × ℕ) × (a ≡ ok r))
listed-cases (bad e) = inl (e, refl)
listed-cases (ok r) = inr (r, refl)

module _ (lib : CipherLib) (write : Bytes → Bytes → ℕ × Bool) (k : Key) where
  verify_header-inv :
      (header : Bytes) (bs : List Blob)
      → verify_header lib write k header bs ≡ verified
      → list_pack (open_sealed lib k) (reader_of header) (length header) ≡ ok (bs, length header)
  unfolding verify_header
  verify_header-inv header bs e =
      elim (listed-cases (list_pack (open_sealed lib k) (reader_of header) (length header))) [
        | inl (problem, refused) ↦ absurd (ground arith)
        | inr ((decoded, size), listed) ↦
            let right_size : size ≡ length header = ground arith in
            let right_count : length decoded ≡ length bs = ground arith in
            let right_blobs : same_blobs decoded bs ≡ true = ground arith in
            listed ∙ rw (right_size, same_blobs_eq decoded bs right_count right_blobs) refl
      ]

  -- the answer to a header that was made and sealed
  finalize-inv :
      (nonce plain sealed header : Bytes) (p : Packer)
      → make_header p.blobs ≡ some plain
      → seal lib k nonce plain ≡ bytes sealed
      → encrypted_header nonce sealed ≡ header
      → (finalize lib write k nonce p).1 ≡ finalized
      → (verify_header lib write k header p.blobs ≡ verified)
        × ((finalize lib write k nonce p).0 ≡ record {
          blobs = p.blobs;
          size = add64 p.size (length header);
          output = p.output ++ take (length header) header;
        })
  unfolding finalize
  finalize-inv nonce plain sealed header p made sealing whole e = (ground (arith), ground arith)

  -- Whatever the cipher and the writer do: when `Finalize` reports success, it has written a header, whole and behind what was written before, from which `List` reads exactly the blobs of the packer.
  pub finalize_checked :
      (nonce : Bytes) (p : Packer)
      → (finalize lib write k nonce p).1 ≡ finalized
      → (header : Bytes) × ((finalize lib write k nonce p).0 ≡ record {
        blobs = p.blobs;
        size = add64 p.size (length header);
        output = p.output ++ header;
      })
        × (list_pack (open_sealed lib k) (reader_of header) (length header)
            ≡ ok (p.blobs, length header))
  unfolding finalize
  finalize_checked nonce p e = elim (Option-cases (make_header p.blobs)) [
    | inl nothing ↦ absurd (ground arith)
    | inr (plain, made) ↦ elim (sealed-cases (seal lib k nonce plain)) [
      | inl failed ↦ absurd (grind arith)
      | inr (sealed, sealing) ↦
          let header = encrypted_header nonce sealed in
          let (passed, result) = finalize-inv nonce plain sealed header p made sealing refl e in
          (
            header,
            result
                ∙ ap
                    (λ l. record {
                      blobs = p.blobs;
                      size = add64 p.size (length header);
                      output = p.output ++ l;
                    })
                    (take_all (length header) header refl),
            verify_header-inv header p.blobs passed,
          )
    ]
  ]

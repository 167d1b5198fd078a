-- ===== src/Tests/Crypto.antt =====
-- Sealing with a toy cipher, which flips the lowest bit of each byte.
use vlbe.Base.{
  ℕ, ◌+◌, ◌-◌, ◌*◌, ◌%◌, ◌≡◌, ◌↔◌, refl, ap, ◌∙◌, Bool, true, false, ◌&&◌, [], ◌∷◌, length, ◌==◌,
  if◌then◌else◌, arith, to_bytes, of_bytes, length-to_bytes,
}
use vlbe.Crypto.{
  Bytes, Key, CipherLib, CryptoAnswer, bytes, is_valid_key, is_valid_encryption_key, any_set,
  is_valid_mac_key, valid_nonce, poly1305_mac, poly1305_prepare_key, seal, open_sealed,
}
use vlbe.Crypto.Authentic.{CipherLaws, open_sealed_iff_seal}

abbrev flip : ℕ → ℕ
flip x = if x % 2 == 0 then x + 1 else x - 1

abbrev flip_all : Bytes → Bytes
flip_all [] = []
flip_all (b ∷ bs) = flip b ∷ flip_all bs

flip-flip : (x : ℕ) → flip (flip x) ≡ x
flip-flip x = ground arith

flip_all-flip_all : (p : Bytes) → flip_all (flip_all p) ≡ p
flip_all-flip_all [] = refl
flip_all-flip_all (b ∷ bs) =
    ap (λ x. x ∷ flip_all (flip_all bs)) (flip-flip b) ∙ ap (λ l. b ∷ l) (flip_all-flip_all bs)

length-flip_all : (p : Bytes) → length (flip_all p) ≡ length p
length-flip_all [] = refl
length-flip_all (b ∷ bs) = omega (arith, length-flip_all bs)

abbrev same_bytes : Bytes → Bytes → Bool
same_bytes [] [] = true
same_bytes (x ∷ xs) (y ∷ ys) = (x == y) && same_bytes xs ys
same_bytes _ _ = false

same_bytes_iff : (xs ys : Bytes) → (same_bytes xs ys ≡ true) ↔ (xs ≡ ys)
same_bytes_iff [] [] = (λ e. refl, λ e. refl)
same_bytes_iff [] (y ∷ ys) = ground arith
same_bytes_iff (x ∷ xs) [] = ground arith
same_bytes_iff (x ∷ xs) (y ∷ ys) = ground (arith, same_bytes_iff xs ys)

abbrev toy_sum : Bytes → Bytes → Bytes
toy_sum k msg = to_bytes 16 (of_bytes k + of_bytes msg)

abbrev pub toy_cipher : CipherLib
toy_cipher = record {
  aes_block = λ k p. flip_all p;
  xor_key_stream = λ k nonce p. flip_all p;
  poly1305_sum = toy_sum;
  poly1305_verify = λ k msg mac. same_bytes mac (toy_sum k msg);
}

pub toy_cipher-CipherLaws : CipherLaws toy_cipher
toy_cipher-CipherLaws = record {
  xor_twice = λ k nonce p. flip_all-flip_all p;
  xor_length = λ k nonce p. length-flip_all p;
  sum_length = λ k msg. length-to_bytes 16 (of_bytes k + of_bytes msg);
  verify_iff = λ k msg mac. same_bytes_iff mac (toy_sum k msg);
}

abbrev pub toy_key : Key
toy_key = record { mac_key = record { k = 1 ∷ []; r = 2 ∷ [] }; encryption_key = 3 ∷ [] }

abbrev pub toy_nonce : Bytes
toy_nonce = to_bytes 16 7

-- A sealed byte is opened, and not with another nonce.
abbrev sealed : CryptoAnswer
sealed = seal toy_cipher toy_key toy_nonce (65 ∷ [])

abbrev sealed_byte : Bytes
sealed_byte = 64 ∷ to_bytes 16 (64 + (2 + 256 * of_bytes (flip_all toy_nonce)))

sealed_is : sealed ≡ bytes sealed_byte
unfolding seal is_valid_key is_valid_encryption_key any_set is_valid_mac_key to_bytes valid_nonce
    poly1305_mac of_bytes poly1305_prepare_key
sealed_is = refl

open_sealed_iff_seal_example :
    (open_sealed toy_cipher toy_key toy_nonce sealed_byte ≡ bytes (65 ∷ []))
    ↔ (seal toy_cipher toy_key toy_nonce (65 ∷ []) ≡ bytes sealed_byte)
open_sealed_iff_seal_example =
    open_sealed_iff_seal toy_cipher toy_cipher-CipherLaws toy_key toy_nonce (65 ∷ []) sealed_byte

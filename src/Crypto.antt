-- ===== src/Crypto.antt =====
-- internal/crypto/crypto.go and buffer.go: sealing and opening bytes under a key. AES and Poly1305 are
-- libraries and are the record `CipherLib`. A slice of bytes is a list of numbers.
pub mod Authentic
use vlbe.Base.{
  ℕ, ◌+◌, ◌-◌, ◌%◌, ◌^◌, Bool, true, false, ◌&&◌, ◌||◌, not, List, [], ◌∷◌, ◌++◌, length, take,
  drop, ltb, ◌==◌, if◌then◌else◌,
}

abbrev pub Bytes : Type 0
Bytes = List ℕ

-- `ivSize`, `macSize` and `Extension`
abbrev pub iv_size : ℕ
iv_size = 16

abbrev pub mac_size : ℕ
mac_size = 16

-- `MACKey`
pub record MacKey : Type 0 where
  pub k : Bytes
  pub r : Bytes

-- `Key`
pub record Key : Type 0 where
  pub mac_key : MacKey
  pub encryption_key : Bytes

-- what the libraries give: one AES block, AES in counter mode, and Poly1305 with its 32-byte key
pub record CipherLib : Type 0 where
  pub aes_block : Bytes → Bytes → Bytes
  pub xor_key_stream : Bytes → Bytes → Bytes → Bytes
  pub poly1305_sum : Bytes → Bytes → Bytes
  pub poly1305_verify : Bytes → Bytes → Bytes → Bool

-- what `Seal` and `Open` answer with
pub data CryptoAnswer : Type 0 where
  bytes : Bytes → CryptoAnswer
  invalid_key invalid_nonce too_short unauthenticated crypto_panic : CryptoAnswer

-- is a byte not zero?
unfoldable pub any_set : Bytes → Bool
any_set [] = false
any_set (b ∷ bs) = not (b == 0) || any_set bs

-- `MACKey.Valid`
unfoldable pub is_valid_mac_key : MacKey → Bool
is_valid_mac_key mk = any_set mk.k && any_set mk.r

-- `EncryptionKey.Valid`
unfoldable pub is_valid_encryption_key : Bytes → Bool
is_valid_encryption_key k = any_set k

-- `Key.Valid`
unfoldable pub is_valid_key : Key → Bool
is_valid_key k = is_valid_encryption_key k.encryption_key && is_valid_mac_key k.mac_key

-- `validNonce`: the `|` of the bytes is positive where one of them is
unfoldable pub valid_nonce : Bytes → Bool
valid_nonce nonce = any_set nonce

-- `PlaintextLength`: the `int`, negative below `Extension`, as the 64-bit word that `uint` makes of it
unfoldable pub plaintext_length : ℕ → ℕ
plaintext_length n = (n + 2 ^ 64 - (iv_size + mac_size)) % 2 ^ 64

-- `CiphertextLength`

unfoldable pub ciphertext_length : ℕ → ℕ
ciphertext_length n = n + (iv_size + mac_size)

module _ (lib : CipherLib) where
  -- `poly1305PrepareKey`
  unfoldable pub poly1305_prepare_key : Bytes → MacKey → Bytes
  poly1305_prepare_key nonce mk = mk.r ++ lib.aes_block mk.k nonce

  -- `poly1305MAC`
  unfoldable pub poly1305_mac : Bytes → Bytes → MacKey → Bytes
  poly1305_mac msg nonce mk = lib.poly1305_sum (poly1305_prepare_key nonce mk) msg

  -- `poly1305Verify`
  unfoldable pub poly1305_check : Bytes → Bytes → MacKey → Bytes → Bool
  poly1305_check msg nonce mk mac = lib.poly1305_verify (poly1305_prepare_key nonce mk) msg mac

  -- `Seal`, with no additional data and an empty `dst`
  unfoldable pub seal : Key → Bytes → Bytes → CryptoAnswer
  seal k nonce plaintext =
      let out = lib.xor_key_stream k.encryption_key nonce plaintext in
      if not (is_valid_key k) || (not (length nonce == iv_size) || not (valid_nonce nonce))
      then crypto_panic
      else bytes (out ++ poly1305_mac out nonce k.mac_key)

  -- `Open`, with an empty `dst`
  unfoldable pub open_sealed : Key → Bytes → Bytes → CryptoAnswer
  open_sealed k nonce ciphertext =
      let l = length ciphertext - mac_size in
      let ct = take l ciphertext in
      if not (is_valid_key k)
      then invalid_key
      else if not (length nonce == iv_size)
      then crypto_panic
      else if not (valid_nonce nonce)
      then invalid_nonce
      else if ltb (length ciphertext) mac_size
      then too_short
      else if not (poly1305_check ct nonce k.mac_key (drop l ciphertext))
      then unauthenticated
      else bytes (lib.xor_key_stream k.encryption_key nonce ct)

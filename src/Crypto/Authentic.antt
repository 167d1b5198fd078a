-- ===== src/Crypto/Authentic.antt =====
-- What `Open` accepts is what `Seal` made.
use vlbe.Base.{
  ◌+◌, ◌-◌, ◌≤◌, ◌≡◌, ◌↔◌, refl, ap, ◌∙◌, true, false, ◌++◌, length, take, drop, ltb, ◌==◌, arith,
  take-append, drop-append, take-drop, length-append,
}
use vlbe.Crypto.{
  Bytes, iv_size, mac_size, Key, CipherLib, bytes, is_valid_key, valid_nonce, poly1305_prepare_key,
  poly1305_mac, poly1305_check, seal, open_sealed,
}

-- what AES in counter mode and Poly1305 document
pub record CipherLaws (lib : CipherLib) : Type 0 where
  pub xor_twice :
      (k nonce p : Bytes) → lib.xor_key_stream k nonce (lib.xor_key_stream k nonce p) ≡ p
  pub xor_length : (k nonce p : Bytes) → length (lib.xor_key_stream k nonce p) ≡ length p
  pub sum_length : (k msg : Bytes) → length (lib.poly1305_sum k msg) ≡ mac_size
  pub verify_iff :
      (k msg mac : Bytes) → (lib.poly1305_verify k msg mac ≡ true) ↔ (mac ≡ lib.poly1305_sum k msg)

module _ (lib : CipherLib) (laws : CipherLaws lib) where
  seal-inv :
      (k : Key) (nonce p c : Bytes)
      → seal lib k nonce p ≡ bytes c
      → (is_valid_key k ≡ true)
        × (length nonce ≡ iv_size)
        × (valid_nonce nonce ≡ true)
        × (c
            ≡ lib.xor_key_stream k.encryption_key nonce p
              ++ poly1305_mac lib (lib.xor_key_stream k.encryption_key nonce p) nonce k.mac_key)
  unfolding seal
  seal-inv k nonce p c e = (ground arith, ground arith, ground arith, ground arith)

  open_sealed-inv :
      (k : Key) (nonce c p : Bytes)
      → open_sealed lib k nonce c ≡ bytes p
      → (is_valid_key k ≡ true)
        × (length nonce ≡ iv_size)
        × (valid_nonce nonce ≡ true)
        × (mac_size ≤ length c)
        × (poly1305_check lib
              (take (length c - mac_size) c)
              nonce
              k.mac_key
              (drop (length c - mac_size) c)
            ≡ true)
        × (p ≡ lib.xor_key_stream k.encryption_key nonce (take (length c - mac_size) c))
  unfolding open_sealed
  open_sealed-inv k nonce c p e =
      (ground arith, ground arith, ground arith, ground arith, ground arith, ground arith)

  pub open_sealed-seal :
      (k : Key) (nonce p c : Bytes)
      → seal lib k nonce p ≡ bytes c
      → (open_sealed lib k nonce c ≡ bytes p) × (length c ≡ length p + mac_size)
  unfolding open_sealed poly1305_mac poly1305_check
  open_sealed-seal k nonce p c e =
      let (valid, size, fresh, whole) = seal-inv k nonce p c e in
      let ct = lib.xor_key_stream k.encryption_key nonce p in
      let mac = poly1305_mac lib ct nonce k.mac_key in
      let mac_length : length mac ≡ mac_size = laws.sum_length _ ct in
      let c_length : length c ≡ length p + mac_size =
        ap length whole
        ∙ omega
            (arith, length-append ct mac, mac_length, laws.xor_length k.encryption_key nonce p) in
      let cut : length ct ≡ length c - mac_size =
        omega (arith, c_length, laws.xor_length k.encryption_key nonce p) in
      let front : take (length c - mac_size) c ≡ ct =
        ap (take (length c - mac_size)) whole ∙ take-append ct mac _ cut in
      let back : drop (length c - mac_size) c ≡ mac =
        ap (drop (length c - mac_size)) whole ∙ drop-append ct mac _ cut in
      let right_size : (length nonce == iv_size) ≡ true = ground (arith, size) in
      let long : ltb (length c) mac_size ≡ false = ground (arith, c_length) in
      let verified : poly1305_check lib ct nonce k.mac_key mac ≡ true =
        (laws.verify_iff _ ct mac).1 refl in
      let plain = laws.xor_twice k.encryption_key nonce p in
      (
        rw (open_sealed, valid, right_size, fresh, long, front, back, verified, plain) refl,
        c_length,
      )

  seal-open_sealed :
      (k : Key) (nonce c p : Bytes)
      → open_sealed lib k nonce c ≡ bytes p
      → seal lib k nonce p ≡ bytes c
  unfolding seal poly1305_mac poly1305_check
  seal-open_sealed k nonce c p e =
      let (valid, size, fresh, long, verified, plain) = open_sealed-inv k nonce c p e in
      let l = length c - mac_size in
      let same_mac =
        (laws.verify_iff (poly1305_prepare_key lib nonce k.mac_key) (take l c) (drop l c)).0
          verified in
      let right_size : (length nonce == iv_size) ≡ true = ground (arith, size) in
      let back : lib.xor_key_stream k.encryption_key nonce p ≡ take l c =
        ap (lib.xor_key_stream k.encryption_key nonce) plain
        ∙ laws.xor_twice k.encryption_key nonce (take l c) in
      rw (seal, valid, right_size, fresh, back, ← same_mac, take-drop l c) refl

  -- Where AES in counter mode and Poly1305 keep their documentation: `Open` accepts a ciphertext under a key
  -- and a nonce, with a plaintext, exactly when `Seal` makes that ciphertext of that plaintext. In particular
  -- `Open` gives back what was sealed, and accepts no bytes that `Seal` did not make under the same key and
  -- nonce.
  pub open_sealed_iff_seal :
      (k : Key) (nonce p c : Bytes)
      → (open_sealed lib k nonce c ≡ bytes p) ↔ (seal lib k nonce p ≡ bytes c)
  open_sealed_iff_seal k nonce p c =
      (seal-open_sealed k nonce c p, λ e. (open_sealed-seal k nonce p c e).0)

  -- Where AES in counter mode and Poly1305 keep their documentation, a sealed text is 16 bytes longer.
  pub length-seal :
      (k : Key) (nonce p c : Bytes) → seal lib k nonce p ≡ bytes c → length c ≡ length p + mac_size
  length-seal k nonce p c e = (open_sealed-seal k nonce p c e).1

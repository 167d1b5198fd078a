-- ===== src/Pack/Packer/Added.antt =====
-- The packer places blobs one after another.
use vlbe.Base.{
  ℕ, ◌+◌, ◌<◌, ◌≡◌, refl, ap, ◌∙◌, Bool, false, List, [], ◌∷◌, ◌++◌, length, take, drop, add64,
  add64-eq-add, word, drop-append, length-append, arith, take_all,
}
use vlbe.Restic.Blob.{ContentId, BlobType, Blob}
use vlbe.Crypto.{Bytes, CipherLib}
use vlbe.Pack.Header.Listing.{positioned}
use vlbe.Pack.Packer.{Packer, new_packer, pack_add}

-- where blobs end that start at an offset
unfoldable pub end_of : ℕ → List Blob → ℕ
end_of pos [] = pos
end_of pos (b ∷ bs) = end_of (add64 pos b.length) bs

-- the state that `Add` keeps: the blobs lie one after another, and `bytes` is where they and the output end
pub record IsPacking (p : Packer) : Type 0 where
  pub in_order : positioned 0 p.blobs ≡ p.blobs
  pub ends : end_of 0 p.blobs ≡ p.size
  pub in_output : p.size ≡ length p.output

positioned-append :
    (pos : ℕ) (bs : List Blob) (b : Blob)
    → positioned pos (bs ++ (b ∷ []))
      ≡ positioned pos bs ++ (record b { offset = end_of pos bs } ∷ [])
unfolding positioned end_of
positioned-append pos [] b = refl
positioned-append pos (c ∷ bs) b =
    ap (λ l. record c { offset = pos } ∷ l) (positioned-append (add64 pos c.length) bs b)

end_of-append :
    (pos : ℕ) (bs : List Blob) (b : Blob)
    → end_of pos (bs ++ (b ∷ [])) ≡ add64 (end_of pos bs) b.length
unfolding end_of
end_of-append pos [] b = refl
end_of-append pos (c ∷ bs) b = end_of-append (add64 pos c.length) bs b

new_packer-IsPacking : IsPacking new_packer
unfolding positioned end_of
new_packer-IsPacking = record { in_order = refl; ends = refl; in_output = refl }

-- Where the writer takes the new data whole and the pack stays below 2^64 bytes, `Add` appends one blob to a packer whose blobs lie one after another in its output, and keeps them so. The output grows by the data,
-- which stands at the offset, and with the length, that the new blob has.
pub pack_add-IsPacking :
    (lib : CipherLib) (write : Bytes → Bytes → ℕ × Bool) (t : BlobType) (id : ContentId)
    (new_bytes : Bytes) (uncompressed_length : ℕ) (p : Packer)
    → write p.output new_bytes ≡ (length new_bytes, false)
    → length p.output + length new_bytes < word
    → IsPacking p
    → let q = (pack_add lib write t id new_bytes uncompressed_length p).0 in
      IsPacking q
      × (q.output ≡ p.output ++ new_bytes)
      × ((b : Blob) × (q.blobs ≡ p.blobs ++ (b ∷ []))
          × (b.handle ≡ record { id = id; tpe = t })
          × (take b.length (drop b.offset q.output) ≡ new_bytes))
unfolding pack_add
pack_add-IsPacking lib write t id new_bytes ul p whole small packing =
    let b : Blob = record {
      handle = record { id = id; tpe = t };
      length = length new_bytes;
      offset = p.size;
      uncompressed_length = ul;
    } in
    let all = take_all (length new_bytes) new_bytes refl in
    rw (whole, all)
      (
        record {
          in_order = positioned-append 0 p.blobs b ∙ rw (packing.in_order, packing.ends) refl;
          ends = end_of-append 0 p.blobs b ∙ ap (λ n. add64 n (length new_bytes)) packing.ends;
          in_output =
              add64-eq-add p.size (length new_bytes) (omega (arith, packing.in_output))
              ∙ omega (arith, packing.in_output, length-append {0} p.output new_bytes);
        },
        refl,
        (
          b,
          refl,
          refl,
          rw (packing.in_output, drop-append p.output new_bytes (length p.output) refl) all,
        ),
      )

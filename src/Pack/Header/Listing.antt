-- ===== src/Pack/Header/Listing.antt =====
-- The header of a pack lists the blobs it was made of.
use vlbe.Base.{
  ℕ, zero, suc, ◌+◌, ◌≤◌, ◌<◌, ◌≡◌, refl, sym, inl, inr, List, [], ◌∷◌, ◌++◌, some, length, add64,
  drop-append, length-append, arith, All,
}
use vlbe.Restic.Blob.{Blob}
use vlbe.Crypto.{Bytes}
use vlbe.Pack.Size.{header_size, calculate_header_size}
use vlbe.Pack.Header.{ok, type_byte, entry_rest, make_header, list_entries}
use vlbe.Pack.Header.Entries.{IsEncodable, parse_header_entry-entry_rest, length-entry_rest}

-- blobs one after another from an offset
unfoldable pub positioned : ℕ → List Blob → List Blob
positioned pos [] = []
positioned pos (b ∷ bs) = record b { offset = pos } ∷ positioned (add64 pos b.length) bs

encodable-type_byte : (b : Blob) → IsEncodable b → (tpe : ℕ) × (type_byte b ≡ some tpe)
unfolding type_byte
encodable-type_byte b h = elim h.typed [
  | inl of_data ↦ rw of_data (_, refl)
  | inr of_tree ↦ rw of_tree (_, refl)
]

module _ (b : Blob) (h : IsEncodable b) (tpe : ℕ) (typed : type_byte b ≡ some tpe)
    (more : Bytes) where
  list_one :
      (bs : List Blob)
      → ((fuel pos : ℕ) → length more ≤ fuel → list_entries fuel pos more ≡ ok (positioned pos bs))
      → (fuel pos : ℕ) → length more < fuel
      → list_entries fuel pos (tpe ∷ (entry_rest b ++ more)) ≡ ok (positioned pos (b ∷ bs))
  unfolding list_entries positioned
  list_one bs rest zero pos enough = absurd (omega arith)
  list_one bs rest (suc fuel) pos enough =
      rw
        (
          parse_header_entry-entry_rest b h tpe typed more,
          sym (length-entry_rest b),
          drop-append (tpe ∷ entry_rest b) more (length (entry_rest b) + 1) (omega arith),
          rest fuel (add64 pos b.length) (omega arith),
        )
        refl

pub make_header_lem :
    (bs : List Blob)
    → All IsEncodable bs
    → (header : Bytes) × (make_header bs ≡ some header)
      × (length header + header_size ≡ calculate_header_size bs)
      × ((fuel pos : ℕ)
          → length header ≤ fuel
          → list_entries fuel pos header ≡ ok (positioned pos bs))
unfolding make_header calculate_header_size list_entries positioned
make_header_lem [] h = ([], refl, refl, λ fuel pos enough. refl)
make_header_lem (b ∷ bs) (h, hs) =
    let (header, made, size, back) = make_header_lem bs hs in
    let (tpe, typed) = encodable-type_byte b h in
    (
      tpe ∷ (entry_rest b ++ header),
      rw (typed, made, make_header) refl,
      omega (arith, size, length-entry_rest b, length-append {0} (entry_rest b) header),
      λ fuel pos enough.
          list_one b h tpe typed header bs back fuel pos
            (omega (arith, length-append {0} (entry_rest b) header)),
    )

-- ===== src/Pack/Header/Entries.antt =====
-- The entries of a header are read back as they were written.
use mathlib.Core.List.{append_assoc}
use vlbe.Base.{
  ℕ, ◌+◌, ◌≤◌, ◌<◌, ◌≡◌, refl, ap, ◌∙◌, ◌⊎◌, inl, inr, true, false, Bool-cases, ◌++◌, some, length,
  take, drop, ◌==◌, to_bytes, of_bytes, byte_bound, of_bytes-to_bytes, length-to_bytes, take-append,
  drop-append, length-append, arith,
}
use vlbe.Restic.Blob.{BlobType, data_blob, tree_blob, Blob, is_compressed}
use vlbe.Crypto.{Bytes}
use vlbe.Pack.Size.{entry_size, plain_entry_size, calculate_entry_size}
use vlbe.Pack.Header.{ok, type_byte, entry_rest, byte_type, header_blob, parse_header_entry}

-- the numbers fit into the header's fields
pub record IsEncodable (b : Blob) : Type 0 where
  pub typed : (b.handle.tpe ≡ data_blob) ⊎ (b.handle.tpe ≡ tree_blob)
  pub length_fits : b.length < byte_bound 4
  pub uncompressed_fits : b.uncompressed_length < byte_bound 4
  pub id_fits : b.handle.id < byte_bound 32

-- a field at the front of the buffer
field_front :
    (n x : ℕ) (more : Bytes)
    → x < byte_bound n
    → (of_bytes (take n (to_bytes n x ++ more)) ≡ x) × (drop n (to_bytes n x ++ more) ≡ more)
field_front n x more h = (
  ap of_bytes (take-append (to_bytes n x) more n (length-to_bytes n x)) ∙ of_bytes-to_bytes n x h,
  drop-append (to_bytes n x) more n (length-to_bytes n x),
)

type_byte_back :
    (b : Blob) (tpe : ℕ)
    → type_byte b ≡ some tpe
    → byte_type tpe ≡ some (b.handle.tpe, is_compressed b)
unfolding type_byte byte_type is_compressed
type_byte_back b tpe e = ground arith

pub length-entry_rest : (b : Blob) → length (entry_rest b) + 1 ≡ calculate_entry_size b
unfolding entry_rest calculate_entry_size is_compressed
length-entry_rest b = elim (Bool-cases (b.uncompressed_length == 0)) [
  | inl plain ↦ rw plain (
      omega (
        arith,
        length-append {0} (to_bytes 4 b.length) (to_bytes 32 b.handle.id),
        length-to_bytes 4 b.length,
        length-to_bytes 32 b.handle.id,
      ))
  | inr packed ↦ rw packed (
      omega (
        arith,
        length-append {0} (to_bytes 4 b.length)
            (to_bytes 4 b.uncompressed_length ++ to_bytes 32 b.handle.id),
        length-append {0} (to_bytes 4 b.uncompressed_length) (to_bytes 32 b.handle.id),
        length-to_bytes 4 b.length,
        length-to_bytes 4 b.uncompressed_length,
        length-to_bytes 32 b.handle.id,
      ))
]

-- What the parser returns, given what it reads from the fields.
module _ (tpe : ℕ) (t : BlobType) (p : Bytes) where
  parse_of_plain :
      byte_type tpe ≡ some (t, false)
      → plain_entry_size ≤ length p + 1
      → parse_header_entry tpe p
        ≡ ok (header_blob t (of_bytes (take 4 p)) 0 (drop 4 p), plain_entry_size)
  unfolding parse_header_entry
  parse_of_plain typed long = ground arith

  parse_of_compressed :
      byte_type tpe ≡ some (t, true)
      → entry_size ≤ length p + 1
      → parse_header_entry tpe p
        ≡ ok (
          header_blob t (of_bytes (take 4 p)) (of_bytes (take 4 (drop 4 p))) (drop 4 (drop 4 p)),
          entry_size,
        )
  unfolding parse_header_entry
  parse_of_compressed typed long = ground arith

-- a blob without its offset, which the header does not hold
abbrev pub bare : Blob → Blob
bare b = record b { offset = 0 }

bare_of_fields :
    (b : Blob) (l u i : ℕ)
    → l ≡ b.length
    → u ≡ b.uncompressed_length
    → i ≡ b.handle.id
    → Path Blob
        (record {
          handle = record { id = i; tpe = b.handle.tpe };
          length = l;
          offset = 0;
          uncompressed_length = u;
        })
        (bare b)
bare_of_fields b l u i el eu ei = rw (el, eu, ei) refl

module _ (b : Blob) (h : IsEncodable b) (tpe : ℕ) (typed : type_byte b ≡ some tpe)
    (more : Bytes) where
  layout_plain :
      is_compressed b ≡ false
      → entry_rest b ++ more ≡ to_bytes 4 b.length ++ (to_bytes 32 b.handle.id ++ more)
  unfolding entry_rest
  layout_plain plain = rw plain (append_assoc (to_bytes 4 b.length) (to_bytes 32 b.handle.id) more)

  layout_compressed :
      is_compressed b ≡ true
      → entry_rest b ++ more
        ≡ to_bytes 4 b.length
          ++ (to_bytes 4 b.uncompressed_length ++ (to_bytes 32 b.handle.id ++ more))
  unfolding entry_rest
  layout_compressed packed =
      rw
        (
          packed,
          append_assoc (to_bytes 4 b.length)
              (to_bytes 4 b.uncompressed_length ++ to_bytes 32 b.handle.id) more,
          append_assoc (to_bytes 4 b.uncompressed_length) (to_bytes 32 b.handle.id) more,
        )
        refl

  long_enough : calculate_entry_size b ≤ length (entry_rest b ++ more) + 1
  long_enough = omega (arith, length-append {0} (entry_rest b) more, length-entry_rest b)

  parse_plain :
      is_compressed b ≡ false
      → parse_header_entry tpe (entry_rest b ++ more) ≡ ok (bare b, calculate_entry_size b)
  unfolding calculate_entry_size is_compressed
  parse_plain plain =
      let typed_back : byte_type tpe ≡ some (b.handle.tpe, false) =
        type_byte_back b tpe typed ∙ ap (λ c. some (b.handle.tpe, c)) plain in
      let front = field_front 4 b.length (to_bytes 32 b.handle.id ++ more) h.length_fits in
      let id = field_front 32 b.handle.id more h.id_fits in
      let zero_size : 0 ≡ b.uncompressed_length = ground arith in
      let size : calculate_entry_size b ≡ plain_entry_size = ground arith in
      parse_of_plain tpe b.handle.tpe (entry_rest b ++ more) typed_back
        (omega (arith, long_enough, size))
      ∙ rw (size, layout_plain plain, front.1)
          (ap (λ c. ok (c, plain_entry_size)) (bare_of_fields b _ _ _ front.0 zero_size id.0))

  parse_compressed :
      is_compressed b ≡ true
      → parse_header_entry tpe (entry_rest b ++ more) ≡ ok (bare b, calculate_entry_size b)
  unfolding calculate_entry_size is_compressed
  parse_compressed packed =
      let typed_back : byte_type tpe ≡ some (b.handle.tpe, true) =
        type_byte_back b tpe typed ∙ ap (λ c. some (b.handle.tpe, c)) packed in
      let unpacked =
        field_front 4 b.uncompressed_length (to_bytes 32 b.handle.id ++ more) h.uncompressed_fits in
      let front =
        field_front 4 b.length
          (to_bytes 4 b.uncompressed_length ++ (to_bytes 32 b.handle.id ++ more)) h.length_fits in
      let id = field_front 32 b.handle.id more h.id_fits in
      let size : calculate_entry_size b ≡ entry_size = ground arith in
      parse_of_compressed tpe b.handle.tpe (entry_rest b ++ more) typed_back
        (omega (arith, long_enough, size))
      ∙ rw (size, layout_compressed packed, front.1, unpacked.1)
          (ap (λ c. ok (c, entry_size)) (bare_of_fields b _ _ _ front.0 unpacked.0 id.0))

  pub parse_header_entry-entry_rest :
      parse_header_entry tpe (entry_rest b ++ more) ≡ ok (bare b, calculate_entry_size b)
  parse_header_entry-entry_rest = elim (Bool-cases (is_compressed b)) [
    | inl packed ↦ parse_compressed packed
    | inr plain ↦ parse_plain plain
  ]

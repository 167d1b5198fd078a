-- ===== src/Pack/Header/Reading.antt =====
-- The header is found at the end of the pack file, whatever its length.
use vlbe.Base.{
  ℕ, ◌+◌, ◌-◌, ◌≤◌, ◌≡◌, refl, ap, ◌∙◌, inl, inr, false, Bool-cases, ◌++◌, some, length, take, drop,
  ltb, leb, if◌then◌else◌, to_bytes, of_bytes-to_bytes, length-to_bytes, take-append, drop-append,
  length-append, arith, drop-append_of_le, drop-drop, take_all, length-drop_lem,
}
use vlbe.Crypto.{Bytes}
use vlbe.Pack.Size.{extension, header_length_size}
use vlbe.Pack.Header.{
  max_header_size, min_file_size, eager_size, ok, ReaderAt, check_header_length, read_records,
  read_header,
}

-- what `io.ReaderAt` promises of a file that does not change
abbrev pub ReadsFile : ReaderAt → Bytes → Type 0
ReadsFile rd file = (off n : ℕ) → off + n ≤ length file → rd off n ≡ some (take n (drop off file))

-- a pack file: the blobs, the header and its length
abbrev pub pack_file : Bytes → Bytes → Bytes
pack_file blobs header = (blobs ++ header) ++ to_bytes 4 (length header)

module _ (blobs header : Bytes) (rd : ReaderAt) (reads : ReadsFile rd (pack_file blobs header))
    (long : extension ≤ length header)
    (fits : length header + header_length_size ≤ max_header_size) where
  length-pack_file :
      length (pack_file blobs header) ≡ length blobs + length header + header_length_size
  length-pack_file = omega (
    arith,
    length-append {0} (blobs ++ header) (to_bytes 4 (length header)),
    length-append {0} blobs header,
    length-to_bytes 4 (length header),
  )

  check_passes : check_header_length (length header) (length (pack_file blobs header)) ≡ ok tt
  unfolding check_header_length
  check_passes = ground (arith, length-pack_file)

  -- the last `n` bytes
  read_end :
      (n : ℕ)
      → header_length_size ≤ n
      → n ≤ length (pack_file blobs header)
      → rd (length (pack_file blobs header) - n) n
        ≡ some (
            drop (length (pack_file blobs header) - n) (blobs ++ header)
            ++ to_bytes 4 (length header))
  read_end n four within =
      let size = length (pack_file blobs header) in
      let sum = length-append {0} blobs header in
      let end : drop (size - n) (pack_file blobs header)
          ≡ drop (size - n) (blobs ++ header) ++ to_bytes 4 (length header) =
        drop-append_of_le (size - n) (blobs ++ header) (to_bytes 4 (length header))
          (omega (arith, length-pack_file, sum)) in
      reads (size - n) n (omega arith)
      ∙ ap some
          (take_all n _ (length-drop_lem (size - n) (pack_file blobs header) ∙ omega arith) ∙ end)

  -- One read finds the length, and the header when so much was asked for.
  read_records_lem :
      (bufsize n : ℕ)
      → (if ltb (length (pack_file blobs header)) bufsize
          then length (pack_file blobs header)
          else bufsize)
        ≡ n
      → header_length_size ≤ n
      → n ≤ length (pack_file blobs header)
      → (front : Bytes) × (read_records rd (length (pack_file blobs header)) bufsize
          ≡ ok (front, length header + header_length_size))
        × (length header + header_length_size ≤ n → front ≡ header)
  unfolding read_records
  read_records_lem bufsize n same four within =
      let size = length (pack_file blobs header) in
      let front = drop (size - n) (blobs ++ header) in
      let len = to_bytes 4 (length header) in
      let front_length : length front + header_length_size ≡ n = omega (
        arith,
        length-drop_lem (size - n) (blobs ++ header),
        length-append {0} blobs header,
        length-pack_file,
      ) in
      let all : length (front ++ len) - header_length_size ≡ length front =
        omega (arith, length-append {0} front len, length-to_bytes 4 (length header)) in
      (
        if ltb (length header + header_length_size) n
            then drop (length front - length header) front
            else front,
        rw
            (
              read_records,
              same,
              read_end n four within,
              all,
              take-append front len (length front) refl,
              drop-append front len (length front) refl,
              of_bytes-to_bytes 4 (length header) (omega arith),
              check_passes,
              same,
            )
            refl,
        λ asked. elim (Bool-cases (ltb (length header + header_length_size) n)) [
          | inl longer ↦ rw longer (
              drop-drop (length front - length header) (size - n) (length blobs) (blobs ++ header)
                (omega (arith, length-pack_file))
              ∙ drop-append blobs header (length blobs) refl)
          | inr exact ↦
              let tight : n ≤ length header + header_length_size = ground arith in
              rw exact (drop-append blobs header (size - n) (omega (arith, length-pack_file)))
        ],
      )

  module _ (enough : min_file_size ≤ length (pack_file blobs header)) where
    pub read_header-pack_file : read_header rd (length (pack_file blobs header)) ≡ ok header
    unfolding read_header
    read_header-pack_file =
        let size = length (pack_file blobs header) in
        let total = length header + header_length_size in
        let n = if ltb size eager_size then size else eager_size in
        let (front, first, whole) =
          read_records_lem eager_size n refl (ground arith) (ground arith) in
        let (again, second, whole_again) =
          read_records_lem total total (ground (arith, length-pack_file)) (omega arith)
            (omega (arith, length-pack_file)) in
        let long_file : ltb size min_file_size ≡ false = ground arith in
        elim (Bool-cases (leb total eager_size)) [
          | inl at_once ↦
              rw (read_header, long_file, first, at_once)
                (ap ok (whole (ground (arith, length-pack_file))))
          | inr later ↦
              rw (read_header, long_file, first, later, second) (ap ok (whole_again (omega arith)))
        ]

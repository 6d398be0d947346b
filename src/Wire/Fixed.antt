-- ===== src/Wire/Fixed.antt =====
-- The fields of fixed width and the null-terminated text of src/byte_buffer.cpp, read back as they
-- were written.
use quack_oracle.Base.{
  ℕ, zero, suc, ◌+◌, ◌*◌, ◌/◌, ◌%◌, ◌^◌, ◌≤◌, ◌<◌, ◌≡◌, ◌≢◌, refl, sym, ◌∙◌, List, [], ◌∷◌, ◌++◌,
  length, append_assoc, append-nil, arith, ok, All, ◌==◌, false,
}
use quack_oracle.Wire.Reader.{
  reader, bind-ok, pure, landed, read_byte, read_raw, read_uint16_be, read_uint16_le,
  read_uint32_be, be16, le16, be32, read_text, read_null_terminated,
}
use quack_oracle.Wire.Writer.{
  write_uint16_be, write_uint16_le, write_uint32_be, write_null_terminated,
}
use quack_oracle.Wire.Chunks.{read_raw-append}

two_bytes : (v : ℕ) → v < 2 ^ 16 → v / 256 % 256 * 256 + v % 256 ≡ v
two_bytes v h = omega arith

four_bytes :
    (v : ℕ)
    → v < 2 ^ 32
    → v / 256 ^ 3 % 256 * 256 ^ 3 + v / 256 ^ 2 % 256 * 256 ^ 2 + v / 256 % 256 * 256 + v % 256 ≡ v
four_bytes v h = omega arith

-- A field of two or four bytes, in either byte order, is read back and the reader stands behind it.
pub read-write_fixed :
    (value p : ℕ) (rest : List ℕ)
    → (value < 2 ^ 16
        → read_uint16_be (reader p (write_uint16_be [] value ++ rest))
          ≡ ok (value, reader (p + 2) rest))
      × (value < 2 ^ 16
          → read_uint16_le (reader p (write_uint16_le [] value ++ rest))
            ≡ ok (value, reader (p + 2) rest))
      × (value < 2 ^ 32
          → read_uint32_be (reader p (write_uint32_be [] value ++ rest))
            ≡ ok (value, reader (p + 4) rest))
unfolding read_uint16_be read_uint16_le read_uint32_be write_uint16_be write_uint16_le
    write_uint32_be be16 le16 be32
read-write_fixed value p rest = (
  λ h.
      bind-ok (read_raw 2) (λ xs. pure (be16 xs)) _
        (read_raw-append (write_uint16_be [] value) rest p)
      ∙ landed (p + 2) (p + 2) rest (two_bytes value h) refl,
  λ h.
      bind-ok (read_raw 2) (λ xs. pure (le16 xs)) _
        (read_raw-append (write_uint16_le [] value) rest p)
      ∙ landed (p + 2) (p + 2) rest (two_bytes value h) refl,
  λ h.
      bind-ok (read_raw 4) (λ xs. pure (be32 xs)) _
        (read_raw-append (write_uint32_be [] value) rest p)
      ∙ landed (p + 4) (p + 4) rest (four_bytes value h) refl,
)

abbrev IsText : ℕ → Type 0
IsText b = (b ≢ 0) × (b < 256)

read_text-append :
    (left : ℕ) (value result : List ℕ) (p : ℕ) (rest : List ℕ)
    → length value < left
    → All IsText value
    → read_text left result (reader p (value ++ 0 ∷ rest))
      ≡ ok (result ++ value, reader (p + length value + 1) rest)
unfolding read_text read_byte
read_text-append zero value result p rest h t = absurd (omega arith)
read_text-append (suc left) [] result p rest h t =
    landed _ _ rest (sym (append-nil result)) (omega arith)
read_text-append (suc left) (b ∷ bs) result p rest h t =
    let e : (b == 0) ≡ false = ground arith in
    rw e (
      read_text-append left bs (result ++ b ∷ []) (p + 1) rest (omega arith) t.1
      ∙ landed _ _ rest (append_assoc result (b ∷ []) bs) (omega arith))

-- A text with no zero byte is read back under any limit that it does not exceed.
pub read-write_null_terminated :
    (value : List ℕ) (maximum p : ℕ) (rest : List ℕ)
    → length value ≤ maximum
    → All IsText value
    → read_null_terminated maximum (reader p (write_null_terminated [] value ++ rest))
      ≡ ok (value, reader (p + length value + 1) rest)
unfolding read_null_terminated write_null_terminated
read-write_null_terminated value maximum p rest h t =
    rw (append_assoc value (0 ∷ []) rest)
      (read_text-append (maximum + 1) value [] p rest (omega arith) t)

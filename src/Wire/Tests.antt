-- ===== src/Wire/Tests.antt =====
-- Runs of the readers and writers of src/byte_buffer.cpp on small inputs, and the theorems about
-- them at such inputs.
use quack_oracle.Base.{
  ℕ, ◌+◌, ◌≡◌, refl, List, [], ◌∷◌, ◌++◌, some, length, replicate, arith, ok, err, malformed,
  limit_exceeded, truncated,
}
use quack_oracle.Wire.Reader.{
  reader, remaining, read_byte, read_raw, read_digits, read_universal, read_ub2, read_ub4, read_ub8,
  read_uint16_be, be16, read_chunks, read_length_prefixed, read_text, read_null_terminated,
}
use quack_oracle.Wire.Writer.{
  write_byte, write_raw, write_digits, count_bytes, write_universal, write_ub4, write_chunks,
  write_length_prefixed, write_null_terminated,
}
use quack_oracle.Wire.Universal.{read-write_ub}
use quack_oracle.Wire.Prefixed.{read-write_length_prefixed}

-- Opens every reader and writer for a test.
open_wire : ℕ
unfolding remaining read_byte read_raw read_digits read_universal read_ub2 read_ub4 read_ub8
    read_uint16_be be16 read_chunks read_length_prefixed read_text read_null_terminated write_byte
    write_raw write_digits count_bytes write_universal write_ub4 write_chunks write_length_prefixed
    write_null_terminated
open_wire = 0

ub4_300 : write_ub4 [] 300 ≡ 2 ∷ 1 ∷ 44 ∷ []
unfolding open_wire
ub4_300 = refl

ub4_negative : read_ub4 (reader 0 (0x81 ∷ 5 ∷ [])) ≡ err malformed
unfolding open_wire
ub4_negative = refl

ub4_too_wide : read_ub4 (reader 0 (5 ∷ 1 ∷ 2 ∷ 3 ∷ 4 ∷ 5 ∷ [])) ≡ err malformed
unfolding open_wire
ub4_too_wide = refl

ub4_cut : read_ub4 (reader 0 (2 ∷ 1 ∷ [])) ≡ err truncated
unfolding open_wire
ub4_cut = refl

-- Two chunks of two bytes each.
chunked_value : List ℕ
chunked_value = 254 ∷ 1 ∷ 2 ∷ 7 ∷ 8 ∷ 1 ∷ 2 ∷ 9 ∷ 10 ∷ 0 ∷ 77 ∷ []

chunked_read :
    read_length_prefixed 4 (reader 0 chunked_value)
    ≡ ok (some (7 ∷ 8 ∷ 9 ∷ 10 ∷ []), reader 10 (77 ∷ []))
unfolding open_wire chunked_value
chunked_read = refl

chunked_over : read_length_prefixed 3 (reader 0 chunked_value) ≡ err limit_exceeded
unfolding open_wire chunked_value
chunked_over = refl

text_over : read_null_terminated 1 (reader 0 (65 ∷ 66 ∷ 0 ∷ [])) ≡ err limit_exceeded
unfolding open_wire
text_over = refl

read-write_ub_example :
    read_ub4 (reader 5 (write_ub4 [] 300 ++ 9 ∷ []))
    ≡ ok (300, reader (5 + length (write_ub4 [] 300)) (9 ∷ []))
read-write_ub_example = (read-write_ub 300 5 (9 ∷ [])).1 (omega arith)

-- A value that needs the chunked form.
long_value : List ℕ
long_value = replicate 300 7

read-write_length_prefixed_example :
    read_length_prefixed 300
      (reader 5 (write_length_prefixed [] (some (replicate 300 7)) ++ 9 ∷ []))
    ≡ ok (
      some (replicate 300 7),
      reader (5 + length (write_length_prefixed [] (some (replicate 300 7)))) (9 ∷ []),
    )
read-write_length_prefixed_example =
    read-write_length_prefixed (some (replicate 300 7)) 300 5 (9 ∷ []) (omega arith)

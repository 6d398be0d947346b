-- ===== src/Wire/Writer.antt =====
-- ByteWriter of src/byte_buffer.cpp. A writer is the bytes written so far, and each operation
-- returns the writer with its own bytes behind them; `static_cast<uint8_t>` is `% 256`.
use quack_oracle.Base.{
  ℕ, zero, suc, ◌+◌, ◌-◌, ◌/◌, ◌%◌, ◌^◌, min, Option, none, some, List, [], ◌∷◌, ◌++◌, leb, ◌==◌,
  if◌then◌else◌, length, take, drop,
}
use quack_oracle.Wire.Reader.{null_length_indicator, long_length_indicator, max_short_length}

abbrev pub ByteWriter : Type 0
ByteWriter = List ℕ

unfoldable pub write_byte : ByteWriter → ℕ → ByteWriter
write_byte w value = w ++ value % 256 ∷ []

unfoldable pub write_raw : ByteWriter → List ℕ → ByteWriter
write_raw w value = w ++ value

unfoldable pub write_uint16_be : ByteWriter → ℕ → ByteWriter
unfolding write_byte
write_uint16_be w value = write_byte (write_byte w (value / 256)) value

unfoldable pub write_uint16_le : ByteWriter → ℕ → ByteWriter
unfolding write_byte
write_uint16_le w value = write_byte (write_byte w value) (value / 256)

unfoldable pub write_uint32_be : ByteWriter → ℕ → ByteWriter
unfolding write_byte
write_uint32_be w value =
    write_byte
      (write_byte (write_byte (write_byte w (value / 256 ^ 3)) (value / 256 ^ 2)) (value / 256))
      value

-- `while (bytes < maximum_bytes && value >= (uint64_t(1) << (bytes * 8U)))`, with the rounds left
-- until `bytes` is `maximum_bytes`.
unfoldable pub count_bytes : ℕ → ℕ → ℕ → ℕ
count_bytes zero bytes value = bytes
count_bytes (suc left) bytes value =
    let more = count_bytes left (bytes + 1) value in if leb (256 ^ bytes) value then more else bytes

-- `for (index = bytes; index > 0; index--) WriteByte(value >> ((index - 1) * 8))`
unfoldable pub write_digits : ℕ → ByteWriter → ℕ → ByteWriter
unfolding write_byte
write_digits zero w value = w
write_digits (suc index) w value = write_digits index (write_byte w (value / 256 ^ index)) value

unfoldable pub write_universal : ByteWriter → ℕ → ℕ → ByteWriter
unfolding write_byte
write_universal w value maximum_bytes =
    if value == 0
    then write_byte w 0
    else (let bytes = count_bytes (maximum_bytes - 1) 1 value in
        write_digits bytes (write_byte w bytes) value)

unfoldable pub write_ub2 : ByteWriter → ℕ → ByteWriter
write_ub2 w value = write_universal w value 2

unfoldable pub write_ub4 : ByteWriter → ℕ → ByteWriter
write_ub4 w value = write_universal w value 4

unfoldable pub write_ub8 : ByteWriter → ℕ → ByteWriter
write_ub8 w value = write_universal w value 8

abbrev pub chunk_limit : ℕ
chunk_limit = 0x8000

-- `while (offset < value->size())`: `value` is what stands behind the offset. A round takes a byte at
-- least, so `length value` rounds are enough.
unfoldable pub write_chunks : ℕ → ℕ → ByteWriter → List ℕ → ByteWriter
unfolding write_raw
write_chunks chunk_size zero w value = w
write_chunks chunk_size (suc fuel) w [] = w
write_chunks chunk_size (suc fuel) w (b ∷ bs) =
    (let count = min chunk_size (length (b ∷ bs)) in
      write_chunks chunk_size fuel (write_raw (write_ub4 w count) (take count (b ∷ bs)))
        (drop count (b ∷ bs)))

-- `!value.has_value() || value->empty()` is the first two clauses.
unfoldable pub write_length_prefixed : ByteWriter → Option (List ℕ) → ByteWriter
unfolding write_byte write_raw
write_length_prefixed w none = write_byte w null_length_indicator
write_length_prefixed w (some []) = write_byte w null_length_indicator
write_length_prefixed w (some (b ∷ bs)) =
    (let size = length (b ∷ bs) in
      if leb size max_short_length
      then write_raw (write_byte w size) (b ∷ bs)
      else write_ub4 (write_chunks chunk_limit size (write_byte w long_length_indicator) (b ∷ bs))
          0)

unfoldable pub write_null_terminated : ByteWriter → List ℕ → ByteWriter
unfolding write_byte write_raw
write_null_terminated w value = write_byte (write_raw w value) 0

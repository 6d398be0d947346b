-- ===== src/Values/Binary.antt =====
-- BINARY_FLOAT and BINARY_DOUBLE of src/value_codec.cpp, at `size` bytes. A value is its bit pattern, as
-- `memcpy` gives it.
use quack_oracle.Base.{
  ℕ, zero, suc, ◌+◌, ◌-◌, ◌*◌, ◌/◌, ◌%◌, ◌^◌, not, List, [], ◌∷◌, leb, ◌==◌, if◌then◌else◌, length,
  map, Result, ok, throw_if, ◌>>◌, malformed,
}

-- The bytes of the bits, the most significant first.
unfoldable pub bit_bytes : ℕ → ℕ → List ℕ
bit_bytes zero bits = []
bit_bytes (suc index) bits = bits / 256 ^ index % 256 ∷ bit_bytes index bits

-- `~byte`
abbrev pub inverted : ℕ → ℕ
inverted byte = 255 - byte

unfoldable pub mark_sign : List ℕ → List ℕ
mark_sign [] = []
mark_sign (first ∷ rest) =
    if leb 128 first then inverted first ∷ map inverted rest else (first + 128) ∷ rest

unfoldable pub unmark_sign : List ℕ → List ℕ
unmark_sign [] = []
unmark_sign (first ∷ rest) =
    if leb 128 first then (first - 128) ∷ rest else inverted first ∷ map inverted rest

-- `bits = (bits << 8) | byte` for every byte, in an integer of `size` bytes.
unfoldable pub join_bytes : ℕ → ℕ → List ℕ → ℕ
join_bytes size bits [] = bits
join_bytes size bits (byte ∷ rest) = join_bytes size ((bits * 256 + byte) % 256 ^ size) rest

unfoldable pub encode_binary : ℕ → ℕ → List ℕ
encode_binary size bits = mark_sign (bit_bytes size bits)

unfoldable pub decode_binary : ℕ → List ℕ → Result ℕ
decode_binary size wire =
    throw_if (not (length wire == size)) malformed >> ok (join_bytes size 0 (unmark_sign wire))

abbrev pub encode_oracle_binary_float : ℕ → List ℕ
encode_oracle_binary_float = encode_binary 4

abbrev pub encode_oracle_binary_double : ℕ → List ℕ
encode_oracle_binary_double = encode_binary 8

abbrev pub decode_oracle_binary_float : List ℕ → Result ℕ
decode_oracle_binary_float = decode_binary 4

abbrev pub decode_oracle_binary_double : List ℕ → Result ℕ
decode_oracle_binary_double = decode_binary 8

-- ===== src/Values/Rowid.antt =====
-- ROWID of src/value_codec.cpp.
use quack_oracle.Base.{
  ℕ, zero, suc, ◌+◌, ◌-◌, ◌*◌, ◌/◌, ◌%◌, ◌^◌, ◌&&◌, Option, none, some, List, [], ◌∷◌, ◌++◌, ltb,
  ◌==◌, if◌then◌else◌, length, get_or, drop,
}
use quack_oracle.Values.Interval.{get_big_endian}

-- A-Z, a-z, 0-9, + and /, by their index.
unfoldable pub rowid_character : ℕ → ℕ
rowid_character index =
    if ltb index 26
    then 65 + index
    else if ltb index 52
    then 97 + (index - 26)
    else if ltb index 62
    then 48 + (index - 52)
    else if index == 62
    then 43
    else 47

-- `put`
unfoldable pub put_digits : ℕ → ℕ → List ℕ
put_digits value zero = []
put_digits value (suc digits) = rowid_character (value / 64 ^ digits % 64) ∷ put_digits value digits

abbrev pub rowid_text : List ℕ → List ℕ
rowid_text data_bytes =
    put_digits (get_big_endian data_bytes 0) 6
    ++ put_digits (get_or data_bytes 4 0 * 2 ^ 8 + get_or data_bytes 5 0) 3
    ++ put_digits (get_big_endian data_bytes 6) 6
    ++ put_digits (get_or data_bytes 10 0 * 2 ^ 8 + get_or data_bytes 11 0) 3

unfoldable pub try_decode_oracle_rowid : List ℕ → Option (List ℕ)
try_decode_oracle_rowid wire =
    if length wire == 13 && get_or wire 0 0 == 1
    then some (rowid_text (drop 1 wire))
    else if length wire == 12
    then some (rowid_text wire)
    else none

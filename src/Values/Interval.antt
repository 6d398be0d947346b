-- ===== src/Values/Interval.antt =====
-- The intervals of src/value_codec.cpp: an integer of 32 bits goes as its sum with 2^31, a field as its
-- sum with 60.
use quack_oracle.Base.{
  ℕ, ◌+◌, ◌*◌, ◌/◌, ◌%◌, ◌^◌, Bool, false, not, ◌&&◌, ◌||◌, List, [], ◌∷◌, ◌++◌, ltb, ◌==◌, length,
  get_or, Result, ok, throw_if, ◌>>=◌, ◌>>◌, malformed,
}
use quack_oracle.Base.Int.{ℤ, pos, pos_part, neg_part, ◌+ℤ◌, ◌-ℤ◌, ◌*ℤ◌, ltb_ℤ, -ℤ_of, wrap}

abbrev pub interval_sign_offset : ℕ
interval_sign_offset = 2 ^ 31

abbrev pub interval_field_offset : ℕ
interval_field_offset = 60

-- `PutBigEndian` appends these bytes.
unfoldable pub put_big_endian : ℕ → List ℕ
put_big_endian value =
    value / 2 ^ 24 % 256 ∷ value / 2 ^ 16 % 256 ∷ value / 2 ^ 8 % 256 ∷ value % 256 ∷ []

-- Four bytes of the wire from an index on.
unfoldable pub get_big_endian : List ℕ → ℕ → ℕ
get_big_endian wire i =
    get_or wire i 0 * 2 ^ 24
    + get_or wire (i + 1) 0 * 2 ^ 16
    + get_or wire (i + 2) 0 * 2 ^ 8
    + get_or wire (i + 3) 0

abbrev pub read_offset_integer : List ℕ → ℕ → ℤ
read_offset_integer wire i = pos (get_big_endian wire i) -ℤ pos interval_sign_offset

-- `value < -limit || value > limit`
unfoldable pub out_of_range : ℤ → ℕ → Bool
out_of_range value limit = ltb_ℤ value (-ℤ_of limit) || ltb_ℤ (pos limit) value

abbrev pub read_interval_field : ℕ → ℕ → Result ℤ
read_interval_field byte limit =
    let value = pos byte -ℤ pos interval_field_offset in
    throw_if (out_of_range value limit) malformed >> ok value

unfoldable pub some_positive : List ℤ → Bool
some_positive [] = false
some_positive (z ∷ rest) = ltb 0 (pos_part z) || some_positive rest

unfoldable pub some_negative : List ℤ → Bool
some_negative [] = false
some_negative (z ∷ rest) = ltb 0 (neg_part z) || some_negative rest

abbrev pub require_one_sign : List ℤ → Result (Unit {0})
require_one_sign components =
    throw_if (some_positive components && some_negative components) malformed

abbrev pub require_interval_field : ℤ → ℕ → Result (Unit {0})
require_interval_field value limit = throw_if (out_of_range value limit) malformed

abbrev pub offset_integer_bytes : ℤ → List ℕ
offset_integer_bytes z = put_big_endian (wrap (2 ^ 32) (z +ℤ pos interval_sign_offset))

abbrev pub field_byte : ℤ → ℕ
field_byte z = wrap 256 (z +ℤ pos interval_field_offset)

unfoldable pub encode_oracle_interval_year_month : ℤ → ℤ → Result (List ℕ)
encode_oracle_interval_year_month years months = do
  require_interval_field months 11
  require_one_sign (years ∷ months ∷ [])
  ok (offset_integer_bytes years ++ (field_byte months ∷ []))

-- The count of months.
unfoldable pub decode_oracle_interval_year_month : List ℕ → Result ℤ
decode_oracle_interval_year_month wire = do
  throw_if (not (length wire == 5)) malformed
  months ← read_interval_field (get_or wire 4 0) 11
  require_one_sign (read_offset_integer wire 0 ∷ months ∷ [])
  ok (read_offset_integer wire 0 *ℤ 12 +ℤ months)

unfoldable pub encode_oracle_interval_day_second : ℤ → ℤ → ℤ → ℤ → ℤ → Result (List ℕ)
encode_oracle_interval_day_second days hours minutes seconds nanoseconds = do
  require_interval_field hours 23
  require_interval_field minutes 59
  require_interval_field seconds 59
  require_interval_field nanoseconds 999999999
  require_one_sign (days ∷ hours ∷ minutes ∷ seconds ∷ nanoseconds ∷ [])
  ok (
      offset_integer_bytes days
      ++ (field_byte hours ∷ field_byte minutes ∷ field_byte seconds ∷ [])
      ++ offset_integer_bytes nanoseconds)

pub record OracleIntervalDaySecond : Type 0 where
  pub days : ℤ
  pub nanoseconds : ℤ

abbrev pub time_of_day : ℤ → ℤ → ℤ → ℤ → ℤ
time_of_day hours minutes seconds nanoseconds =
    ((hours *ℤ 60 +ℤ minutes) *ℤ 60 +ℤ seconds) *ℤ 1000000000 +ℤ nanoseconds

unfoldable pub decode_oracle_interval_day_second : List ℕ → Result OracleIntervalDaySecond
decode_oracle_interval_day_second wire = do
  throw_if (not (length wire == 11)) malformed
  hours ← read_interval_field (get_or wire 4 0) 23
  minutes ← read_interval_field (get_or wire 5 0) 59
  seconds ← read_interval_field (get_or wire 6 0) 59
  throw_if (out_of_range (read_offset_integer wire 7) 999999999) malformed
  require_one_sign
      (read_offset_integer wire 0 ∷ hours ∷ minutes ∷ seconds ∷ read_offset_integer wire 7 ∷ [])
  ok (record {
    days = read_offset_integer wire 0;
    nanoseconds = time_of_day hours minutes seconds (read_offset_integer wire 7);
  })

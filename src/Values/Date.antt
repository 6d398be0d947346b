-- ===== src/Values/Date.antt =====
-- DATE and TIMESTAMP of src/value_codec.cpp. A byte or a field of an unsigned type is a number; the
-- year and the offset are signed.
use quack_oracle.Base.{
  ℕ, ◌+◌, ◌-◌, ◌*◌, ◌/◌, ◌%◌, ◌^◌, Bool, true, false, not, ◌&&◌, ◌||◌, List, [], ◌∷◌, ◌++◌, ltb,
  leb, ◌==◌, if◌then◌else◌, length, take, get_or, Result, ok, err, throw_if, ◌>>=◌, ◌>>◌, malformed,
  unsupported,
}
use quack_oracle.Base.Int.{ℤ, pos, pos_part, neg_part, ◌+ℤ◌, ◌-ℤ◌, ◌*ℤ◌, ◌/ℤ◌, ltb_ℤ, -ℤ_of, wrap}

pub record OracleDateTime : Type 0 where
  pub year : ℤ
  pub month : ℕ
  pub day : ℕ
  pub hour : ℕ
  pub minute : ℕ
  pub second : ℕ
  pub nanosecond : ℕ
  pub offset_minutes : ℤ
  pub has_offset : Bool

-- `year % divisor == 0`, which does not depend on the sign.
abbrev pub divides : ℕ → ℤ → Bool
divides divisor year = (pos_part year + neg_part year) % divisor == 0

abbrev pub is_leap_year : ℤ → Bool
is_leap_year year = divides 4 year && (not (divides 100 year) || divides 400 year)

unfoldable pub days_in_month : ℤ → ℕ → ℕ
days_in_month year month =
    if month == 2 && is_leap_year year
    then 29
    else get_or (31 ∷ 28 ∷ 31 ∷ 30 ∷ 31 ∷ 30 ∷ 31 ∷ 31 ∷ 30 ∷ 31 ∷ 30 ∷ 31 ∷ []) (month - 1) 0

-- The first test of `ValidateDateTime`, which throws when it holds.
unfoldable pub bad_fields : OracleDateTime → Bool
bad_fields v =
    ltb_ℤ v.year (-ℤ_of 4712)
    || ltb_ℤ (pos 9999) v.year
    || ltb v.month 1
    || ltb 12 v.month
    || ltb v.day 1
    || ltb (days_in_month v.year v.month) v.day
    || ltb 23 v.hour
    || ltb 59 v.minute
    || ltb 59 v.second
    || leb 1000000000 v.nanosecond

-- The second.
unfoldable pub bad_offset : OracleDateTime → Bool
bad_offset v =
    v.has_offset
    && (ltb_ℤ v.offset_minutes (-ℤ_of (15 * 60)) || ltb_ℤ (pos (15 * 60)) v.offset_minutes)

unfoldable pub validate_date_time : OracleDateTime → Result (Unit {0})
validate_date_time v = do throw_if (bad_fields v) malformed; throw_if (bad_offset v) malformed

unfoldable pub date_bytes : OracleDateTime → List ℕ
date_bytes v =
    let century = v.year /ℤ 100 in
    let year_in_century = v.year -ℤ century *ℤ 100 in
    wrap 256 (century +ℤ pos 100)
    ∷ wrap 256 (year_in_century +ℤ pos 100)
    ∷ v.month
    ∷ v.day
    ∷ (v.hour + 1) % 256
    ∷ (v.minute + 1) % 256
    ∷ (v.second + 1) % 256
    ∷ []

unfoldable pub encode_oracle_date : OracleDateTime → Result (List ℕ)
encode_oracle_date v = validate_date_time v >> ok (date_bytes v)

-- The fields that `DecodeOracleDate` reads; those it does not read have their defaults.
unfoldable pub date_fields : List ℕ → OracleDateTime
date_fields wire = record {
  year = (pos (get_or wire 0 0) -ℤ pos 100) *ℤ 100 +ℤ pos (get_or wire 1 0) -ℤ pos 100;
  month = get_or wire 2 0;
  day = get_or wire 3 0;
  hour = get_or wire 4 0 - 1;
  minute = get_or wire 5 0 - 1;
  second = get_or wire 6 0 - 1;
  nanosecond = 0;
  offset_minutes = pos 0;
  has_offset = false;
}

unfoldable pub decode_oracle_date : List ℕ → Result OracleDateTime
decode_oracle_date wire = do
  throw_if (not (length wire == 7)) malformed
  throw_if (get_or wire 4 0 == 0 || get_or wire 5 0 == 0 || get_or wire 6 0 == 0) malformed
  validate_date_time (date_fields wire)
  ok (date_fields wire)

abbrev pub nanosecond_bytes : ℕ → List ℕ
nanosecond_bytes n = n / 2 ^ 24 % 256 ∷ n / 2 ^ 16 % 256 ∷ n / 2 ^ 8 % 256 ∷ n % 256 ∷ []

abbrev pub offset_bytes : ℤ → List ℕ
offset_bytes offset =
    let hours = offset /ℤ 60 in
    let minutes = offset -ℤ hours *ℤ 60 in
    wrap 256 (hours +ℤ pos 20) ∷ wrap 256 (minutes +ℤ pos 60) ∷ []

unfoldable pub encode_oracle_timestamp : OracleDateTime → Bool → Result (List ℕ)
encode_oracle_timestamp v with_time_zone = do
  validate_date_time v
  throw_if (with_time_zone && not v.has_offset) malformed
  date ← encode_oracle_date v
  ok (
      date
      ++ nanosecond_bytes v.nanosecond
      ++ (if with_time_zone then offset_bytes v.offset_minutes else []))

-- Bytes 7 to 10, when they are there.
unfoldable pub with_nanosecond : List ℕ → OracleDateTime → OracleDateTime
with_nanosecond wire v =
    if leb 11 (length wire)
    then record v {
      nanosecond =
          get_or wire 7 0 * 2 ^ 24
          + get_or wire 8 0 * 2 ^ 16
          + get_or wire 9 0 * 2 ^ 8
          + get_or wire 10 0;
    }
    else v

-- Bytes 11 and 12, when they are there. The top bit marks a region, and the next bit is taken off.
unfoldable pub with_offset : List ℕ → OracleDateTime → Result OracleDateTime
with_offset wire v =
    if length wire == 13
    then if leb 128 (get_or wire 11 0)
      then err unsupported
      else (let hour = pos (get_or wire 11 0 % 64) -ℤ pos 20 in
          let minute = pos (get_or wire 12 0) -ℤ pos 60 in
          ok (record v { offset_minutes = hour *ℤ 60 +ℤ minute; has_offset = true }))
    else ok v

unfoldable pub decode_oracle_timestamp : List ℕ → Result OracleDateTime
decode_oracle_timestamp wire = do
  throw_if (not (length wire == 7 || length wire == 11 || length wire == 13)) malformed
  date ← decode_oracle_date (take 7 wire)
  result ← with_offset wire (with_nanosecond wire date)
  validate_date_time result
  ok result

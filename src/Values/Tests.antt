-- ===== src/Values/Tests.antt =====
-- Values of Oracle and their bytes, and the theorems about the codecs at them.
use quack_oracle.Base.{
  ℕ, ◌≡◌, refl, true, List, [], ◌∷◌, if◌then◌else◌, length, ok, err, malformed, unsupported, arith,
  AreBytes,
}
use quack_oracle.Base.Int.{pos, negsuc, minus, wrap}
use quack_oracle.Values.Date.{
  OracleDateTime, days_in_month, bad_fields, bad_offset, validate_date_time, date_bytes,
  encode_oracle_date, date_fields, decode_oracle_date, encode_oracle_timestamp, with_nanosecond,
  with_offset, decode_oracle_timestamp,
}
use quack_oracle.Values.TimestampRound.{without_offset, decode-encode_timestamp}
use quack_oracle.Values.Interval.{
  put_big_endian, get_big_endian, out_of_range, some_positive, some_negative,
  encode_oracle_interval_year_month, decode_oracle_interval_year_month,
  encode_oracle_interval_day_second, decode_oracle_interval_day_second,
}
use quack_oracle.Base.{some}
use quack_oracle.Values.Calendar.{
  days_from_civil, civil_from_days, minutes_up, minutes_down, set_clock, oracle_zoned_wall_clock,
}
use quack_oracle.Values.Rowid.{rowid_character, put_digits, try_decode_oracle_rowid}
use quack_oracle.Values.Binary.{
  bit_bytes, mark_sign, unmark_sign, join_bytes, encode_binary, decode_binary,
  encode_oracle_binary_float,
}
use quack_oracle.Values.BinaryRound.{decode-encode_binary}
use quack_oracle.Values.IntervalRound.{decode-encode_day_second, DaySecondBytes}

open_values : ℕ
unfolding minus wrap days_in_month bad_fields bad_offset validate_date_time date_bytes
    encode_oracle_date date_fields decode_oracle_date encode_oracle_timestamp with_nanosecond
    with_offset decode_oracle_timestamp put_big_endian get_big_endian out_of_range some_positive
    some_negative encode_oracle_interval_year_month decode_oracle_interval_year_month
    encode_oracle_interval_day_second decode_oracle_interval_day_second
open_values = 0

-- 29 February 2024, 05:06:07.000000008 at -03:30.
abbrev leap_day : OracleDateTime
leap_day = record {
  year = pos 2024;
  month = 2;
  day = 29;
  hour = 5;
  minute = 6;
  second = 7;
  nanosecond = 8;
  offset_minutes = negsuc 209;
  has_offset = true;
}

leap_day_bytes :
    encode_oracle_timestamp leap_day true
    ≡ ok (120 ∷ 124 ∷ 2 ∷ 29 ∷ 6 ∷ 7 ∷ 8 ∷ 0 ∷ 0 ∷ 0 ∷ 8 ∷ 17 ∷ 30 ∷ [])
unfolding open_values
leap_day_bytes = refl

before_christ :
    encode_oracle_date (record leap_day { year = negsuc 4711 })
    ≡ ok (53 ∷ 88 ∷ 2 ∷ 29 ∷ 6 ∷ 7 ∷ 8 ∷ [])
unfolding open_values
before_christ = refl

no_leap_day : encode_oracle_date (record leap_day { year = pos 1900 }) ≡ err malformed
unfolding open_values
no_leap_day = refl

named_region :
    decode_oracle_timestamp (120 ∷ 124 ∷ 2 ∷ 29 ∷ 6 ∷ 7 ∷ 8 ∷ 0 ∷ 0 ∷ 0 ∷ 8 ∷ 208 ∷ 30 ∷ [])
    ≡ err unsupported
unfolding open_values
named_region = refl

valid : validate_date_time leap_day ≡ ok tt
unfolding open_values
valid = refl

decode-encode_timestamp_example :
    (wire : List ℕ) × (encode_oracle_timestamp leap_day true ≡ ok wire)
    × AreBytes wire
    × (length wire ≡ (if true then 13 else 11))
    × (decode_oracle_timestamp wire ≡ ok (if true then leap_day else without_offset leap_day))
decode-encode_timestamp_example = decode-encode_timestamp leap_day true valid (λ e. refl)

-- -5-11
year_month :
    encode_oracle_interval_year_month (negsuc 4) (negsuc 10) ≡ ok (127 ∷ 255 ∷ 255 ∷ 251 ∷ 49 ∷ [])
unfolding open_values
year_month = refl

mixed_signs : decode_oracle_interval_year_month (127 ∷ 255 ∷ 255 ∷ 251 ∷ 71 ∷ []) ≡ err malformed
unfolding open_values
mixed_signs = refl

day_second :
    encode_oracle_interval_day_second (pos 1) (pos 2) (pos 3) (pos 4) (pos 5)
    ≡ ok (128 ∷ 0 ∷ 0 ∷ 1 ∷ 62 ∷ 63 ∷ 64 ∷ 128 ∷ 0 ∷ 0 ∷ 5 ∷ [])
unfolding open_values
day_second = refl

decode-encode_day_second_example :
    DaySecondBytes
      (pos 1)
      (pos 2)
      (pos 3)
      (pos 4)
      (pos 5)
      (128 ∷ 0 ∷ 0 ∷ 1 ∷ 62 ∷ 63 ∷ 64 ∷ 128 ∷ 0 ∷ 0 ∷ 5 ∷ [])
decode-encode_day_second_example =
    decode-encode_day_second (pos 1) (pos 2) (pos 3) (pos 4) (pos 5)
      (128 ∷ 0 ∷ 0 ∷ 1 ∷ 62 ∷ 63 ∷ 64 ∷ 128 ∷ 0 ∷ 0 ∷ 5 ∷ []) (omega arith) day_second

open_binary : ℕ
unfolding bit_bytes mark_sign unmark_sign join_bytes encode_binary decode_binary
open_binary = 0

-- 1.0 and -1.0 as BINARY_FLOAT.
one_float : encode_oracle_binary_float 1065353216 ≡ 191 ∷ 128 ∷ 0 ∷ 0 ∷ []
unfolding open_binary
one_float = refl

minus_one_float : encode_oracle_binary_float 3212836864 ≡ 64 ∷ 127 ∷ 255 ∷ 255 ∷ []
unfolding open_binary
minus_one_float = refl

decode-encode_binary_example :
    AreBytes (encode_binary 4 3212836864)
    × (length (encode_binary 4 3212836864) ≡ 4)
    × (decode_binary 4 (encode_binary 4 3212836864) ≡ ok 3212836864)
decode-encode_binary_example = decode-encode_binary 4 3212836864 (omega arith)

open_calendar : ℕ
unfolding minus wrap days_from_civil civil_from_days minutes_up minutes_down set_clock
    oracle_zoned_wall_clock get_big_endian rowid_character put_digits try_decode_oracle_rowid
open_calendar = 0

-- 23:30 on the last day of February 2024 is 00:30 on the first of March an hour further east.
abbrev late_evening : OracleDateTime
late_evening = record leap_day { hour = 23; minute = 30; offset_minutes = pos 60 }

next_day :
    oracle_zoned_wall_clock late_evening
    ≡ ok (record late_evening { month = 3; day = 1; hour = 0; minute = 30 })
unfolding open_calendar
next_day = refl

new_year_before :
    oracle_zoned_wall_clock (record late_evening {
      year = negsuc 4;
      month = 1;
      day = 1;
      hour = 0;
      offset_minutes = negsuc 59;
    })
    ≡ ok (record late_evening {
      year = negsuc 5;
      month = 12;
      day = 31;
      hour = 23;
      offset_minutes = negsuc 59;
    })
unfolding open_calendar
new_year_before = refl

-- AAASZHAAEAAAACXAAA
rowid :
    try_decode_oracle_rowid (0 ∷ 1 ∷ 38 ∷ 71 ∷ 0 ∷ 4 ∷ 0 ∷ 0 ∷ 0 ∷ 151 ∷ 0 ∷ 0 ∷ [])
    ≡ some (
        65 ∷ 65 ∷ 65 ∷ 83 ∷ 90 ∷ 72 ∷ 65 ∷ 65 ∷ 69 ∷ 65 ∷ 65 ∷ 65 ∷ 65 ∷ 67 ∷ 88 ∷ 65 ∷ 65 ∷ 65
        ∷ [])
unfolding open_calendar
rowid = refl

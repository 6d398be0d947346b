-- ===== src/Values/NumberTests.antt =====
-- NUMBER at a few values, and the theorems about it there.
use quack_oracle.Base.{
  ℕ, ◌≤◌, ◌≡◌, refl, true, none, some, List, [], ◌∷◌, length, if◌then◌else◌, ◌&&◌, ok, err,
  malformed, Ends, arith,
}
use quack_oracle.Base.Int.{pos, negsuc, minus, wrap}
use quack_oracle.Values.Integer.{
  is_negative, exponent_100, digits_end, digit_value, bad_digit, read_magnitude, scale_magnitude,
  with_sign, digit_bytes, scaled_integer, try_decode_oracle_integer,
}
use quack_oracle.Values.IntegerExact.{
  is_whole, fits, signed, exact_magnitude, try_decode_oracle_integer-exact,
}
use quack_oracle.Values.Number.{
  exponent_digits, exponent_value, signed_exponent, parse_exponent, floor_divide_by_two,
  scan_digits, without_leading_zeros, without_last, pairs_of, groups_of, group_byte, group_bytes,
  exponent_byte, number_bytes, encode_digits, encode_placed, encode_scanned, encode_signed,
  encode_oracle_number,
}
use quack_oracle.Values.NumberText.{
  read_groups, first_digits, pair_digits, placed, has_point, trimmed, number_text,
  decode_oracle_number,
}
use quack_oracle.Values.NumberAccepted.{last_nonzero, decode-number_bytes}
use quack_oracle.Values.NumberEncoded.{Decodes, encode_oracle_number-Decodes}

open_numbers : ℕ
unfolding minus wrap is_negative exponent_100 digits_end digit_value bad_digit read_magnitude
    scale_magnitude with_sign digit_bytes scaled_integer try_decode_oracle_integer exponent_digits
    exponent_value signed_exponent parse_exponent floor_divide_by_two scan_digits
    without_leading_zeros without_last pairs_of groups_of group_byte group_bytes exponent_byte
    number_bytes encode_digits encode_placed encode_scanned encode_signed encode_oracle_number
    read_groups first_digits pair_digits placed has_point trimmed number_text decode_oracle_number
open_numbers = 0

-- -12.5
abbrev minus_twelve_and_half : List ℕ
minus_twelve_and_half = 45 ∷ 49 ∷ 50 ∷ 46 ∷ 53 ∷ []

encodes_negative : encode_oracle_number minus_twelve_and_half ≡ ok (62 ∷ 89 ∷ 51 ∷ 102 ∷ [])
unfolding open_numbers
encodes_negative = refl

decodes_negative : decode_oracle_number (62 ∷ 89 ∷ 51 ∷ 102 ∷ []) ≡ ok minus_twelve_and_half
unfolding open_numbers
decodes_negative = refl

-- 1e3
encodes_exponent : encode_oracle_number (49 ∷ 101 ∷ 51 ∷ []) ≡ ok (194 ∷ 11 ∷ [])
unfolding open_numbers
encodes_exponent = refl

decodes_thousand : decode_oracle_number (194 ∷ 11 ∷ []) ≡ ok (49 ∷ 48 ∷ 48 ∷ 48 ∷ [])
unfolding open_numbers
decodes_thousand = refl

-- 0.05
decodes_fraction : decode_oracle_number (192 ∷ 6 ∷ []) ≡ ok (48 ∷ 46 ∷ 48 ∷ 53 ∷ [])
unfolding open_numbers
decodes_fraction = refl

two_points : encode_oracle_number (49 ∷ 46 ∷ 46 ∷ []) ≡ err malformed
unfolding open_numbers
two_points = refl

abbrev minus_1234 : List ℕ
minus_1234 = 61 ∷ 89 ∷ 67 ∷ 102 ∷ []

decodes_integer : try_decode_oracle_integer minus_1234 ≡ some (negsuc 1233)
unfolding open_numbers
decodes_integer = refl

no_integer : try_decode_oracle_integer (62 ∷ 89 ∷ 51 ∷ 102 ∷ []) ≡ none
unfolding open_numbers
no_integer = refl

try_decode_oracle_integer-exact_example : try_decode_oracle_integer minus_1234 ≡ (
    if is_whole minus_1234 && fits (is_negative minus_1234) (exact_magnitude minus_1234)
    then some (signed (is_negative minus_1234) (exact_magnitude minus_1234))
    else none)
unfolding open_numbers
try_decode_oracle_integer-exact_example =
    try_decode_oracle_integer-exact minus_1234 (omega arith) (omega arith) (omega arith)
      (ground arith)

decode-number_bytes_example :
    (wire : List ℕ) × (number_bytes true (pos 0) (12 ∷ 50 ∷ []) ≡ ok wire)
    × (length wire ≤ 21)
    × (decode_oracle_number wire ≡ ok (number_text true (pos 0) (12 ∷ 50 ∷ [])))
unfolding last_nonzero
decode-number_bytes_example =
    decode-number_bytes true (pos 0) 12 (50 ∷ []) (omega arith, omega arith)
      (omega arith, (omega arith, tt)) refl (omega arith)

encode_oracle_number-Decodes_example : Ends Decodes (encode_oracle_number minus_twelve_and_half)
encode_oracle_number-Decodes_example = encode_oracle_number-Decodes minus_twelve_and_half

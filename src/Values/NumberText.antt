-- ===== src/Values/NumberText.antt =====
-- `DecodeOracleNumber` of src/value_codec.cpp: a NUMBER as decimal text.
use quack_oracle.Base.{
  ℕ, ◌+◌, ◌-◌, ◌/◌, ◌%◌, Bool, false, not, ◌&&◌, ◌||◌, List, [], ◌∷◌, ◌++◌, ltb, ◌==◌,
  if◌then◌else◌, length, take, drop, replicate, get_or, Result, ok, err, ◌>>=◌, ◌>>◌, throw_if,
  malformed,
}
use quack_oracle.Base.Int.{ℤ, pos, pos_part, neg_part, ◌+ℤ◌, ◌*ℤ◌, ltb_ℤ, -ℤ_of}
use quack_oracle.Values.Integer.{
  zero_byte, is_negative, exponent_100, digits_end, digit_value, bad_digit, is_last, digit_bytes,
}
use quack_oracle.Values.Number.{without_last}

-- The loop over the mantissa.
unfoldable pub read_groups : Bool → List ℕ → Result (List ℕ)
read_groups negative [] = ok []
read_groups negative (byte ∷ bytes) =
    let value = digit_value negative byte in
    (do
      throw_if (bad_digit value (is_last bytes)) malformed
      groups ← read_groups negative bytes
      ok (pos_part value ∷ groups))

-- `std::to_string(groups[0])` of a group.
unfoldable pub first_digits : ℕ → List ℕ
first_digits g = if ltb g 10 then (48 + g) ∷ [] else (48 + g / 10) ∷ (48 + g % 10) ∷ []

unfoldable pub pair_digits : List ℕ → List ℕ
pair_digits [] = []
pair_digits (g ∷ gs) = (48 + g / 10) ∷ (48 + g % 10) ∷ pair_digits gs

-- The digits with the point, or with zeros on one side.
unfoldable pub placed : ℤ → List ℕ → List ℕ
placed place digits =
    if not (ltb_ℤ (pos 0) place)
    then 48 ∷ 46 ∷ replicate (neg_part place) 48 ++ digits
    else if not (ltb (pos_part place) (length digits))
    then digits ++ replicate (pos_part place - length digits) 48
    else take (pos_part place) digits ++ 46 ∷ drop (pos_part place) digits

unfoldable pub has_point : List ℕ → Bool
has_point [] = false
has_point (c ∷ cs) = c == 46 || has_point cs

-- Zeros behind the point go, and then the point if it is last.
abbrev pub drop_point : List ℕ → List ℕ
drop_point text =
    if get_or text (length text - 1) 0 == 46 then take (length text - 1) text else text

unfoldable pub trimmed : List ℕ → List ℕ
trimmed text = if has_point text then drop_point (without_last 48 text) else text

unfoldable pub number_text : Bool → ℤ → List ℕ → List ℕ
number_text negative exponent [] = []
number_text negative exponent (g ∷ gs) =
    let first = first_digits g in
    let text = trimmed (placed (pos (length first) +ℤ exponent *ℤ 2) (first ++ pair_digits gs)) in
    if negative then 45 ∷ text else text

-- `DecodeOracleNumber`
unfoldable pub decode_oracle_number : List ℕ → Result (List ℕ)
decode_oracle_number wire =
    if length wire == 0 || ltb 21 (length wire)
    then err malformed
    else if length wire == 1 && get_or wire 0 0 == zero_byte
    then ok (48 ∷ [])
    else if ltb_ℤ (exponent_100 wire) (-ℤ_of 65)
        || ltb_ℤ (pos 62) (exponent_100 wire)
        || length wire == 1
    then err malformed
    else if digits_end wire == 1
    then err malformed
    else read_groups (is_negative wire) (digit_bytes wire) >>= λ groups.
        ok (number_text (is_negative wire) (exponent_100 wire) groups)

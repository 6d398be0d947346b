-- ===== src/Values/Integer.antt =====
-- `TryDecodeOracleInteger` of src/value_codec.cpp: a NUMBER that is a 64-bit integer, without its text.
-- The unsigned products stay below their bound, so that nothing wraps.
use quack_oracle.Base.{
  ℕ, zero, suc, ◌+◌, ◌-◌, ◌*◌, ◌/◌, ◌^◌, Bool, true, false, not, ◌&&◌, ◌||◌, Option, none, some,
  List, [], ◌∷◌, ltb, ◌==◌, if◌then◌else◌, length, take, drop, get_or,
}
use quack_oracle.Base.Int.{ℤ, pos, pos_part, ◌-ℤ◌, ltb_ℤ, -ℤ_of}

abbrev pub zero_byte : ℕ
zero_byte = 0x80

-- `1 << 63`
abbrev pub limit : ℕ
limit = 2 ^ 63

unfoldable pub is_negative : List ℕ → Bool
is_negative wire = ltb (get_or wire 0 0) 0x80

-- The power of 100 of the first digit.
unfoldable pub exponent_100 : List ℕ → ℤ
exponent_100 wire =
    if is_negative wire then pos 62 -ℤ pos (get_or wire 0 0) else pos (get_or wire 0 0) -ℤ pos 193

-- The end of the digits: a negative value may end with a byte of 102.
unfoldable pub digits_end : List ℕ → ℕ
digits_end wire =
    if is_negative wire && get_or wire (length wire - 1) 0 == 102
    then length wire - 1
    else length wire

-- A byte as a base-100 digit.
unfoldable pub digit_value : Bool → ℕ → ℤ
digit_value true byte = pos 101 -ℤ pos byte
digit_value false byte = pos byte -ℤ pos 1

abbrev pub is_last : List ℕ → Bool
is_last [] = true
is_last (b ∷ bs) = false

-- `value < 0 || value > 99 || (index + 1 == end && value == 0)`
unfoldable pub bad_digit : ℤ → Bool → Bool
bad_digit value last =
    ltb_ℤ value (pos 0) || ltb_ℤ (pos 99) value || (last && not (ltb_ℤ (pos 0) value))

-- The loop over the digits.
unfoldable pub read_magnitude : Bool → ℕ → List ℕ → Option ℕ
read_magnitude negative magnitude [] = some magnitude
read_magnitude negative magnitude (byte ∷ bytes) =
    let value = digit_value negative byte in
    let rest = read_magnitude negative (magnitude * 100 + pos_part value) bytes in
    if bad_digit value (is_last bytes)
    then none
    else if ltb ((limit - pos_part value) / 100) magnitude
    then none
    else rest

-- The loop that scales by the exponent, with the rounds left.
unfoldable pub scale_magnitude : ℕ → ℕ → Option ℕ
scale_magnitude zero magnitude = some magnitude
scale_magnitude (suc left) magnitude =
    let rest = scale_magnitude left (magnitude * 100) in
    if ltb (limit / 100) magnitude then none else rest

-- The sign: 2^63 is there for negative values only.
unfoldable pub with_sign : Bool → ℕ → Option ℤ
with_sign true magnitude = some (-ℤ_of magnitude)
with_sign false magnitude = if magnitude == limit then none else some (pos magnitude)

abbrev pub and_then : {A B : Type 0} → Option A → (A → Option B) → Option B
and_then none f = none
and_then (some a) f = f a

-- The digits' bytes.
unfoldable pub digit_bytes : List ℕ → List ℕ
digit_bytes wire = take (digits_end wire - 1) (drop 1 wire)

-- The value of a wire form whose sizes are right.
unfoldable pub scaled_integer : List ℕ → Option ℤ
scaled_integer wire =
    let digit_count = digits_end wire - 1 in
    if ltb_ℤ (exponent_100 wire) (pos digit_count -ℤ pos 1)
    then none
    else and_then (read_magnitude (is_negative wire) 0 (digit_bytes wire)) λ magnitude.
      and_then (scale_magnitude (pos_part (exponent_100 wire) - (digit_count - 1)) magnitude)
        (with_sign (is_negative wire))

-- `TryDecodeOracleInteger`
unfoldable pub try_decode_oracle_integer : List ℕ → Option ℤ
try_decode_oracle_integer wire =
    if length wire == 0 || ltb 21 (length wire)
    then none
    else if length wire == 1 && get_or wire 0 0 == zero_byte
    then some (pos 0)
    else if ltb_ℤ (exponent_100 wire) (-ℤ_of 65)
        || ltb_ℤ (pos 62) (exponent_100 wire)
        || length wire == 1
    then none
    else if digits_end wire == 1
    then none
    else scaled_integer wire

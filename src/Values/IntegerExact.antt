-- ===== src/Values/IntegerExact.antt =====
-- What `TryDecodeOracleInteger` of src/value_codec.cpp returns, against the exact value of a NUMBER.
use quack_oracle.Base.{
  ℕ, zero, suc, ◌+◌, ◌-◌, ◌*◌, ◌/◌, ◌^◌, ◌≤◌, ◌<◌, ◌≡◌, ◌≢◌, ◌↔◌, refl, Bool, true, false, not,
  ◌&&◌, ◌||◌, Bool-cases, none, some, List, [], ◌∷◌, ltb, leb, ◌==◌, if◌then◌else◌, length, get_or,
  inl, inr, arith,
}
use quack_oracle.Base.Int.{ℤ, pos, pos_part, minus, ◌-ℤ◌, ltb_ℤ, -ℤ_of}
use native.Mathlib.Nat.{pow-suc, one-le-pow}
use quack_oracle.Values.Integer.{
  is_negative, exponent_100, digits_end, digit_bytes, scaled_integer, try_decode_oracle_integer,
  limit, digit_value, is_last, bad_digit, read_magnitude, scale_magnitude, with_sign, and_then,
}

-- The digits are all from 0 to 99, the last is not 0.
unfoldable pub valid_digits : Bool → List ℕ → Bool
valid_digits negative [] = true
valid_digits negative (byte ∷ bytes) =
    not (bad_digit (digit_value negative byte) (is_last bytes)) && valid_digits negative bytes

-- The number that base-100 digits stand for, behind others.
unfoldable pub joined : Bool → ℕ → List ℕ → ℕ
joined negative before [] = before
joined negative before (byte ∷ bytes) =
    joined negative (before * 100 + pos_part (digit_value negative byte)) bytes

joined-grows :
    (negative : Bool) (before : ℕ) (bytes : List ℕ) → before ≤ joined negative before bytes
unfolding joined
joined-grows negative before [] = omega arith
joined-grows negative before (byte ∷ bytes) =
    omega (arith, joined-grows negative (before * 100 + pos_part (digit_value negative byte)) bytes)

digit_small :
    (negative : Bool) (byte : ℕ) (last : Bool)
    → bad_digit (digit_value negative byte) last ≡ false
    → pos_part (digit_value negative byte) ≤ 99
unfolding bad_digit
digit_small negative byte last h = ground (arith, h)

room :
    (value magnitude : ℕ)
    → value ≤ 99
    → (ltb ((limit - value) / 100) magnitude ≡ false) ↔ (magnitude * 100 + value ≤ limit)
room value magnitude h = ground arith

-- The loop succeeds exactly where the digits are right and the number is within the bound.
read_magnitude-joined :
    (negative : Bool) (magnitude : ℕ) (bytes : List ℕ)
    → magnitude ≤ limit
    → read_magnitude negative magnitude bytes ≡ (
        if valid_digits negative bytes && leb (joined negative magnitude bytes) limit
        then some (joined negative magnitude bytes)
        else none)
unfolding read_magnitude valid_digits joined
read_magnitude-joined negative magnitude [] h = ground arith
read_magnitude-joined negative magnitude (byte ∷ bytes) h =
    let value = pos_part (digit_value negative byte) in
    elim (Bool-cases (bad_digit (digit_value negative byte) (is_last bytes))) [
      | inl b ↦ rw b refl
      | inr b ↦ rw b (elim (Bool-cases (ltb ((limit - value) / 100) magnitude)) [
        | inl f ↦ ground (
          arith,
          f,
          room value magnitude (digit_small negative byte _ b),
          joined-grows negative (magnitude * 100 + value) bytes,
        )
        | inr f ↦ rw f (
            read_magnitude-joined negative (magnitude * 100 + value) bytes
              (ground (arith, f, room value magnitude (digit_small negative byte _ b))))
      ])
    ]

shift : (m P : ℕ) → m * (P * 100) ≡ m * 100 * P
shift m P = grind arith

times_grows : (a P : ℕ) → 0 < P → a ≤ a * P
times_grows a P h = grind arith

scale_magnitude-power :
    (left magnitude : ℕ)
    → magnitude ≤ limit
    → scale_magnitude left magnitude
      ≡ (if leb (magnitude * 100 ^ left) limit then some (magnitude * 100 ^ left) else none)
unfolding scale_magnitude
scale_magnitude-power zero magnitude h = ground arith
scale_magnitude-power (suc left) magnitude h =
    let power : magnitude * 100 ^ suc left ≡ magnitude * 100 * 100 ^ left =
      rw pow-suc (shift magnitude (100 ^ left)) in
    elim (Bool-cases (ltb (limit / 100) magnitude)) [
      | inl f ↦ ground (
        arith,
        f,
        power,
        times_grows (magnitude * 100) (100 ^ left) (one-le-pow left 100 (omega arith)),
      )
      | inr f ↦ rw (f, power) (scale_magnitude-power left (magnitude * 100) (ground (arith, f)))
    ]

-- The exponent of any first byte is in range.
exponent_range :
    (wire : List ℕ)
    → get_or wire 0 0 < 256
    → (ltb_ℤ (exponent_100 wire) (-ℤ_of 65) || ltb_ℤ (pos 62) (exponent_100 wire)) ≡ false
unfolding exponent_100 is_negative minus
exponent_range wire b = ground (arith, b)

-- The magnitude that a NUMBER stands for, when it is whole.
unfoldable pub exact_magnitude : List ℕ → ℕ
exact_magnitude wire =
    joined (is_negative wire) 0 (digit_bytes wire)
    * 100 ^ (pos_part (exponent_100 wire) - (digits_end wire - 1 - 1))

-- The last digit is not below the units, and the digits are right.
unfoldable pub is_whole : List ℕ → Bool
is_whole wire =
    not (ltb_ℤ (exponent_100 wire) (pos (digits_end wire - 1) -ℤ pos 1))
    && valid_digits (is_negative wire) (digit_bytes wire)

-- The range of int64_t.
abbrev pub fits : Bool → ℕ → Bool
fits true magnitude = leb magnitude limit
fits false magnitude = ltb magnitude limit

abbrev pub signed : Bool → ℕ → ℤ
signed true magnitude = -ℤ_of magnitude
signed false magnitude = pos magnitude

with_sign-fits :
    (negative : Bool) (m : ℕ)
    → m ≤ limit
    → with_sign negative m ≡ (if fits negative m then some (signed negative m) else none)
unfolding with_sign
with_sign-fits true m h = ground (arith, h)
with_sign-fits false m h = ground (arith, h)

too_big :
    (negative : Bool) (m : ℕ)
    → leb m limit ≡ false
    → none ≡ (if fits negative m then some (signed negative m) else none)
too_big true m e = ground (arith, e)
too_big false m e = ground (arith, e)

scaled_then_signed :
    (negative : Bool) (left m : ℕ)
    → m ≤ limit
    → and_then (scale_magnitude left m) (with_sign negative)
      ≡ (if fits negative (m * 100 ^ left) then some (signed negative (m * 100 ^ left)) else none)
scaled_then_signed negative left m h = elim (Bool-cases (leb (m * 100 ^ left) limit)) [
  | inl e ↦
      rw (scale_magnitude-power left m h, e)
        (with_sign-fits negative (m * 100 ^ left) (ground (arith, e)))
  | inr e ↦ rw (scale_magnitude-power left m h, e) (too_big negative (m * 100 ^ left) e)
]

read_then_signed :
    (negative : Bool) (left : ℕ) (bytes : List ℕ)
    → let magnitude = joined negative 0 bytes * 100 ^ left in
      and_then
        (read_magnitude negative 0 bytes)
        (λ m. and_then (scale_magnitude left m) (with_sign negative))
      ≡ (if valid_digits negative bytes && fits negative magnitude
          then some (signed negative magnitude)
          else none)
read_then_signed negative left bytes =
    let m = joined negative 0 bytes in
    let read = read_magnitude-joined negative 0 bytes (omega arith) in
    elim (Bool-cases (valid_digits negative bytes)) [
      | inr v ↦ rw (read, v) refl
      | inl v ↦ elim (Bool-cases (leb m limit)) [
        | inl e ↦ rw (read, v, e) (scaled_then_signed negative left m (ground (arith, e)))
        | inr e ↦
            rw (read, v, e)
              (too_big negative (m * 100 ^ left)
                (ground (arith, e, times_grows m (100 ^ left) (one-le-pow left 100 (omega arith)))))
      ]
    ]

scaled_integer-exact :
    (wire : List ℕ)
    → scaled_integer wire ≡ (
        if is_whole wire && fits (is_negative wire) (exact_magnitude wire)
        then some (signed (is_negative wire) (exact_magnitude wire))
        else none)
unfolding scaled_integer is_whole exact_magnitude
scaled_integer-exact wire =
    elim (Bool-cases (ltb_ℤ (exponent_100 wire) (pos (digits_end wire - 1) -ℤ pos 1))) [
      | inl e ↦ rw e refl
      | inr e ↦ rw e (read_then_signed (is_negative wire) _ (digit_bytes wire))
    ]

-- A NUMBER of 2 to 21 bytes with a digit is decoded as an integer exactly when it is whole, its digits
-- are valid and it is in the range of int64_t, and then as its exact value: no product on the way
-- overflows or refuses a value that fits.
pub try_decode_oracle_integer-exact :
    (wire : List ℕ)
    → 2 ≤ length wire
    → length wire ≤ 21
    → get_or wire 0 0 < 256
    → digits_end wire ≢ 1
    → try_decode_oracle_integer wire ≡ (
        if is_whole wire && fits (is_negative wire) (exact_magnitude wire)
        then some (signed (is_negative wire) (exact_magnitude wire))
        else none)
unfolding try_decode_oracle_integer
try_decode_oracle_integer-exact wire h l b d =
    let range : (ltb_ℤ (exponent_100 wire) (-ℤ_of 65) || ltb_ℤ (pos 62) (exponent_100 wire))
        ≡ false =
      exponent_range wire b in
    let sized : (length wire == 0 || ltb 21 (length wire)) ≡ false = ground (arith, h, l) in
    let long : (length wire == 1) ≡ false = ground (arith, h) in
    let some_digit : (digits_end wire == 1) ≡ false = ground (arith, d) in
    rw (sized, long, range, some_digit) (scaled_integer-exact wire)

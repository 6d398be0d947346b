-- ===== src/Values/Number.antt =====
-- NUMBER of src/value_codec.cpp as text: `EncodeOracleNumber` and `DecodeOracleNumber`. A text is its
-- bytes.
use quack_oracle.Base.{
  ℕ, ◌+◌, ◌-◌, ◌*◌, ◌%◌, Bool, true, false, not, ◌&&◌, ◌||◌, Option, none, some, List, [], ◌∷◌,
  ◌++◌, ltb, leb, ◌==◌, if◌then◌else◌, length, Result, ok, err, ◌>>=◌, ◌>>◌, throw_if, malformed,
  limit_exceeded,
}
use quack_oracle.Base.Int.{ℤ, pos, pos_part, ◌+ℤ◌, ◌-ℤ◌, ◌*ℤ◌, ◌/ℤ◌, ltb_ℤ, -ℤ_of, wrap}
use quack_oracle.Values.Integer.{zero_byte}

abbrev pub is_digit : ℕ → Bool
is_digit c = leb 48 c && leb c 57

-- e or E
abbrev pub is_exponent : ℕ → Bool
is_exponent c = c == 101 || c == 69

-- The loop over the digits of an exponent, to the end of the text.
unfoldable pub exponent_digits : ℕ → List ℕ → Result ℕ
exponent_digits result [] = ok result
exponent_digits result (c ∷ cs) =
    let rest = exponent_digits (result * 10 + (c - 48)) cs in
    if not (is_digit c)
    then err malformed
    else if ltb 100000 result
    then err limit_exceeded
    else rest

-- `-result` for a negative exponent.
abbrev pub negated : Bool → ℕ → ℤ
negated true n = -ℤ_of n
negated false n = pos n

unfoldable pub exponent_value : Bool → List ℕ → Result ℤ
exponent_value negative [] = err malformed
exponent_value negative (c ∷ cs) =
    if is_digit c
    then (exponent_digits 0 (c ∷ cs) >>= λ n. ok (negated negative n))
    else err malformed

-- Behind the letter.
unfoldable pub signed_exponent : List ℕ → Result ℤ
signed_exponent [] = err malformed
signed_exponent (c ∷ cs) =
    if c == 43 || c == 45 then exponent_value (c == 45) cs else exponent_value false (c ∷ cs)

-- `ParseExponent`, of what is left of the text.
unfoldable pub parse_exponent : List ℕ → Result ℤ
parse_exponent [] = ok (pos 0)
parse_exponent (c ∷ cs) = if is_exponent c then signed_exponent cs else err malformed

-- `FloorDivideByTwo`
unfoldable pub floor_divide_by_two : ℤ → ℤ
floor_divide_by_two value =
    if ltb_ℤ value (pos 0) then pos 0 -ℤ ((pos 0 -ℤ value +ℤ pos 1) /ℤ 2) else value /ℤ 2

-- The digits of a text, where its point stands among them, and what is left.
pub record Scanned : Type 0 where
  pub digits : List ℕ
  pub point : Option ℕ
  pub rest : List ℕ

-- The loop up to an exponent or the end.
unfoldable pub scan_digits : List ℕ → Option ℕ → List ℕ → Result Scanned
scan_digits digits point [] = ok (record { digits = digits; point = point; rest = [] })
scan_digits digits point (c ∷ cs) =
    let at_point = scan_digits digits (some (length digits)) cs in
    let at_digit = scan_digits (digits ++ c ∷ []) point cs in
    if is_exponent c
    then ok (record { digits = digits; point = point; rest = c ∷ cs })
    else if c == 46
    then elim point [ none ↦ at_point | some p ↦ err malformed ]
    else if is_digit c
    then at_digit
    else err malformed

unfoldable pub without_leading_zeros : List ℕ → List ℕ
without_leading_zeros [] = []
without_leading_zeros (c ∷ cs) =
    let rest = without_leading_zeros cs in if c == 48 then rest else c ∷ cs

-- `while (!x.empty() && x.back() == value) x.pop_back();`
unfoldable pub without_last : ℕ → List ℕ → List ℕ
without_last value [] = []
without_last value (c ∷ cs) = elim (without_last value cs) [
  | [] ↦ if c == value then [] else c ∷ []
  | d ∷ ds ↦ c ∷ d ∷ ds
]

-- The loop that pairs the digits up; a single one at the end stands for tens.
unfoldable pub pairs_of : List ℕ → List ℕ
pairs_of [] = []
pairs_of (d ∷ []) = (d - 48) * 10 ∷ []
pairs_of (d ∷ e ∷ ds) = ((d - 48) * 10 + (e - 48)) ∷ pairs_of ds

-- With the width of the first group, 1 or 2.
unfoldable pub groups_of : ℕ → List ℕ → List ℕ
unfolding pairs_of
groups_of width [] = []
groups_of width (d ∷ ds) = if width == 2 then pairs_of (d ∷ ds) else (d - 48) ∷ pairs_of ds

-- `negative ? 101 - group : group + 1`, as a byte.
unfoldable pub group_byte : Bool → ℕ → ℕ
group_byte true group = wrap 256 (pos 101 -ℤ pos group)
group_byte false group = (group + 1) % 256

unfoldable pub group_bytes : Bool → List ℕ → List ℕ
group_bytes negative [] = []
group_bytes negative (g ∷ gs) = group_byte negative g ∷ group_bytes negative gs

unfoldable pub exponent_byte : Bool → ℤ → ℕ
exponent_byte true exponent = wrap 256 (pos 62 -ℤ exponent)
exponent_byte false exponent = wrap 256 (exponent +ℤ pos 193)

-- A negative value that is not full ends with 102.
abbrev pub terminator : Bool → ℕ → List ℕ
terminator negative size = if negative && ltb size 21 then 102 ∷ [] else []

unfoldable pub number_bytes : Bool → ℤ → List ℕ → Result (List ℕ)
number_bytes negative exponent groups = do
  throw_if (length groups == 0 || ltb 20 (length groups)) limit_exceeded
  ok (
      exponent_byte negative exponent ∷ group_bytes negative groups
      ++ terminator negative (length groups + 1))

-- The digits without zeros around them, and the place of the point from the first.
unfoldable pub encode_digits : Bool → List ℕ → ℤ → Result (List ℕ)
encode_digits negative digits decimal_position =
    let highest = decimal_position -ℤ pos 1 in
    let exponent = floor_divide_by_two highest in
    let width = pos_part (highest -ℤ exponent *ℤ 2 +ℤ pos 1) in
    (do
      throw_if (ltb_ℤ exponent (-ℤ_of 65) || ltb_ℤ (pos 62) exponent) limit_exceeded
      number_bytes negative exponent (without_last 0 (groups_of width digits)))

-- `decimal_position = digits.size()` where there is no point.
abbrev pub point_of : Scanned → ℕ
point_of s = elim s.point [ none ↦ length s.digits | some p ↦ p ]

-- The digits without zeros around them; 0 has a form of its own.
unfoldable pub encode_placed : Bool → Scanned → ℤ → Result (List ℕ)
encode_placed negative s exponent =
    let nonzero = without_leading_zeros s.digits in
    let place = pos (point_of s) +ℤ exponent -ℤ pos (length s.digits - length nonzero) in
    if length nonzero == 0
    then ok (zero_byte ∷ [])
    else encode_digits negative (without_last 48 nonzero) place

unfoldable pub encode_scanned : Bool → Scanned → Result (List ℕ)
encode_scanned negative s =
    throw_if (length s.digits == 0) malformed
    >> (parse_exponent s.rest >>= encode_placed negative s)

-- The sign in front.
unfoldable pub encode_signed : List ℕ → Result (List ℕ)
encode_signed [] = err malformed
encode_signed (c ∷ cs) =
    if c == 43 || c == 45
    then (scan_digits [] none cs >>= encode_scanned (c == 45))
    else (scan_digits [] none (c ∷ cs) >>= encode_scanned false)

-- `EncodeOracleNumber`
unfoldable pub encode_oracle_number : List ℕ → Result (List ℕ)
encode_oracle_number decimal = do
  throw_if (ltb 256 (length decimal)) limit_exceeded
  encode_signed decimal

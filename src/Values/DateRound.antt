-- ===== src/Values/DateRound.antt =====
-- Round trips of DATE and TIMESTAMP of src/value_codec.cpp.
use quack_oracle.Base.{
  ℕ, ◌+◌, ◌-◌, ◌/◌, ◌%◌, ◌≤◌, ◌<◌, ◌≡◌, refl, ap, ◌∙◌, false, Bool-cases, inl, inr, ◌||◌, List, [],
  ◌∷◌, ◌==◌, length, get_or, get_or_bound, ok, arith, AreBytes,
}
use quack_oracle.Base.Int.{
  ℤ, pos, pos_part, neg_part, ◌+ℤ◌, ◌-ℤ◌, ◌*ℤ◌, ◌/ℤ◌, ltb_ℤ, -ℤ_of, wrap, minus_parts, wrap-IsByte,
  pos-wrap, +ℤ_parts, -ℤ_parts, *ℤ_parts, /ℤ_parts, add-sub, split_back,
}
use native.Mathlib.Nat.{div-add-mod, mod-lt}
use quack_oracle.Values.Date.{
  OracleDateTime, bad_fields, bad_offset, validate_date_time, days_in_month, date_bytes,
  encode_oracle_date, date_fields, decode_oracle_date,
}

two_parts :
    (u v c y : ℤ) (m k j : ℕ)
    → u ≡ c +ℤ pos k
    → v ≡ y -ℤ c *ℤ m +ℤ pos j
    → (u -ℤ pos k) *ℤ m +ℤ v -ℤ pos j ≡ y
two_parts u v c y m k j e f =
    ap (λ t. (t -ℤ pos k) *ℤ m +ℤ v -ℤ pos j) e
    ∙ ap (λ t. t *ℤ m +ℤ v -ℤ pos j) (add-sub c k)
    ∙ ap (λ t. c *ℤ m +ℤ t -ℤ pos j) f
    ∙ split_back c y m j

-- What is left of a number by a truncating quotient is small.
rest_small :
    (y : ℤ) (m : ℕ) → 0 < m → (pos_part (y -ℤ y /ℤ m *ℤ m) < m) × (neg_part (y -ℤ y /ℤ m *ℤ m) < m)
rest_small y m h =
    let p = div-add-mod (pos_part y) m in
    let n = div-add-mod (neg_part y) m in
    let a = mod-lt (pos_part y) h in
    let b = mod-lt (neg_part y) h in
    grind (arith, p, n, a, b, -ℤ_parts y (y /ℤ m *ℤ m), *ℤ_parts (y /ℤ m) m, /ℤ_parts y m)

-- A quotient and a remainder, each sent as a byte with an offset, give the number back.
pub quotient_back :
    (y : ℤ) (m k j : ℕ)
    → 0 < m
    → neg_part y / m ≤ k
    → pos_part y / m + k < 256
    → m ≤ j
    → m + j ≤ 256
    → let q = y /ℤ m in
      (pos (wrap 256 (q +ℤ pos k)) -ℤ pos k) *ℤ m +ℤ pos (wrap 256 (y -ℤ q *ℤ m +ℤ pos j)) -ℤ pos j
      ≡ y
quotient_back y m k j hm low high hj small =
    let rest = rest_small y m hm in
    two_parts _ _ (y /ℤ m) y m k j
      (pos-wrap 256 (y /ℤ m +ℤ pos k) (omega (arith, +ℤ_parts (y /ℤ m) (pos k), /ℤ_parts y m))
        (omega (arith, +ℤ_parts (y /ℤ m) (pos k), /ℤ_parts y m)))
      (pos-wrap 256 (y -ℤ y /ℤ m *ℤ m +ℤ pos j)
        (omega (arith, rest, +ℤ_parts (y -ℤ y /ℤ m *ℤ m) (pos j)))
        (omega (arith, rest, +ℤ_parts (y -ℤ y /ℤ m *ℤ m) (pos j))))

-- What the first test lets through.
pub record GoodFields (v : OracleDateTime) : Type 0 where
  pub low : ltb_ℤ v.year (-ℤ_of 4712) ≡ false
  pub high : ltb_ℤ (pos 9999) v.year ≡ false
  pub months : 1 ≤ v.month × v.month ≤ 12
  pub days : 1 ≤ v.day × v.day ≤ days_in_month v.year v.month
  pub hours : v.hour ≤ 23
  pub minutes : v.minute ≤ 59
  pub seconds : v.second ≤ 59
  pub nanoseconds : v.nanosecond < 1000000000

pub bad_fields-GoodFields : (v : OracleDateTime) → bad_fields v ≡ false → GoodFields v
unfolding bad_fields
bad_fields-GoodFields v h = ground (arith, h)

pub GoodFields-bad_fields : (v : OracleDateTime) → GoodFields v → bad_fields v ≡ false
unfolding bad_fields
GoodFields-bad_fields v g =
    ground (arith, g.low, g.high, g.months, g.days, g.hours, g.minutes, g.seconds, g.nanoseconds)

days_in_month_bound : (year : ℤ) (month : ℕ) → days_in_month year month ≤ 31
unfolding days_in_month
days_in_month_bound year month = ground (
  arith,
  get_or_bound 31 (31 ∷ 28 ∷ 31 ∷ 30 ∷ 31 ∷ 30 ∷ 31 ∷ 31 ∷ 30 ∷ 31 ∷ 30 ∷ 31 ∷ []) (month - 1)
      (omega arith),
)

year_back :
    (y : ℤ)
    → ltb_ℤ y (-ℤ_of 4712) ≡ false
    → ltb_ℤ (pos 9999) y ≡ false
    → let century = y /ℤ 100 in
      (pos (wrap 256 (century +ℤ pos 100)) -ℤ pos 100) *ℤ 100
        +ℤ pos (wrap 256 (y -ℤ century *ℤ 100 +ℤ pos 100))
        -ℤ pos 100
      ≡ y
year_back y low high =
    quotient_back y 100 100 100 (omega arith) (ground (arith, low, minus_parts 0 4712))
      (ground (arith, high)) (omega arith) (omega arith)

-- The part of a value that DATE holds.
abbrev pub date_part : OracleDateTime → OracleDateTime
date_part v = record v { nanosecond = 0; offset_minutes = pos 0; has_offset = false }

date_fields-bytes : (v : OracleDateTime) → GoodFields v → date_fields (date_bytes v) ≡ date_part v
unfolding date_fields date_bytes
date_fields-bytes v g =
    let y = year_back v.year g.low g.high in
    let h : (v.hour + 1) % 256 - 1 ≡ v.hour = omega (arith, g.hours) in
    let m : (v.minute + 1) % 256 - 1 ≡ v.minute = omega (arith, g.minutes) in
    let s : (v.second + 1) % 256 - 1 ≡ v.second = omega (arith, g.seconds) in
    λ i. record {
      year = y i;
      month = v.month;
      day = v.day;
      hour = h i;
      minute = m i;
      second = s i;
      nanosecond = 0;
      offset_minutes = pos 0;
      has_offset = false;
    }

date_part-GoodFields : (v : OracleDateTime) → GoodFields v → GoodFields (date_part v)
date_part-GoodFields v g = record {
  low = g.low;
  high = g.high;
  months = g.months;
  days = g.days;
  hours = g.hours;
  minutes = g.minutes;
  seconds = g.seconds;
  nanoseconds = omega arith;
}

validate_date_part : (v : OracleDateTime) → GoodFields v → validate_date_time (date_part v) ≡ ok tt
unfolding validate_date_time bad_offset
validate_date_part v g = rw (GoodFields-bad_fields (date_part v) (date_part-GoodFields v g)) refl

pub date_bytes-AreBytes : (v : OracleDateTime) → GoodFields v → AreBytes (date_bytes v)
unfolding date_bytes
date_bytes-AreBytes v g = (
  wrap-IsByte _,
  (
    wrap-IsByte _,
    (
      omega (arith, g.months),
      (
        omega (arith, g.days, days_in_month_bound v.year v.month),
        (omega arith, (omega arith, (omega arith, tt))),
      ),
    ),
  ),
)

date_bytes_biased :
    (v : OracleDateTime)
    → GoodFields v
    → (length (date_bytes v) ≡ 7)
      × ((get_or (date_bytes v) 4 0 == 0
            || get_or (date_bytes v) 5 0 == 0
            || get_or (date_bytes v) 6 0 == 0)
          ≡ false)
unfolding date_bytes
date_bytes_biased v g = (refl, ground (arith, g.hours, g.minutes, g.seconds))

pub decode_date_bytes :
    (v : OracleDateTime) → GoodFields v → decode_oracle_date (date_bytes v) ≡ ok (date_part v)
unfolding decode_oracle_date
decode_date_bytes v g =
    rw
      (
        (date_bytes_biased v g).0,
        (date_bytes_biased v g).1,
        date_fields-bytes v g,
        validate_date_part v g,
      )
      refl

pub validate_date_time-GoodFields :
    (v : OracleDateTime) → validate_date_time v ≡ ok tt → GoodFields v
unfolding validate_date_time
validate_date_time-GoodFields v h = elim (Bool-cases (bad_fields v)) [
  | inl bad ↦ absurd (ground (arith, h, bad))
  | inr good ↦ bad_fields-GoodFields v good
]

pub validate_date_time-offset :
    (v : OracleDateTime) → validate_date_time v ≡ ok tt → bad_offset v ≡ false
unfolding validate_date_time
validate_date_time-offset v h = elim (Bool-cases (bad_offset v)) [
  | inl bad ↦ absurd (ground (arith, h, bad, bad_fields v))
  | inr good ↦ good
]

pub encode_date_bytes :
    (v : OracleDateTime) → validate_date_time v ≡ ok tt → encode_oracle_date v ≡ ok (date_bytes v)
unfolding encode_oracle_date
encode_date_bytes v h = rw h refl

-- A date whose fields are valid is encoded as seven bytes, which are decoded to its year, month, day,
-- hour, minute and second.
pub decode-encode_date :
    (v : OracleDateTime)
    → validate_date_time v ≡ ok tt
    → (wire : List ℕ) × (encode_oracle_date v ≡ ok wire)
      × AreBytes wire
      × (length wire ≡ 7)
      × (decode_oracle_date wire ≡ ok (date_part v))
decode-encode_date v h = (
  date_bytes v,
  encode_date_bytes v h,
  date_bytes-AreBytes v (validate_date_time-GoodFields v h),
  (date_bytes_biased v (validate_date_time-GoodFields v h)).0,
  decode_date_bytes v (validate_date_time-GoodFields v h),
)

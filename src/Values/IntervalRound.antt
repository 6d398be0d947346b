-- ===== src/Values/IntervalRound.antt =====
-- Round trips of the intervals of src/value_codec.cpp, and the values that are refused.
use quack_oracle.Base.{
  ℕ, ◌+◌, ◌*◌, ◌/◌, ◌%◌, ◌^◌, ◌≤◌, ◌<◌, ◌≡◌, refl, sym, subst, ap, ◌∙◌, Bool, false, Bool-cases,
  inl, inr, ◌&&◌, List, [], ◌∷◌, ◌++◌, length, get_or, ok, arith, AreBytes,
}
use quack_oracle.Base.Int.{
  ℤ, pos, negsuc, pos_part, neg_part, ◌+ℤ◌, ◌-ℤ◌, ◌*ℤ◌, wrap, minus_parts, wrap-IsByte, pos-wrap,
  +ℤ_parts, add-sub,
}
use native.Mathlib.Nat.{mod-lt}
use quack_oracle.Values.Interval.{
  put_big_endian, get_big_endian, read_offset_integer, out_of_range, read_interval_field,
  some_positive, some_negative, offset_integer_bytes, field_byte, encode_oracle_interval_year_month,
  decode_oracle_interval_year_month, encode_oracle_interval_day_second, time_of_day,
  decode_oracle_interval_day_second,
}

-- An int32_t.
abbrev pub FitsInt32 : ℤ → Type 0
FitsInt32 z = (pos_part z < 2 ^ 31) × (neg_part z ≤ 2 ^ 31)

big_endian_back :
    (n : ℕ)
    → n < 2 ^ 32
    → n / 2 ^ 24 % 256 * 2 ^ 24 + n / 2 ^ 16 % 256 * 2 ^ 16 + n / 2 ^ 8 % 256 * 2 ^ 8 + n % 256 ≡ n
big_endian_back n h = omega arith

wrap-bound : (m : ℕ) (z : ℤ) → 0 < m → wrap m z < m
unfolding wrap
wrap-bound m (pos n) h = mod-lt n h
wrap-bound m (negsuc n) h = omega arith

-- A number sent with an offset.
offset_back :
    (z : ℤ) (m k : ℕ) → neg_part z ≤ k → pos_part z + k < m → pos (wrap m (z +ℤ pos k)) -ℤ pos k ≡ z
offset_back z m k low high =
    ap (λ t. t -ℤ pos k)
      (pos-wrap m (z +ℤ pos k) (omega (arith, low, +ℤ_parts z (pos k)))
        (omega (arith, low, high, +ℤ_parts z (pos k))))
    ∙ add-sub z k

out_of_range-parts :
    (z : ℤ) (limit : ℕ) → out_of_range z limit ≡ false → (pos_part z ≤ limit) × (neg_part z ≤ limit)
unfolding out_of_range
out_of_range-parts z limit h = ground (arith, h, minus_parts 0 limit)

field_back :
    (z : ℤ) (limit : ℕ)
    → limit ≤ 60
    → out_of_range z limit ≡ false
    → read_interval_field (field_byte z) limit ≡ ok z
field_back z limit small h =
    let p = out_of_range-parts z limit h in
    let e = offset_back z 256 60 (omega (arith, p)) (omega (arith, p)) in rw (e, h) refl

module _ (years months : ℤ) where
  abbrev year_month_bytes : List ℕ
  year_month_bytes = offset_integer_bytes years ++ (field_byte months ∷ [])

  year_back : FitsInt32 years → read_offset_integer year_month_bytes 0 ≡ years
  unfolding put_big_endian get_big_endian
  year_back f =
      ap (λ (t : ℕ). pos t -ℤ pos (2 ^ 31))
        (big_endian_back _ (wrap-bound (2 ^ 32) (years +ℤ pos (2 ^ 31)) (omega arith)))
      ∙ offset_back years (2 ^ 32) (2 ^ 31) (omega (arith, f)) (omega (arith, f))

  abbrev year_month_mixed : Bool
  year_month_mixed = some_positive (years ∷ months ∷ []) && some_negative (years ∷ months ∷ [])

  encode_year_month_ok :
      (wire : List ℕ)
      → encode_oracle_interval_year_month years months ≡ ok wire
      → (out_of_range months 11 ≡ false) × (year_month_mixed ≡ false) × (wire ≡ year_month_bytes)
  unfolding encode_oracle_interval_year_month
  encode_year_month_ok wire e = elim (Bool-cases (out_of_range months 11)) [
    | inl bad ↦ absurd (ground (arith, e, bad))
    | inr good ↦ elim (Bool-cases year_month_mixed) [
      | inl mixed ↦ absurd (ground (arith, e, good, mixed))
      | inr one ↦ (good, one, ground (arith, e, good, one))
    ]
  ]

  year_month_bytes-AreBytes : AreBytes year_month_bytes
  unfolding put_big_endian
  year_month_bytes-AreBytes =
      (omega arith, (omega arith, (omega arith, (omega arith, (wrap-IsByte _, tt)))))

  year_month_bytes-month : get_or year_month_bytes 4 0 ≡ field_byte months
  unfolding put_big_endian
  year_month_bytes-month = refl

  year_month_bytes-length : length year_month_bytes ≡ 5
  unfolding put_big_endian
  year_month_bytes-length = refl

  abbrev pub YearMonthBytes : List ℕ → Type 0
  YearMonthBytes wire =
      AreBytes wire
      × (length wire ≡ 5)
      × (decode_oracle_interval_year_month wire ≡ ok (years *ℤ 12 +ℤ months))

  decode_year_month_bytes :
      FitsInt32 years
      → out_of_range months 11 ≡ false
      → year_month_mixed ≡ false
      → decode_oracle_interval_year_month year_month_bytes ≡ ok (years *ℤ 12 +ℤ months)
  unfolding decode_oracle_interval_year_month
  decode_year_month_bytes f good one =
      rw
        (
          year_month_bytes-length,
          year_month_bytes-month,
          field_back months 11 (omega arith) good,
          year_back f,
          one,
        )
        refl

  -- Whatever EncodeOracleIntervalYearMonth accepts of a year of 32 bits and a month, it writes in five
  -- bytes, which are decoded to their count of months.
  pub decode-encode_year_month :
      (wire : List ℕ)
      → FitsInt32 years
      → encode_oracle_interval_year_month years months ≡ ok wire
      → YearMonthBytes wire
  decode-encode_year_month wire f e =
      let (good, one, same) = encode_year_month_ok wire e in
      subst YearMonthBytes (sym same)
        (year_month_bytes-AreBytes, year_month_bytes-length, decode_year_month_bytes f good one)

module _ (days hours minutes seconds nanoseconds : ℤ) where
  abbrev day_second_bytes : List ℕ
  day_second_bytes =
      offset_integer_bytes days
      ++ (field_byte hours ∷ field_byte minutes ∷ field_byte seconds ∷ [])
      ++ offset_integer_bytes nanoseconds

  abbrev day_second_mixed : Bool
  day_second_mixed =
      some_positive (days ∷ hours ∷ minutes ∷ seconds ∷ nanoseconds ∷ [])
      && some_negative (days ∷ hours ∷ minutes ∷ seconds ∷ nanoseconds ∷ [])

  day_back :
      FitsInt32 days
      → (pos_part nanoseconds ≤ 999999999) × (neg_part nanoseconds ≤ 999999999)
      → (read_offset_integer day_second_bytes 0 ≡ days)
        × (read_offset_integer day_second_bytes 7 ≡ nanoseconds)
  unfolding put_big_endian get_big_endian
  day_back f g = (
    ap (λ (t : ℕ). pos t -ℤ pos (2 ^ 31))
          (big_endian_back _ (wrap-bound (2 ^ 32) (days +ℤ pos (2 ^ 31)) (omega arith)))
        ∙ offset_back days (2 ^ 32) (2 ^ 31) (omega (arith, f)) (omega (arith, f)),
    ap (λ (t : ℕ). pos t -ℤ pos (2 ^ 31))
          (big_endian_back _ (wrap-bound (2 ^ 32) (nanoseconds +ℤ pos (2 ^ 31)) (omega arith)))
        ∙ offset_back nanoseconds (2 ^ 32) (2 ^ 31) (omega (arith, g)) (omega (arith, g)),
  )

  encode_day_second_ok :
      (wire : List ℕ)
      → encode_oracle_interval_day_second days hours minutes seconds nanoseconds ≡ ok wire
      → (out_of_range hours 23 ≡ false)
        × (out_of_range minutes 59 ≡ false)
        × (out_of_range seconds 59 ≡ false)
        × (out_of_range nanoseconds 999999999 ≡ false)
        × (day_second_mixed ≡ false)
        × (wire ≡ day_second_bytes)
  unfolding encode_oracle_interval_day_second
  encode_day_second_ok wire e = elim (Bool-cases (out_of_range hours 23)) [
    | inl bad ↦ absurd (ground (arith, e, bad))
    | inr h ↦ elim (Bool-cases (out_of_range minutes 59)) [
      | inl bad ↦ absurd (ground (arith, e, h, bad))
      | inr m ↦ elim (Bool-cases (out_of_range seconds 59)) [
        | inl bad ↦ absurd (ground (arith, e, h, m, bad))
        | inr s ↦ elim (Bool-cases (out_of_range nanoseconds 999999999)) [
          | inl bad ↦ absurd (ground (arith, e, h, m, s, bad))
          | inr n ↦ elim (Bool-cases day_second_mixed) [
            | inl mixed ↦ absurd (ground (arith, e, h, m, s, n, mixed))
            | inr one ↦ (h, m, s, n, one, ground (arith, e, h, m, s, n, one))
          ]
        ]
      ]
    ]
  ]

  day_second_bytes_shape :
      AreBytes day_second_bytes
      × (length day_second_bytes ≡ 11)
      × (get_or day_second_bytes 4 0 ≡ field_byte hours)
      × (get_or day_second_bytes 5 0 ≡ field_byte minutes)
      × (get_or day_second_bytes 6 0 ≡ field_byte seconds)
  unfolding put_big_endian
  day_second_bytes_shape = (
    (
      omega arith,
      (
        omega arith,
        (
          omega arith,
          (
            omega arith,
            (
              wrap-IsByte _,
              (
                wrap-IsByte _,
                (wrap-IsByte _, (omega arith, (omega arith, (omega arith, (omega arith, tt))))),
              ),
            ),
          ),
        ),
      ),
    ),
    refl,
    refl,
    refl,
    refl,
  )

  abbrev pub DaySecondBytes : List ℕ → Type 0
  DaySecondBytes wire =
      AreBytes wire
      × (length wire ≡ 11)
      × (decode_oracle_interval_day_second wire
          ≡ ok
              (record { days = days; nanoseconds = time_of_day hours minutes seconds nanoseconds }))

  -- Whatever EncodeOracleIntervalDaySecond accepts of days of 32 bits and the other fields, it writes in
  -- eleven bytes, which are decoded to the days and the count of nanoseconds of the rest.
  pub decode-encode_day_second :
      (wire : List ℕ)
      → FitsInt32 days
      → encode_oracle_interval_day_second days hours minutes seconds nanoseconds ≡ ok wire
      → DaySecondBytes wire
  unfolding decode_oracle_interval_day_second
  decode-encode_day_second wire f e =
      let (h, m, s, n, one, same) = encode_day_second_ok wire e in
      let (d, r) = day_back f (out_of_range-parts nanoseconds 999999999 n) in
      let (bytes, size, b4, b5, b6) = day_second_bytes_shape in
      subst DaySecondBytes (sym same) (
        bytes,
        size,
        rw
            (
              size,
              b4,
              b5,
              b6,
              field_back hours 23 (omega arith) h,
              field_back minutes 59 (omega arith) m,
              field_back seconds 59 (omega arith) s,
              d,
              r,
              n,
              one,
            )
            refl,
      )

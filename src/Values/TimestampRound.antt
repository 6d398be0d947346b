-- ===== src/Values/TimestampRound.antt =====
-- Round trips of TIMESTAMP of src/value_codec.cpp, with and without a time zone's offset.
use quack_oracle.Base.{
  ℕ, ◌+◌, ◌*◌, ◌/◌, ◌%◌, ◌^◌, ◌≤◌, ◌<◌, ◌≡◌, refl, sym, ap, ◌∙◌, Bool, true, false, not, ◌&&◌, ◌||◌,
  List, [], ◌++◌, leb, ◌==◌, if◌then◌else◌, length, take, All-append, ok, arith, IsByte, AreBytes,
}
use quack_oracle.Base.Int.{
  ℤ, pos, pos_part, neg_part, ◌+ℤ◌, ◌-ℤ◌, ◌*ℤ◌, ◌/ℤ◌, wrap, minus_parts, wrap-IsByte, pos-wrap,
  +ℤ_parts, /ℤ_parts, add-sub_assoc,
}
use quack_oracle.Values.Date.{
  OracleDateTime, bad_fields, bad_offset, validate_date_time, date_bytes, nanosecond_bytes,
  offset_bytes, encode_oracle_timestamp, with_nanosecond, with_offset, decode_oracle_timestamp,
}
use quack_oracle.Values.DateRound.{
  quotient_back, GoodFields, validate_date_time-GoodFields, GoodFields-bad_fields, date_part,
  date_bytes-AreBytes, decode_date_bytes, encode_date_bytes, validate_date_time-offset,
}

nanosecond_back :
    (n : ℕ)
    → n < 1000000000
    → n / 2 ^ 24 % 256 * 2 ^ 24 + n / 2 ^ 16 % 256 * 2 ^ 16 + n / 2 ^ 8 % 256 * 2 ^ 8 + n % 256 ≡ n
nanosecond_back n h = omega arith

-- An offset that passes the test.
abbrev GoodOffset : ℤ → Type 0
GoodOffset z = (pos_part z ≤ 900) × (neg_part z ≤ 900)

hour_byte : (z : ℤ) → GoodOffset z → wrap 256 (z /ℤ 60 +ℤ pos 20) < 64
hour_byte z g =
    let e = ap pos_part (
      pos-wrap 256 (z /ℤ 60 +ℤ pos 20)
        (omega (arith, g, +ℤ_parts (z /ℤ 60) (pos 20), /ℤ_parts z 60))
        (omega (arith, g, +ℤ_parts (z /ℤ 60) (pos 20), /ℤ_parts z 60))) in
    omega (arith, g, e, +ℤ_parts (z /ℤ 60) (pos 20), /ℤ_parts z 60)

offset_back :
    (z : ℤ)
    → GoodOffset z
    → (pos (wrap 256 (z /ℤ 60 +ℤ pos 20) % 64) -ℤ pos 20) *ℤ 60
        +ℤ (pos (wrap 256 (z -ℤ z /ℤ 60 *ℤ 60 +ℤ pos 60)) -ℤ pos 60)
      ≡ z
offset_back z g =
    let e : wrap 256 (z /ℤ 60 +ℤ pos 20) % 64 ≡ wrap 256 (z /ℤ 60 +ℤ pos 20) =
      omega (arith, hour_byte z g) in
    ap
      (λ (t : ℕ).
        (pos t -ℤ pos 20) *ℤ 60 +ℤ (pos (wrap 256 (z -ℤ z /ℤ 60 *ℤ 60 +ℤ pos 60)) -ℤ pos 60))
      e
    ∙ add-sub_assoc _ (pos (wrap 256 (z -ℤ z /ℤ 60 *ℤ 60 +ℤ pos 60))) (pos 60)
    ∙ quotient_back z 60 20 60 (omega arith) (omega (arith, g)) (omega (arith, g)) (omega arith)
        (omega arith)

abbrev timestamp_bytes : OracleDateTime → Bool → List ℕ
timestamp_bytes v with_time_zone =
    date_bytes v
    ++ nanosecond_bytes v.nanosecond
    ++ (if with_time_zone then offset_bytes v.offset_minutes else [])

timestamp_bytes-length :
    (v : OracleDateTime) (with_time_zone : Bool)
    → length (timestamp_bytes v with_time_zone) ≡ (if with_time_zone then 13 else 11)
unfolding date_bytes
timestamp_bytes-length v true = refl
timestamp_bytes-length v false = refl

timestamp_bytes-take :
    (v : OracleDateTime) (with_time_zone : Bool)
    → take 7 (timestamp_bytes v with_time_zone) ≡ date_bytes v
unfolding date_bytes
timestamp_bytes-take v with_time_zone = refl

-- What is left of a value when its offset is not sent.
abbrev pub without_offset : OracleDateTime → OracleDateTime
without_offset v = record v { offset_minutes = pos 0; has_offset = false }

with_nanosecond-bytes :
    (v : OracleDateTime) (with_time_zone : Bool)
    → GoodFields v
    → with_nanosecond (timestamp_bytes v with_time_zone) (date_part v) ≡ without_offset v
unfolding with_nanosecond date_bytes
with_nanosecond-bytes v true g =
    λ i. record (without_offset v) { nanosecond = nanosecond_back v.nanosecond g.nanoseconds i }
with_nanosecond-bytes v false g =
    λ i. record (without_offset v) { nanosecond = nanosecond_back v.nanosecond g.nanoseconds i }

GoodOffset_lem :
    (v : OracleDateTime) → v.has_offset ≡ true → bad_offset v ≡ false → GoodOffset v.offset_minutes
unfolding bad_offset
GoodOffset_lem v e h = ground (arith, e, h, minus_parts 0 900)

with_offset-bytes :
    (v : OracleDateTime) (with_time_zone : Bool)
    → (with_time_zone ≡ true → (v.has_offset ≡ true) × GoodOffset v.offset_minutes)
    → with_offset (timestamp_bytes v with_time_zone) (without_offset v)
      ≡ ok (if with_time_zone then v else without_offset v)
unfolding with_offset date_bytes
with_offset-bytes v false g = refl
with_offset-bytes v true g =
    let (e, o) = g refl in
    let small : leb 128 (wrap 256 (v.offset_minutes /ℤ 60 +ℤ pos 20)) ≡ false =
      ground (arith, hour_byte v.offset_minutes o) in
    rw small (λ i.
      ok (record v { offset_minutes = offset_back v.offset_minutes o i; has_offset = sym e i }))

bad_fields-without_offset : (v : OracleDateTime) → bad_fields (without_offset v) ≡ bad_fields v
unfolding bad_fields
bad_fields-without_offset v = refl

validated_back :
    (v : OracleDateTime) (with_time_zone : Bool)
    → validate_date_time v ≡ ok tt
    → validate_date_time (if with_time_zone then v else without_offset v) ≡ ok tt
unfolding validate_date_time bad_offset
validated_back v true h = h
validated_back v false h =
    let good =
      bad_fields-without_offset v ∙ GoodFields-bad_fields v (validate_date_time-GoodFields v h) in
    rw good refl

nanosecond_bytes-AreBytes : (n : ℕ) → AreBytes (nanosecond_bytes n)
nanosecond_bytes-AreBytes n = (omega arith, (omega arith, (omega arith, (omega arith, tt))))

offset_bytes-AreBytes :
    (z : ℤ) (with_time_zone : Bool) → AreBytes (if with_time_zone then offset_bytes z else [])
offset_bytes-AreBytes z true = (wrap-IsByte _, (wrap-IsByte _, tt))
offset_bytes-AreBytes z false = tt

sent_offset :
    (v : OracleDateTime) (with_time_zone : Bool)
    → (with_time_zone ≡ true → v.has_offset ≡ true)
    → (with_time_zone && not v.has_offset) ≡ false
sent_offset v false z = refl
sent_offset v true z = rw (z refl) refl

encode_timestamp_bytes :
    (v : OracleDateTime) (with_time_zone : Bool)
    → validate_date_time v ≡ ok tt
    → (with_time_zone ≡ true → v.has_offset ≡ true)
    → encode_oracle_timestamp v with_time_zone ≡ ok (timestamp_bytes v with_time_zone)
unfolding encode_oracle_timestamp
encode_timestamp_bytes v with_time_zone h z =
    rw (h, sent_offset v with_time_zone z, encode_date_bytes v h) refl

length_test :
    (v : OracleDateTime) (with_time_zone : Bool)
    → let n = length (timestamp_bytes v with_time_zone) in (n == 7 || n == 11 || n == 13) ≡ true
length_test v true = rw (timestamp_bytes-length v true) refl
length_test v false = rw (timestamp_bytes-length v false) refl

decode_timestamp_bytes :
    (v : OracleDateTime) (with_time_zone : Bool)
    → validate_date_time v ≡ ok tt
    → (with_time_zone ≡ true → v.has_offset ≡ true)
    → decode_oracle_timestamp (timestamp_bytes v with_time_zone)
      ≡ ok (if with_time_zone then v else without_offset v)
unfolding decode_oracle_timestamp
decode_timestamp_bytes v with_time_zone h z =
    let g = validate_date_time-GoodFields v h in
    let o : with_time_zone ≡ true → (v.has_offset ≡ true) × GoodOffset v.offset_minutes =
      λ e. (z e, GoodOffset_lem v (z e) (validate_date_time-offset v h)) in
    rw
      (
        length_test v with_time_zone,
        timestamp_bytes-take v with_time_zone,
        decode_date_bytes v g,
        with_nanosecond-bytes v with_time_zone g,
        with_offset-bytes v with_time_zone o,
        validated_back v with_time_zone h,
      )
      refl

-- A valid value is encoded as TIMESTAMP in 11 bytes, or with its offset, if it has one, in 13, and
-- decoded from them: all of it with the offset, and all but the offset without.
pub decode-encode_timestamp :
    (v : OracleDateTime) (with_time_zone : Bool)
    → validate_date_time v ≡ ok tt
    → (with_time_zone ≡ true → v.has_offset ≡ true)
    → (wire : List ℕ) × (encode_oracle_timestamp v with_time_zone ≡ ok wire)
      × AreBytes wire
      × (length wire ≡ (if with_time_zone then 13 else 11))
      × (decode_oracle_timestamp wire ≡ ok (if with_time_zone then v else without_offset v))
decode-encode_timestamp v with_time_zone h z =
    let g = validate_date_time-GoodFields v h in
    (
      timestamp_bytes v with_time_zone,
      encode_timestamp_bytes v with_time_zone h z,
      All-append IsByte (date_bytes v ++ nanosecond_bytes v.nanosecond)
          (if with_time_zone then offset_bytes v.offset_minutes else [])
          (All-append IsByte (date_bytes v) (nanosecond_bytes v.nanosecond)
            (date_bytes-AreBytes v g) (nanosecond_bytes-AreBytes v.nanosecond))
          (offset_bytes-AreBytes v.offset_minutes with_time_zone),
      timestamp_bytes-length v with_time_zone,
      decode_timestamp_bytes v with_time_zone h z,
    )

-- ===== src/Values/Calendar.antt =====
-- The wall clock of a zone in src/value_codec.cpp, by way of a count of days.
use quack_oracle.Base.{
  ℕ, zero, suc, ◌+◌, ◌-◌, ◌*◌, ◌/◌, ◌%◌, true, false, leb, ltb, if◌then◌else◌, Result, ok, stuck,
  ◌>>=◌,
}
use quack_oracle.Base.Int.{ℤ, pos, pos_part, ◌+ℤ◌, ◌-ℤ◌, ◌*ℤ◌, ◌/ℤ◌, ltb_ℤ, wrap}
use quack_oracle.Values.Date.{OracleDateTime}

-- Days are counted from 1970-01-01; a year here begins in March.
unfoldable pub days_from_civil : ℤ → ℕ → ℕ → ℤ
days_from_civil civil_year month day =
    let year = if leb month 2 then civil_year -ℤ pos 1 else civil_year in
    let era = (if ltb_ℤ year (pos 0) then year -ℤ pos 399 else year) /ℤ 400 in
    let year_of_era = year -ℤ era *ℤ 400 in
    let month_index = if ltb 2 month then month - 3 else month + 9 in
    let day_of_year = pos ((153 * month_index + 2) / 5 + day) -ℤ pos 1 in
    let day_of_era = year_of_era *ℤ 365 +ℤ year_of_era /ℤ 4 -ℤ year_of_era /ℤ 100 +ℤ day_of_year in
    era *ℤ 146097 +ℤ day_of_era -ℤ pos 719468

unfoldable pub civil_from_days : ℤ → OracleDateTime → OracleDateTime
civil_from_days count value =
    let days = count +ℤ pos 719468 in
    let era = (if ltb_ℤ days (pos 0) then days -ℤ pos 146096 else days) /ℤ 146097 in
    let day_of_era = days -ℤ era *ℤ 146097 in
    let year_of_era =
      (day_of_era -ℤ day_of_era /ℤ 1460 +ℤ day_of_era /ℤ 36524 -ℤ day_of_era /ℤ 146096) /ℤ 365 in
    let day_of_year =
      day_of_era -ℤ (year_of_era *ℤ 365 +ℤ year_of_era /ℤ 4 -ℤ year_of_era /ℤ 100) in
    let month_index = (day_of_year *ℤ 5 +ℤ pos 2) /ℤ 153 in
    let month = if ltb_ℤ month_index (pos 10) then month_index +ℤ pos 3 else month_index -ℤ pos 9 in
    record value {
      day = wrap 256 (day_of_year -ℤ (month_index *ℤ 153 +ℤ pos 2) /ℤ 5 +ℤ pos 1);
      month = wrap 256 month;
      year = year_of_era +ℤ era *ℤ 400 +ℤ (if ltb_ℤ (pos 2) month then pos 0 else pos 1);
    }

-- The loop that brings the minutes up to 0, a day back each round.
unfoldable pub minutes_up : ℕ → ℤ → ℤ → Result (ℤ × ℤ)
minutes_up zero minutes days = stuck
minutes_up (suc fuel) minutes days = elim (ltb_ℤ minutes (pos 0)) [
  | true ↦ minutes_up fuel (minutes +ℤ pos 1440) (days -ℤ pos 1)
  | false ↦ ok (minutes, days)
]

-- The loop that brings them below a day, a day on each round.
unfoldable pub minutes_down : ℕ → ℤ → ℤ → Result (ℤ × ℤ)
minutes_down zero minutes days = stuck
minutes_down (suc fuel) minutes days = elim (ltb_ℤ minutes (pos 1440)) [
  | true ↦ ok (minutes, days)
  | false ↦ minutes_down fuel (minutes -ℤ pos 1440) (days +ℤ pos 1)
]

-- An hour and a minute of 8 bits with an offset of 16 bits are less than 36 days.
abbrev pub clock_rounds : ℕ
clock_rounds = 36

unfoldable pub set_clock : OracleDateTime → ℤ × ℤ → OracleDateTime
set_clock utc (minutes, days) =
    civil_from_days days
      (record utc { hour = pos_part minutes / 60 % 256; minute = pos_part minutes % 60 })

unfoldable pub oracle_zoned_wall_clock : OracleDateTime → Result OracleDateTime
oracle_zoned_wall_clock utc =
    let minutes = pos (utc.hour * 60 + utc.minute) +ℤ utc.offset_minutes in
    let days = days_from_civil utc.year utc.month utc.day in
    elim utc.has_offset [
      | false ↦ ok utc
      | true ↦ do
        up ← minutes_up clock_rounds minutes days
        down ← minutes_down clock_rounds up.0 up.1
        ok (set_clock utc down)
    ]

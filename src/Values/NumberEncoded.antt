-- ===== src/Values/NumberEncoded.antt =====
-- Every NUMBER text that `EncodeOracleNumber` of src/value_codec.cpp takes is decoded again.
use quack_oracle.Base.{
  ℕ, ◌+◌, ◌-◌, ◌*◌, ◌≤◌, ◌≡◌, refl, sym, Bool, true, false, ◌||◌, Bool-cases, Option, none, some,
  List, List-cases, [], ◌∷◌, ◌++◌, ltb, ◌==◌, if◌then◌else◌, length, All, Result, ok, err, ◌>>=◌,
  Ends, returns, throws, Ends-bind, Ends-guard, limit_exceeded, subst, inl, inr, arith, malformed,
}
use quack_oracle.Base.Int.{ℤ, pos, negsuc, pos_part, minus, ◌+ℤ◌, ◌-ℤ◌, ◌*ℤ◌, ltb_ℤ, -ℤ_of}
use quack_oracle.Values.Integer.{zero_byte}
use quack_oracle.Values.Number.{
  is_digit, is_exponent, Scanned, scan_digits, without_leading_zeros, without_last, pairs_of,
  groups_of, number_bytes, floor_divide_by_two, encode_digits, exponent_digits, exponent_value,
  signed_exponent, parse_exponent, point_of, encode_placed, encode_scanned, encode_signed,
  encode_oracle_number,
}
use quack_oracle.Values.NumberText.{number_text, decode_oracle_number}
use quack_oracle.Values.NumberAccepted.{IsGroup, last_nonzero, InRange, decode-number_bytes}

abbrev IsDigit : ℕ → Type 0
IsDigit c = (48 ≤ c) × (c ≤ 57)

All-snoc : (cs : List ℕ) (c : ℕ) → All IsDigit cs → IsDigit c → All IsDigit (cs ++ c ∷ [])
All-snoc [] c h d = (d, tt)
All-snoc (x ∷ cs) c (e, h) d = (e, All-snoc cs c h d)

without_last-All :
    (P : ℕ → Type 0) (value : ℕ) (cs : List ℕ) → All P cs → All P (without_last value cs)
unfolding without_last
without_last-All P value [] h = tt
without_last-All P value (c ∷ cs) (d, h) = elim (List-cases (without_last value cs)) [
  | inl e ↦ rw e (elim (Bool-cases (c == value)) [ inl f ↦ rw f tt | inr f ↦ rw f (d, tt) ])
  | inr (x, xs, e) ↦ rw e (d, rw e at (without_last-All P value cs h))
]

without_leading_zeros-All : (cs : List ℕ) → All IsDigit cs → All IsDigit (without_leading_zeros cs)
unfolding without_leading_zeros
without_leading_zeros-All [] h = tt
without_leading_zeros-All (c ∷ cs) (d, h) = elim (Bool-cases (c == 48)) [
  | inl e ↦ rw e (without_leading_zeros-All cs h)
  | inr e ↦ rw e (d, h)
]

pairs_of-All : (cs : List ℕ) → All IsDigit cs → All IsGroup (pairs_of cs)
unfolding pairs_of
pairs_of-All [] h = tt
pairs_of-All (d ∷ []) (h, t) = (omega (arith, h), tt)
pairs_of-All (d ∷ e ∷ cs) (h, (g, t)) = (omega (arith, h, g), pairs_of-All cs t)

groups_of-All : (width : ℕ) (cs : List ℕ) → All IsDigit cs → All IsGroup (groups_of width cs)
unfolding groups_of
groups_of-All width [] h = tt
groups_of-All width (d ∷ cs) (h, t) = elim (Bool-cases (width == 2)) [
  | inl e ↦ rw e (pairs_of-All (d ∷ cs) (h, t))
  | inr e ↦ rw e (omega (arith, h), pairs_of-All cs t)
]

without_last-last : (cs : List ℕ) → last_nonzero (without_last 0 cs) ≡ true
unfolding without_last last_nonzero
without_last-last [] = refl
without_last-last (c ∷ cs) = elim (List-cases (without_last 0 cs)) [
  | inl e ↦ rw e (elim (Bool-cases (c == 0)) [ inl f ↦ rw f refl | inr f ↦ rw (f, f) refl ])
  | inr (x, xs, e) ↦ rw e (rw e at (without_last-last cs))
]

scan_digits-Ends :
    (digits : List ℕ) (point : Option ℕ) (text : List ℕ)
    → All IsDigit digits
    → Ends (λ (s : Scanned). All IsDigit s.digits) (scan_digits digits point text)
unfolding scan_digits
scan_digits-Ends digits point [] h = returns h
scan_digits-Ends digits point (c ∷ cs) h = elim (Bool-cases (is_exponent c)) [
  | inl x ↦ rw x (returns h)
  | inr x ↦ rw x (elim (Bool-cases (c == 46)) [
    | inl p ↦ rw p (pointed point (scan_digits-Ends digits (some (length digits)) cs h))
    | inr p ↦ rw p (elim (Bool-cases (is_digit c)) [
      | inl d ↦
          rw d
            (scan_digits-Ends (digits ++ c ∷ []) point cs (All-snoc digits c h (ground (arith, d))))
      | inr d ↦ rw d throws
    ])
  ])
]
  where
    pointed :
        (o : Option ℕ)
        → Ends
            (λ (s : Scanned). All IsDigit s.digits)
            (scan_digits digits (some (length digits)) cs)
        → Ends
            (λ (s : Scanned). All IsDigit s.digits)
            (elim o as (λ x. Result Scanned) [
              | none ↦ scan_digits digits (some (length digits)) cs
              | some p ↦ err malformed
            ])
    pointed none k = k
    pointed (some p) k = throws

exponent_digits-Ends : (n : ℕ) (cs : List ℕ) → Ends (λ (k : ℕ). Unit {0}) (exponent_digits n cs)
unfolding exponent_digits
exponent_digits-Ends n [] = returns tt
exponent_digits-Ends n (c ∷ cs) = elim (Bool-cases (is_digit c)) [
  | inr d ↦ rw d throws
  | inl d ↦ rw d (elim (Bool-cases (ltb 100000 n)) [
    | inl b ↦ rw b throws
    | inr b ↦ rw b (exponent_digits-Ends (n * 10 + (c - 48)) cs)
  ])
]

exponent_value-Ends :
    (negative : Bool) (cs : List ℕ) → Ends (λ (e : ℤ). Unit {0}) (exponent_value negative cs)
unfolding exponent_value
exponent_value-Ends negative [] = throws
exponent_value-Ends negative (c ∷ cs) = elim (Bool-cases (is_digit c)) [
  | inr d ↦ rw d throws
  | inl d ↦ rw d (Ends-bind _ (exponent_digits-Ends 0 (c ∷ cs)) (λ n _. returns tt))
]

parse_exponent-Ends : (rest : List ℕ) → Ends (λ (e : ℤ). Unit {0}) (parse_exponent rest)
unfolding parse_exponent signed_exponent
parse_exponent-Ends [] = returns tt
parse_exponent-Ends (l ∷ []) = elim (Bool-cases (is_exponent l)) [
  | inl x ↦ rw x throws
  | inr x ↦ rw x throws
]
parse_exponent-Ends (l ∷ c ∷ cs) = elim (Bool-cases (is_exponent l)) [
  | inr x ↦ rw x throws
  | inl x ↦ rw x (elim (Bool-cases (c == 43 || c == 45)) [
    | inl y ↦ rw y (exponent_value-Ends (c == 45) cs)
    | inr y ↦ rw y (exponent_value-Ends false (c ∷ cs))
  ])
]

-- What DecodeOracleNumber returns a text for.
abbrev pub Decodes : List ℕ → Type 0
Decodes wire = (length wire ≤ 21) × ((text : List ℕ) × (decode_oracle_number wire ≡ ok text))

number_bytes-Ends :
    (negative : Bool) (e : ℤ) (gs : List ℕ)
    → InRange e
    → All IsGroup gs
    → last_nonzero gs ≡ true
    → Ends Decodes (number_bytes negative e gs)
number_bytes-Ends negative e [] r h l = unfold number_bytes in throws
number_bytes-Ends negative e (g ∷ gs) r h l = elim (Bool-cases (ltb 20 (length (g ∷ gs)))) [
  | inl b ↦ too_long negative e g gs b
  | inr b ↦
      let (w, wrote, size, read) = decode-number_bytes negative e g gs r h l (ground (arith, b)) in
      subst (Ends Decodes) (sym wrote) (returns (size, (number_text negative e (g ∷ gs), read)))
]
  where
    too_long :
        (negative : Bool) (e : ℤ) (g : ℕ) (gs : List ℕ)
        → ltb 20 (length (g ∷ gs)) ≡ true
        → Ends Decodes (number_bytes negative e (g ∷ gs))
    too_long negative e g gs b =
        let full : (length (g ∷ gs) == 0 || ltb 20 (length (g ∷ gs))) ≡ true = ground (arith, b) in
        unfold number_bytes in rw full throws

in_range : (e : ℤ) → (ltb_ℤ e (-ℤ_of 65) || ltb_ℤ (pos 62) e) ≡ false → InRange e
unfolding minus
in_range (pos n) h = ground (arith, h)
in_range (negsuc n) h = ground (arith, h)

encode_digits-Ends :
    (negative : Bool) (digits : List ℕ) (place : ℤ)
    → All IsDigit digits
    → Ends Decodes (encode_digits negative digits place)
unfolding encode_digits
encode_digits-Ends negative digits place h =
    let exponent = floor_divide_by_two (place -ℤ pos 1) in
    let groups = groups_of (pos_part (place -ℤ pos 1 -ℤ exponent *ℤ 2 +ℤ pos 1)) digits in
    Ends-guard (ltb_ℤ exponent (-ℤ_of 65) || ltb_ℤ (pos 62) exponent) limit_exceeded
      (number_bytes negative exponent (without_last 0 groups))
      λ range.
        number_bytes-Ends negative exponent (without_last 0 groups) (in_range exponent range)
          (without_last-All IsGroup 0 groups (groups_of-All _ digits h)) (without_last-last groups)

-- What follows the exponent.
placed-Ends :
    (negative : Bool) (nonzero : List ℕ) (place : ℤ)
    → All IsDigit nonzero
    → Ends Decodes (
        if length nonzero == 0
        then ok (zero_byte ∷ [])
        else encode_digits negative (without_last 48 nonzero) place)
placed-Ends negative nonzero place h = elim (Bool-cases (length nonzero == 0)) [
  | inl z ↦ rw z (returns (omega arith, (48 ∷ [], zero_decodes)))
  | inr z ↦ rw z (encode_digits-Ends negative _ place (without_last-All IsDigit 48 nonzero h))
]
  where
    zero_decodes : decode_oracle_number (zero_byte ∷ []) ≡ ok (48 ∷ [])
    zero_decodes = unfold decode_oracle_number in refl

encode_scanned-Ends :
    (negative : Bool) (s : Scanned)
    → All IsDigit s.digits
    → Ends Decodes (encode_scanned negative s)
unfolding encode_scanned encode_placed
encode_scanned-Ends negative s h =
    Ends-guard (length s.digits == 0) malformed (parse_exponent s.rest >>= encode_placed negative s)
      λ _. Ends-bind _ (parse_exponent-Ends s.rest) λ exponent _.
        placed-Ends negative (without_leading_zeros s.digits)
          (pos (point_of s)
            +ℤ exponent
            -ℤ pos (length s.digits - length (without_leading_zeros s.digits)))
          (without_leading_zeros-All s.digits h)

encode_signed-Ends : (text : List ℕ) → Ends Decodes (encode_signed text)
unfolding encode_signed
encode_signed-Ends [] = throws
encode_signed-Ends (c ∷ cs) = elim (Bool-cases (c == 43 || c == 45)) [
  | inl x ↦ rw x (Ends-bind _ (scan_digits-Ends [] none cs tt) (encode_scanned-Ends (c == 45)))
  | inr x ↦ rw x (Ends-bind _ (scan_digits-Ends [] none (c ∷ cs) tt) (encode_scanned-Ends false))
]

-- Whatever the text, EncodeOracleNumber throws, or it writes at most 21 bytes that DecodeOracleNumber
-- reads without throwing.
pub encode_oracle_number-Decodes : (text : List ℕ) → Ends Decodes (encode_oracle_number text)
unfolding encode_oracle_number
encode_oracle_number-Decodes text =
    Ends-guard (ltb 256 (length text)) limit_exceeded (encode_signed text)
      (λ _. encode_signed-Ends text)

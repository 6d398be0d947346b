-- ===== src/Values/NumberAccepted.antt =====
-- NUMBER of src/value_codec.cpp: the decoder reads back what the encoder writes.
use quack_oracle.Base.{
  ℕ, suc, ◌+◌, ◌-◌, ◌≤◌, ◌≡◌, refl, sym, ap, ◌∙◌, Bool, true, false, not, ◌&&◌, ◌||◌, Bool-cases,
  List, [], ◌∷◌, ◌++◌, ltb, ◌==◌, if◌then◌else◌, length, get_or, All, length-append, take-append,
  append-nil, ok, ◌>>=◌, inl, inr, arith,
}
use quack_oracle.Base.Int.{ℤ, pos, negsuc, pos_part, neg_part, minus, ◌-ℤ◌, ltb_ℤ, -ℤ_of, wrap}
use quack_oracle.Values.Integer.{
  is_negative, exponent_100, digits_end, digit_value, bad_digit, is_last, digit_bytes,
}
use quack_oracle.Values.Number.{group_byte, group_bytes, exponent_byte, terminator, number_bytes}
use quack_oracle.Values.NumberText.{read_groups, number_text, decode_oracle_number}

-- The last group is not 0.
unfoldable pub last_nonzero : List ℕ → Bool
last_nonzero [] = true
last_nonzero (g ∷ gs) = not (is_last gs && g == 0) && last_nonzero gs

abbrev pub IsGroup : ℕ → Type 0
IsGroup g = g ≤ 99

digit_value-group_byte :
    (negative : Bool) (g : ℕ) → g ≤ 99 → digit_value negative (group_byte negative g) ≡ pos g
unfolding digit_value group_byte minus wrap
digit_value-group_byte true g h = ground (arith, h)
digit_value-group_byte false g h = ground (arith, h)

is_last-group_bytes :
    (negative : Bool) (gs : List ℕ) → is_last (group_bytes negative gs) ≡ is_last gs
unfolding group_bytes
is_last-group_bytes negative [] = refl
is_last-group_bytes negative (g ∷ gs) = refl

length-group_bytes : (negative : Bool) (gs : List ℕ) → length (group_bytes negative gs) ≡ length gs
unfolding group_bytes
length-group_bytes negative [] = refl
length-group_bytes negative (g ∷ gs) = ap suc (length-group_bytes negative gs)

good_group :
    (g : ℕ) (last : Bool) → g ≤ 99 → (last && g == 0) ≡ false → bad_digit (pos g) last ≡ false
unfolding bad_digit
good_group g last h e = ground (arith, h, e)

read_groups-bytes :
    (negative : Bool) (gs : List ℕ)
    → All IsGroup gs
    → last_nonzero gs ≡ true
    → read_groups negative (group_bytes negative gs) ≡ ok gs
unfolding read_groups group_bytes last_nonzero
read_groups-bytes negative [] h l = refl
read_groups-bytes negative (g ∷ gs) (b, h) l =
    let good : bad_digit (pos g) (is_last gs) ≡ false =
      good_group g (is_last gs) b (ground (arith, l)) in
    let rest : last_nonzero gs ≡ true = ground (arith, l) in
    rw
      (
        digit_value-group_byte negative g b,
        is_last-group_bytes negative gs,
        good,
        read_groups-bytes negative gs h rest,
      )
      refl

-- The exponents of the wire form.
abbrev pub InRange : ℤ → Type 0
InRange e = (neg_part e ≤ 65) × (pos_part e ≤ 62)

exponent_sign :
    (negative : Bool) (e : ℤ) → InRange e → ltb (exponent_byte negative e) 0x80 ≡ negative
unfolding exponent_byte minus wrap
exponent_sign true (pos n) h = ground (arith, h)
exponent_sign true (negsuc n) h = ground (arith, h)
exponent_sign false (pos n) h = ground (arith, h)
exponent_sign false (negsuc n) h = ground (arith, h)

exponent_back :
    (negative : Bool) (e : ℤ)
    → InRange e
    → (if negative
        then pos 62 -ℤ pos (exponent_byte negative e)
        else pos (exponent_byte negative e) -ℤ pos 193)
      ≡ e
unfolding exponent_byte minus wrap
exponent_back true (pos n) h = ground (arith, h)
exponent_back true (negsuc n) h = ground (arith, h)
exponent_back false (pos n) h = ground (arith, h)
exponent_back false (negsuc n) h = ground (arith, h)

get_or_last : (x : ℕ) (xs : List ℕ) (y : ℕ) → get_or (x ∷ xs ++ y ∷ []) (suc (length xs)) 0 ≡ y
get_or_last x [] y = refl
get_or_last x (z ∷ xs) y = get_or_last z xs y

-- The last byte of a full negative value is no terminator.
last_byte :
    (b g : ℕ) (gs : List ℕ)
    → All IsGroup (g ∷ gs)
    → last_nonzero (g ∷ gs) ≡ true
    → get_or (b ∷ group_bytes true (g ∷ gs)) (suc (length gs)) 0 ≤ 100
unfolding group_bytes last_nonzero group_byte wrap minus
last_byte b g [] (h, t) l = ground (arith, h, l)
last_byte b g (g' ∷ gs) (h, t) l = last_byte (group_byte true g) g' gs t (ground (arith, l))

-- What the encoder writes for groups.
abbrev wire_of : Bool → ℤ → List ℕ → List ℕ
wire_of negative e gs =
    exponent_byte negative e ∷ group_bytes negative gs ++ terminator negative (length gs + 1)

end_short :
    (b : ℕ) (G : List ℕ) → ltb b 0x80 ≡ true → digits_end (b ∷ G ++ 102 ∷ []) ≡ suc (length G)
unfolding digits_end is_negative
end_short b G e =
    let size : length (b ∷ G ++ 102 ∷ []) - 1 ≡ suc (length G) =
      omega (arith, length-append G (102 ∷ [])) in
    rw (e, size, get_or_last b G 102) refl

end_full :
    (b : ℕ) (G : List ℕ)
    → ltb b 0x80 ≡ true
    → get_or (b ∷ G) (length G) 0 ≤ 100
    → digits_end (b ∷ G) ≡ suc (length G)
unfolding digits_end is_negative
end_full b G e h =
    let size : suc (length G) - 1 ≡ length G = omega arith in
    let differs : (get_or (b ∷ G) (length G) 0 == 102) ≡ false = ground (arith, h) in
    rw (e, size, differs) refl

minus_one : (n : ℕ) → suc (suc n) - 1 ≡ suc n
minus_one n = omega arith

digits_end-wire :
    (negative : Bool) (e : ℤ) (g : ℕ) (gs : List ℕ)
    → InRange e
    → All IsGroup (g ∷ gs)
    → last_nonzero (g ∷ gs) ≡ true
    → length (g ∷ gs) ≤ 20
    → digits_end (wire_of negative e (g ∷ gs)) ≡ suc (length (g ∷ gs))
unfolding digits_end is_negative
digits_end-wire false e g gs r h l n =
    rw (exponent_sign false e r, append-nil) (ap suc (length-group_bytes false (g ∷ gs)))
digits_end-wire true e g gs r h l n = elim (Bool-cases (ltb (length (g ∷ gs) + 1) 21)) [
  | inl f ↦ rw f (
      end_short (exponent_byte true e) (group_bytes true (g ∷ gs)) (exponent_sign true e r)
      ∙ ap suc (length-group_bytes true (g ∷ gs)))
  | inr f ↦
      rw (f, append-nil)
        (end_full (exponent_byte true e) (group_bytes true (g ∷ gs)) (exponent_sign true e r)
            (rw (length-group_bytes true (g ∷ gs)) (last_byte (exponent_byte true e) g gs h l))
          ∙ ap suc (length-group_bytes true (g ∷ gs)))
]

digit_bytes-wire :
    (negative : Bool) (e : ℤ) (g : ℕ) (gs : List ℕ)
    → InRange e
    → All IsGroup (g ∷ gs)
    → last_nonzero (g ∷ gs) ≡ true
    → length (g ∷ gs) ≤ 20
    → digit_bytes (wire_of negative e (g ∷ gs)) ≡ group_bytes negative (g ∷ gs)
unfolding digit_bytes
digit_bytes-wire negative e g gs r h l n =
    rw
      (
        digits_end-wire negative e g gs r h l n,
        minus_one (length gs),
        sym (length-group_bytes negative (g ∷ gs)),
      )
      (take-append (group_bytes negative (g ∷ gs)) _)

exponent_100-wire :
    (negative : Bool) (e : ℤ) (bytes : List ℕ)
    → InRange e
    → exponent_100 (exponent_byte negative e ∷ bytes) ≡ e
unfolding exponent_100 is_negative
exponent_100-wire negative e bytes r = rw (exponent_sign negative e r) (exponent_back negative e r)

in_range : (e : ℤ) → InRange e → (ltb_ℤ e (-ℤ_of 65) || ltb_ℤ (pos 62) e) ≡ false
unfolding minus
in_range (pos n) r = ground (arith, r)
in_range (negsuc n) r = ground (arith, r)

wire_size :
    (negative : Bool) (e : ℤ) (g : ℕ) (gs : List ℕ)
    → length (g ∷ gs) ≤ 20
    → (2 ≤ length (wire_of negative e (g ∷ gs))) × (length (wire_of negative e (g ∷ gs)) ≤ 21)
wire_size negative e g gs n =
    let behind = terminator negative (length (g ∷ gs) + 1) in
    ground (
      arith,
      length-append (group_bytes negative (g ∷ gs)) behind,
      length-group_bytes negative (g ∷ gs),
      terminator_size negative (length (g ∷ gs) + 1),
    )
  where
    terminator_size :
        (negative : Bool) (n : ℕ)
        → (length (terminator negative n) ≤ 1) × (21 ≤ n → length (terminator negative n) ≡ 0)
    terminator_size true n = ground arith
    terminator_size false n = ground arith

decode_step :
    (wire : List ℕ)
    → (length wire == 0 || ltb 21 (length wire)) ≡ false
    → (length wire == 1) ≡ false
    → (ltb_ℤ (exponent_100 wire) (-ℤ_of 65) || ltb_ℤ (pos 62) (exponent_100 wire)) ≡ false
    → (digits_end wire == 1) ≡ false
    → decode_oracle_number wire ≡ (
        read_groups (is_negative wire) (digit_bytes wire) >>= λ groups.
        ok (number_text (is_negative wire) (exponent_100 wire) groups))
unfolding decode_oracle_number
decode_step wire sized long range ended = rw (sized, long, range, ended) refl

is_negative-wire :
    (negative : Bool) (e : ℤ) (bytes : List ℕ)
    → InRange e
    → is_negative (exponent_byte negative e ∷ bytes) ≡ negative
unfolding is_negative
is_negative-wire negative e bytes r = exponent_sign negative e r

-- A NUMBER of either sign with any exponent of the wire's range and 1 to 20 base-100 digits, the last
-- not 0, is written in at most 21 bytes, and DecodeOracleNumber reads from them the text of the same
-- sign, exponent and digits.
pub decode-number_bytes :
    (negative : Bool) (e : ℤ) (g : ℕ) (gs : List ℕ)
    → InRange e
    → All IsGroup (g ∷ gs)
    → last_nonzero (g ∷ gs) ≡ true
    → length (g ∷ gs) ≤ 20
    → (wire : List ℕ) × (number_bytes negative e (g ∷ gs) ≡ ok wire)
      × (length wire ≤ 21)
      × (decode_oracle_number wire ≡ ok (number_text negative e (g ∷ gs)))
unfolding number_bytes
decode-number_bytes negative e g gs r h l n =
    let wire = wire_of negative e (g ∷ gs) in
    let (low, high) = wire_size negative e g gs n in
    let fits : (length (g ∷ gs) == 0 || ltb 20 (length (g ∷ gs))) ≡ false = ground (arith, n) in
    let sized : (length wire == 0 || ltb 21 (length wire)) ≡ false = ground (arith, low, high) in
    let long : (length wire == 1) ≡ false = ground (arith, low) in
    let rest = group_bytes negative (g ∷ gs) ++ terminator negative (length (g ∷ gs) + 1) in
    let exponent : exponent_100 wire ≡ e = exponent_100-wire negative e rest r in
    let range : (ltb_ℤ (exponent_100 wire) (-ℤ_of 65) || ltb_ℤ (pos 62) (exponent_100 wire))
        ≡ false =
      rw exponent (in_range e r) in
    let ended : (digits_end wire == 1) ≡ false =
      ground (arith, digits_end-wire negative e g gs r h l n) in
    (
      wire,
      rw fits refl,
      high,
      decode_step wire sized long range ended
          ∙ rw
              (
                is_negative-wire negative e rest r,
                exponent,
                digit_bytes-wire negative e g gs r h l n,
                read_groups-bytes negative (g ∷ gs) h l,
              )
              refl,
    )

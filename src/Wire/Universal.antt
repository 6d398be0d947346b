-- ===== src/Wire/Universal.antt =====
-- Integers written by src/byte_buffer.cpp and read back: the universal form (a length byte and that
-- many bytes) and the forms of fixed width.
use quack_oracle.Base.{
  ℕ, zero, suc, ◌+◌, ◌-◌, ◌*◌, ◌/◌, ◌%◌, ◌^◌, ◌≤◌, ◌<◌, ◌≡◌, refl, sym, ap, ◌∙◌, List, [], ◌∷◌,
  ◌++◌, leb, ◌==◌, if◌then◌else◌, length, append_assoc, append-nil, arith, Result, ok, Bool-cases,
  false, ltb, inl, inr,
}
use quack_oracle.Base.Arith.{pow-pos, split_byte}
use native.Mathlib.Nat.{mod-eq_of_lt, pow-suc, add-zero, pow-le-pow_right}
use quack_oracle.Wire.Reader.{
  ByteReader, reader, bind-ok, u64, read_byte, read_digits, read_universal, read_ub2, read_ub4,
  read_ub8,
}
use quack_oracle.Wire.Writer.{
  count_bytes, write_digits, write_universal, write_ub2, write_ub4, write_ub8,
}

-- The `n` low bytes of a number, most significant first.
unfoldable pub digits : ℕ → ℕ → List ℕ
digits zero v = []
digits (suc n) v = v / 256 ^ n % 256 ∷ digits n v

pub length-digits : (n v : ℕ) → length (digits n v) ≡ n
unfolding digits
length-digits zero v = refl
length-digits (suc n) v = ap suc (length-digits n v)

pub write_digits-append : (n : ℕ) (w : List ℕ) (v : ℕ) → write_digits n w v ≡ w ++ digits n v
unfolding write_digits digits
write_digits-append zero w v = sym (append-nil w)
write_digits-append (suc n) w v =
    write_digits-append n (w ++ v / 256 ^ n % 256 ∷ []) v ∙ append_assoc w _ (digits n v)

room : (P acc b : ℕ) → 0 < P → b < 256 → (acc + 1) * (P * 256) ≤ u64 → acc * 256 + b < u64
room P acc b hP hb h = grind arith

room_next : (P acc b : ℕ) → b < 256 → (acc + 1) * (P * 256) ≤ u64 → (acc * 256 + b + 1) * P ≤ u64
room_next P acc b hb h = omega (arith, grown P acc b hb)
  where
    grown : (P acc b : ℕ) → b < 256 → (acc * 256 + b + 1) * P ≤ (acc + 1) * 256 * P
    grown P acc b hb = grind arith

-- Horner's step at the byte that stands above 256 ^ n.
total :
    (n acc v : ℕ)
    → 256 ^ n * (acc * 256 + v / 256 ^ n % 256) + v % 256 ^ n ≡ 256 ^ suc n * acc + v % 256 ^ suc n
total n acc v = omega (arith, split_byte n v, ap (λ (t : ℕ). t * acc) (pow-suc 256 n))

p+ : (p n : ℕ) → p + 1 + n ≡ p + suc n
p+ p n = omega arith

read_digits-digits :
    (n acc v p : ℕ) (rest : List ℕ)
    → (acc + 1) * 256 ^ n ≤ u64
    → read_digits n acc (reader p (digits n v ++ rest))
      ≡ ok (256 ^ n * acc + v % 256 ^ n, reader (p + n) rest)
unfolding read_digits digits read_byte
read_digits-digits zero acc v p rest h = ground arith
read_digits-digits (suc n) acc v p rest h =
    let P : ℕ = 256 ^ n in
    let b : ℕ = v / P % 256 in
    let e : 256 ^ suc n ≡ P * 256 = pow-suc 256 n in
    let step : (acc * 256 + b) % u64 ≡ acc * 256 + b =
      mod-eq_of_lt (room P acc b (pow-pos n) (omega arith) (rw e at h)) in
    rw step (
      ground (
        arith,
        read_digits-digits n (acc * 256 + b) v (p + 1) rest
            (room_next P acc b (omega arith) (rw e at h)),
        total n acc v,
        p+ p n,
      ))

-- The width that the writer chooses holds the number and passes no limit.
count_bytes_lem :
    (left bytes value : ℕ)
    → 1 ≤ bytes
    → value < 256 ^ (bytes + left)
    → let n = count_bytes left bytes value in (1 ≤ n) × (n ≤ bytes + left) × (value < 256 ^ n)
unfolding count_bytes
count_bytes_lem zero bytes value h hv = (h, omega arith, rw add-zero at hv)
count_bytes_lem (suc left) bytes value h hv =
    ground (arith, count_bytes_lem left (bytes + 1) value (omega arith) (rw (p+ bytes left) hv))

-- What `write_universal` puts behind the writer.
unfoldable pub universal : ℕ → ℕ → List ℕ
unfolding digits
universal maximum_bytes value =
    if value == 0
    then 0 ∷ []
    else (let n = count_bytes (maximum_bytes - 1) 1 value in n ∷ digits n value)

read_universal_step :
    (maximum n p : ℕ) (bytes : List ℕ)
    → n < 128
    → n ≤ maximum
    → read_universal maximum (reader p (n ∷ bytes)) ≡ read_digits n 0 (reader (p + 1) bytes)
unfolding read_universal read_digits read_byte
read_universal_step maximum n p bytes hn hm =
    let e : leb 128 n ≡ false = ground arith in
    let f : ltb maximum n ≡ false = ground arith in rw (e, f)

place : (n : ℕ) → n ≤ 8 → (0 + 1) * 256 ^ n ≤ u64
place n h = omega (arith, pow-le-pow_right {n = 256} (omega arith) h)

module _ (maximum value : ℕ) (positive : 1 ≤ maximum) (narrow : maximum ≤ 8)
    (fits : value < 256 ^ maximum) where
  abbrev width : ℕ
  width = count_bytes (maximum - 1) 1 value

  width_bounds : (1 ≤ width) × (width ≤ maximum) × (value < 256 ^ width)
  width_bounds =
      let e : 1 + (maximum - 1) ≡ maximum = omega arith in
      let b = count_bytes_lem (maximum - 1) 1 value (omega arith) (rw e fits) in
      (b.0, omega (arith, b.1), b.2)

  pub write_universal-append :
      (w : List ℕ) → write_universal w value maximum ≡ w ++ universal maximum value
  unfolding write_universal universal
  write_universal-append w = elim (Bool-cases (value == 0)) [
    | inl e ↦ rw e
    | inr e ↦ rw e (
        rw (write_digits-append width _ value, append_assoc)
          (let b : width % 256 ≡ width = omega (arith, width_bounds) in rw b))
  ]

  pub read_universal-universal :
      (p : ℕ) (rest : List ℕ)
      → read_universal maximum (reader p (universal maximum value ++ rest))
        ≡ ok (value, reader (p + length (universal maximum value)) rest)
  unfolding universal
  read_universal-universal p rest = elim (Bool-cases (value == 0)) [
    | inl e ↦ rw e (unfold read_universal read_digits read_byte in ground arith)
    | inr e ↦ rw e (
        read_universal_step maximum width p _ (omega (arith, width_bounds)) width_bounds.1
        ∙ read_digits-digits width 0 value (p + 1) rest (place width (omega (arith, width_bounds)))
        ∙ landed width_bounds.2)
  ]
    where
      landed :
          value < 256 ^ width
          → ◌≡◌ {A = Result (ℕ × ByteReader)}
              (ok (256 ^ width * 0 + value % 256 ^ width, reader (p + 1 + width) rest))
              (ok (value, reader (p + suc (length (digits width value))) rest))
      landed h = ground (arith, length-digits width value, mod-eq_of_lt h)

-- What the fixed writers of a byte string's length put behind the writer.
pub write_ub4-append :
    (w : List ℕ) (value : ℕ) → value < 2 ^ 32 → write_ub4 w value ≡ w ++ universal 4 value
unfolding write_ub4
write_ub4-append w value h = write_universal-append 4 value (omega arith) (omega arith) h w

pub read_ub4-universal :
    (value p : ℕ) (rest : List ℕ)
    → value < 2 ^ 32
    → read_ub4 (reader p (universal 4 value ++ rest))
      ≡ ok (value, reader (p + length (universal 4 value)) rest)
unfolding read_ub4
read_ub4-universal value p rest h =
    bind-ok (read_universal 4) _ _
      (read_universal-universal 4 value (omega arith) (omega arith) h p rest)
    ∙ rw (mod-eq_of_lt h)

-- An integer of each width that is written to an empty writer is read back, and the reader stands
-- behind it.
pub read-write_ub :
    (value p : ℕ) (rest : List ℕ)
    → (value < 2 ^ 16
        → read_ub2 (reader p (write_ub2 [] value ++ rest))
          ≡ ok (value, reader (p + length (write_ub2 [] value)) rest))
      × (value < 2 ^ 32
          → read_ub4 (reader p (write_ub4 [] value ++ rest))
            ≡ ok (value, reader (p + length (write_ub4 [] value)) rest))
      × (value < 2 ^ 64
          → read_ub8 (reader p (write_ub8 [] value ++ rest))
            ≡ ok (value, reader (p + length (write_ub8 [] value)) rest))
unfolding read_ub2 write_ub2 read_ub8 write_ub8
read-write_ub value p rest = (
  λ h. rw (write_universal-append 2 value (omega arith) (omega arith) h []) (
      bind-ok (read_universal 2) _ _
        (read_universal-universal 2 value (omega arith) (omega arith) h p rest)
      ∙ rw (mod-eq_of_lt h)),
  λ h. rw (write_ub4-append [] value h) (read_ub4-universal value p rest h),
  λ h.
      rw (write_universal-append 8 value (omega arith) (omega arith) h [])
        (read_universal-universal 8 value (omega arith) (omega arith) h p rest),
)

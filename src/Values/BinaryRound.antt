-- ===== src/Values/BinaryRound.antt =====
-- Round trip of the binary floating-point values of src/value_codec.cpp.
use quack_oracle.Base.{
  ℕ, zero, suc, ◌+◌, ◌-◌, ◌*◌, ◌/◌, ◌%◌, ◌^◌, ◌≤◌, ◌<◌, ◌≡◌, refl, sym, ap, ◌∙◌, true, false,
  Bool-cases, inl, inr, List, [], ◌∷◌, leb, ==_refl, if◌then◌else◌, length, map, AreBytes, ok,
  arith,
}
use quack_oracle.Base.Arith.{pow-pos, split_byte}
use native.Mathlib.Nat.{mod-eq_of_lt, mod-lt, pow-suc}
use quack_oracle.Values.Binary.{
  bit_bytes, inverted, mark_sign, unmark_sign, join_bytes, encode_binary, decode_binary,
}

room_below : (M P acc b : ℕ) → 0 < P → b < 256 → (acc + 1) * (P * 256) ≤ M → acc * 256 + b < M
room_below M P acc b hP hb h = grind arith

room_behind : (M P acc b : ℕ) → b < 256 → (acc + 1) * (P * 256) ≤ M → (acc * 256 + b + 1) * P ≤ M
room_behind M P acc b hb h = omega (arith, grown)
  where
    grown : (acc * 256 + b + 1) * P ≤ (acc + 1) * 256 * P
    grown = grind arith

horner :
    (n acc v : ℕ)
    → 256 ^ n * (acc * 256 + v / 256 ^ n % 256) + v % 256 ^ n ≡ 256 ^ suc n * acc + v % 256 ^ suc n
horner n acc v = omega (arith, split_byte n v, ap (λ (t : ℕ). t * acc) (pow-suc 256 n))

join-bit_bytes :
    (size n acc v : ℕ)
    → (acc + 1) * 256 ^ n ≤ 256 ^ size
    → join_bytes size acc (bit_bytes n v) ≡ 256 ^ n * acc + v % 256 ^ n
unfolding join_bytes bit_bytes
join-bit_bytes size zero acc v h = omega arith
join-bit_bytes size (suc n) acc v h =
    let b : ℕ = v / 256 ^ n % 256 in
    let hb : b < 256 = omega arith in
    let space : (acc + 1) * (256 ^ n * 256) ≤ 256 ^ size =
      omega (arith, h, ap (λ (t : ℕ). (acc + 1) * t) (pow-suc 256 n)) in
    ap (λ (t : ℕ). join_bytes size t (bit_bytes n v))
      (mod-eq_of_lt (room_below (256 ^ size) (256 ^ n) acc b (pow-pos n) hb space))
    ∙ join-bit_bytes size n (acc * 256 + b) v (room_behind (256 ^ size) (256 ^ n) acc b hb space)
    ∙ horner n acc v

bit_bytes-AreBytes : (n v : ℕ) → AreBytes (bit_bytes n v)
unfolding bit_bytes
bit_bytes-AreBytes zero v = tt
bit_bytes-AreBytes (suc n) v = (omega arith, bit_bytes-AreBytes n v)

inverted_twice : (xs : List ℕ) → AreBytes xs → map inverted (map inverted xs) ≡ xs
inverted_twice [] h = refl
inverted_twice (x ∷ xs) h =
    let e : inverted (inverted x) ≡ x = omega (arith, h.0) in rw (e, inverted_twice xs h.1) refl

unmark-mark_sign : (xs : List ℕ) → AreBytes xs → unmark_sign (mark_sign xs) ≡ xs
unfolding mark_sign unmark_sign
unmark-mark_sign [] h = refl
unmark-mark_sign (x ∷ xs) h = ground (arith, h.0, inverted_twice xs h.1)

length-map-inverted : (xs : List ℕ) → length (map inverted xs) ≡ length xs
length-map-inverted [] = refl
length-map-inverted (x ∷ xs) = ap suc (length-map-inverted xs)

length-mark_sign : (xs : List ℕ) → length (mark_sign xs) ≡ length xs
unfolding mark_sign
length-mark_sign [] = refl
length-mark_sign (x ∷ xs) = ground (arith, length-map-inverted xs)

length-bit_bytes : (n v : ℕ) → length (bit_bytes n v) ≡ n
unfolding bit_bytes
length-bit_bytes zero v = refl
length-bit_bytes (suc n) v = ap suc (length-bit_bytes n v)

inverted-AreBytes : (xs : List ℕ) → AreBytes (map inverted xs)
inverted-AreBytes [] = tt
inverted-AreBytes (x ∷ xs) = (omega arith, inverted-AreBytes xs)

mark_sign-AreBytes : (xs : List ℕ) → AreBytes xs → AreBytes (mark_sign xs)
unfolding mark_sign
mark_sign-AreBytes [] h = tt
mark_sign-AreBytes (x ∷ xs) h = elim (Bool-cases (leb 128 x)) [
  | inl negative ↦ rw negative (omega (arith, h.0), inverted-AreBytes xs)
  | inr positive ↦ rw positive (ground (arith, positive), h.1)
]

-- A bit pattern of a float (size 4), a double (size 8) or any other size is encoded as that many bytes,
-- which are decoded to the same bits: every value comes back, the signed zeros, infinities and NaNs
-- included.
pub decode-encode_binary :
    (size bits : ℕ)
    → bits < 256 ^ size
    → AreBytes (encode_binary size bits)
      × (length (encode_binary size bits) ≡ size)
      × (decode_binary size (encode_binary size bits) ≡ ok bits)
unfolding encode_binary decode_binary
decode-encode_binary size bits h =
    let n : length (mark_sign (bit_bytes size bits)) ≡ size =
      length-mark_sign _ ∙ length-bit_bytes size bits in
    let joined : join_bytes size 0 (bit_bytes size bits) ≡ bits =
      join-bit_bytes size size 0 bits (omega arith) ∙ omega (arith, mod-eq_of_lt h) in
    (
      mark_sign-AreBytes _ (bit_bytes-AreBytes size bits),
      n,
      rw
          (
            n,
            ==_refl size,
            unmark-mark_sign (bit_bytes size bits) (bit_bytes-AreBytes size bits),
            joined,
          )
          refl,
    )

complement_step :
    (P acc b r : ℕ)
    → b < 256
    → r < P
    → P * (acc * 256 + (255 - b)) + (P - 1 - r) ≡ P * 256 * acc + (P * 256 - 1 - (P * b + r))
complement_step P acc b r hb hr =
    let k : P * b + P * (255 - b) ≡ P * 255 = parts P b (255 - b) (omega arith) in
    let l : P * (acc * 256 + (255 - b)) ≡ P * 256 * acc + P * (255 - b) = omega arith in
    omega (arith, k, l, hr)
  where
    parts : (P b c : ℕ) → b + c ≡ 255 → P * b + P * c ≡ P * 255
    parts P b c e = omega (arith, ap (λ (t : ℕ). P * t) e)

join-inverted :
    (size n acc v : ℕ)
    → (acc + 1) * 256 ^ n ≤ 256 ^ size
    → join_bytes size acc (map inverted (bit_bytes n v))
      ≡ 256 ^ n * acc + (256 ^ n - 1 - v % 256 ^ n)
unfolding join_bytes bit_bytes
join-inverted size zero acc v h = omega arith
join-inverted size (suc n) acc v h =
    let b : ℕ = v / 256 ^ n % 256 in
    let hb : 255 - b < 256 = omega arith in
    let space : (acc + 1) * (256 ^ n * 256) ≤ 256 ^ size =
      omega (arith, h, ap (λ (t : ℕ). (acc + 1) * t) (pow-suc 256 n)) in
    ap (λ (t : ℕ). join_bytes size t (map inverted (bit_bytes n v)))
      (mod-eq_of_lt (room_below (256 ^ size) (256 ^ n) acc (255 - b) (pow-pos n) hb space))
    ∙ join-inverted size n (acc * 256 + (255 - b)) v
        (room_behind (256 ^ size) (256 ^ n) acc (255 - b) hb space)
    ∙ complement_step (256 ^ n) acc b (v % 256 ^ n) (omega arith) (mod-lt v (pow-pos n))
    ∙ rw (split_byte n v, pow-suc 256 n) refl

-- The sign is the top bit.
sign_bit : (P v b r : ℕ) → v ≡ P * b + r → r < P → leb 128 b ≡ leb (128 * P) v
sign_bit P v b r e h = elim (Bool-cases (leb 128 b)) [
  | inl negative ↦ ground (arith, negative, above)
  | inr positive ↦ ground (arith, positive, below)
]
  where
    above : 128 ≤ b → 128 * P ≤ v
    above k = grind arith

    below : b < 128 → v < 128 * P
    below k = grind arith

first_room : (n b : ℕ) → b < 128 → (b + 128 + 1) * 256 ^ n ≤ 256 ^ suc n
first_room n b h = rw (pow-suc 256 n) (grind arith)

first_byte : (n b : ℕ) → b < 128 → 0 * 256 + (b + 128) < 256 ^ suc n
first_byte n b h = rw (pow-suc 256 n) (grind (arith, pow-pos n))

encode_negative :
    (n v : ℕ)
    → leb 128 (v / 256 ^ n % 256) ≡ true
    → encode_binary (suc n) v ≡ map inverted (bit_bytes (suc n) v)
unfolding encode_binary mark_sign bit_bytes
encode_negative n v negative = rw negative refl

encode_positive :
    (n v : ℕ)
    → leb 128 (v / 256 ^ n % 256) ≡ false
    → encode_binary (suc n) v ≡ (v / 256 ^ n % 256 + 128) ∷ bit_bytes n v
unfolding encode_binary mark_sign bit_bytes
encode_positive n v positive = rw positive refl

-- Read as one number, the encoding of bits whose sign bit is clear is the bits plus half of the range,
-- and that of other bits is their complement.
pub join-encode_binary :
    (n bits : ℕ)
    → bits < 256 ^ suc n
    → join_bytes (suc n) 0 (encode_binary (suc n) bits)
      ≡ (if leb (128 * 256 ^ n) bits then 256 ^ suc n - 1 - bits else bits + 128 * 256 ^ n)
unfolding join_bytes
join-encode_binary n v h =
    let P : ℕ = 256 ^ n in
    let b : ℕ = v / 256 ^ n % 256 in
    let whole : v ≡ P * b + v % P = sym (mod-eq_of_lt h) ∙ split_byte n v in
    let below : v % P < P = mod-lt v (pow-pos n) in
    let test : leb 128 b ≡ leb (128 * P) v = sign_bit P v b (v % P) whole below in
    elim (Bool-cases (leb 128 b)) [
      | inl negative ↦
          let high : leb (128 * P) v ≡ true = sym test ∙ negative in
          ap (join_bytes (suc n) 0) (encode_negative n v negative)
          ∙ join-inverted (suc n) (suc n) 0 v (omega arith)
          ∙ rw (high, mod-eq_of_lt h) (omega arith)
      | inr positive ↦
          let low : leb (128 * P) v ≡ false = sym test ∙ positive in
          let small : b < 128 = ground (arith, positive) in
          let first : (0 * 256 + (b + 128)) % 256 ^ suc n ≡ b + 128 =
            mod-eq_of_lt (first_byte n b small) ∙ omega arith in
          ap (join_bytes (suc n) 0) (encode_positive n v positive)
          ∙ ap (λ (t : ℕ). join_bytes (suc n) t (bit_bytes n v)) first
          ∙ join-bit_bytes (suc n) n (b + 128) v (first_room n b small)
          ∙ rw low (omega (arith, whole))
    ]

-- ===== src/Wire/Progress.antt =====
-- What every read of src/byte_buffer.cpp does to the cursor, on any input: it ends, and it takes a
-- prefix of what is left or throws.
use quack_oracle.Base.{
  ℕ, zero, suc, ◌+◌, ◌-◌, ◌*◌, ◌%◌, ◌^◌, ◌≤◌, ◌<◌, ◌≡◌, refl, sym, ap, ◌∙◌, Bool, true, false, List,
  [], ◌∷◌, ◌++◌, Option, none, some, length, take, append_assoc, arith, Result, ok, err, stuck,
  truncated, ProtocolErrorKind, Bool-cases, inl, inr, length-append, take-append-drop, length-take,
  ltb, leb, ◌==◌, ◌||◌, limit_exceeded, malformed,
}
use quack_oracle.Wire.Reader.{
  ByteReader, reader, Read, pure, throw_if, u64, remaining, read_byte, read_raw, read_digits,
  read_universal, read_ub4, null_length_indicator, long_length_indicator, nonempty, read_chunks,
  read_length_prefixed, read_text, read_null_terminated,
}

-- `r'` stands at least `k` bytes behind `r` on the same input.
pub record Behind (k : ℕ) (r r' : ByteReader) : Type 0 where
  pub taken : List ℕ
  pub same : r.rest ≡ taken ++ r'.rest
  pub moved : r'.position ≡ r.position + length taken
  pub least : k ≤ length taken

-- A read ended: it threw, or returned a value with `Q` and took at least `k` bytes. There is no case
-- for a loop that ran out of fuel.
pub data Ended {A : Type 0} (k : ℕ) (Q : A → Type 0) (r : ByteReader)
    : Result (A × ByteReader) → Type 0 where
  returned : {a : A} {r' : ByteReader} → Q a → Behind k r r' → Ended k Q r (ok (a, r'))
  threw : {e : ProtocolErrorKind} → Ended k Q r (err e)

abbrev pub Anything : {A : Type 0} → A → Type 0
Anything a = Unit

Behind-trans : {j k : ℕ} {r s t : ByteReader} → Behind j r s → Behind k s t → Behind (j + k) r t
Behind-trans {j} {k} {r} {s} {t} b c = record {
  taken = b.taken ++ c.taken;
  same = b.same ∙ ap (◌++◌ b.taken) c.same ∙ sym (append_assoc b.taken c.taken t.rest);
  moved = omega (arith, b.moved, c.moved, length-append b.taken c.taken);
  least = omega (arith, b.least, c.least, length-append b.taken c.taken);
}

pub Behind-refl : (r : ByteReader) → Behind 0 r r
Behind-refl r = record { taken = []; same = refl; moved = omega arith; least = omega arith }

extend :
    {B : Type 0} {j k : ℕ} {Q : B → Type 0} {r s : ByteReader} {res : Result (B × ByteReader)}
    → Behind j r s
    → Ended k Q s res
    → Ended (j + k) Q r res
extend b (returned q c) = returned q (Behind-trans b c)
extend b threw = threw

-- The rule for a do block: the first step's value has what the second step needs.
pub after :
    {A B : Type 0} {j k : ℕ} {P : A → Type 0} {Q : B → Type 0} {r : ByteReader}
    {res : Result (A × ByteReader)} (f : A → Read B)
    → Ended j P r res
    → ((a : A) → P a → (s : ByteReader) → Behind j r s → Ended k Q s (f a s))
    → Ended (j + k) Q r (elim res as (λ x. Result (B × ByteReader)) [
      | ok (a, r') ↦ f a r'
      | err e ↦ err e
      | stuck ↦ stuck
    ])
after f (returned {a} {r'} q b) g = extend b (g a q r' b)
after f threw g = threw

pub weaken :
    {A : Type 0} {j k : ℕ} {P Q : A → Type 0} {r : ByteReader} {res : Result (A × ByteReader)}
    → Ended j P r res
    → k ≤ j
    → ((a : A) → P a → Q a)
    → Ended k Q r res
weaken (returned {a} q b) h g =
    returned (g a q)
      (record { taken = b.taken; same = b.same; moved = b.moved; least = omega (arith, b.least) })
weaken threw h g = threw

pub pure-Ended :
    {A : Type 0} {Q : A → Type 0} (a : A) (r : ByteReader) → Q a → Ended 0 Q r (pure a r)
pure-Ended a r q = returned q (Behind-refl r)

pub throw_if-Ended :
    (b : Bool) (e : ProtocolErrorKind) (r : ByteReader)
    → Ended 0 (λ _. b ≡ false) r (throw_if b e r)
throw_if-Ended true e r = threw
throw_if-Ended false e r = returned refl (Behind-refl r)

pub read_byte-Ended : (r : ByteReader) → Ended 1 Anything r (read_byte r)
unfolding read_byte
read_byte-Ended r = go r.rest refl
  where
    go :
        (bs : List ℕ)
        → r.rest ≡ bs
        → Ended 1 Anything r (elim bs as (λ x. Result (ℕ × ByteReader)) [
          | [] ↦ err truncated
          | b ∷ bs ↦ ok (b, reader (r.position + 1) bs)
        ])
    go [] e = threw
    go (b ∷ bs) e =
        returned tt (record { taken = b ∷ []; same = e; moved = refl; least = omega arith })

pub read_raw-Ended :
    (count : ℕ) (r : ByteReader) → Ended count (λ xs. length xs ≡ count) r (read_raw count r)
unfolding read_raw remaining
read_raw-Ended count r = elim (Bool-cases (ltb (length r.rest) count)) [
  | inl e ↦ rw e threw
  | inr e ↦
      let h : length (take count r.rest) ≡ count = ground (arith, length-take count r.rest) in
      rw e (
        returned h (record {
          taken = take count r.rest;
          same = sym (take-append-drop count r.rest);
          moved = omega (arith, h);
          least = omega (arith, h);
        }))
]

read_digits-Ended : (n acc : ℕ) (r : ByteReader) → Ended n Anything r (read_digits n acc r)
unfolding read_digits
read_digits-Ended zero acc r = pure-Ended acc r tt
read_digits-Ended (suc n) acc r =
    weaken (after _ (read_byte-Ended r) (λ b _ s _. read_digits-Ended n ((acc * 256 + b) % u64) s))
      (omega arith) (λ a q. q)

pub read_universal-Ended :
    (maximum : ℕ) (r : ByteReader) → Ended 1 Anything r (read_universal maximum r)
unfolding read_universal
read_universal-Ended maximum r =
    weaken
      (after _ (read_byte-Ended r) λ n _ s _.
        after _ (throw_if-Ended (leb 128 n) malformed s) λ _ _ t _.
          after {k = 0} _ (throw_if-Ended (ltb maximum n) malformed t)
            λ _ _ u _. weaken (read_digits-Ended n 0 u) (omega arith) (λ a q. q))
      (omega arith) (λ a q. q)

pub read_ub4-Ended : (r : ByteReader) → Ended 1 Anything r (read_ub4 r)
unfolding read_ub4
read_ub4-Ended r =
    weaken (after _ (read_universal-Ended 4 r) (λ n _ s _. pure-Ended (n % 2 ^ 32) s tt))
      (omega arith) (λ a q. q)

-- A reader that stands behind another has less left.
pub Behind-shorter : {k : ℕ} {r s : ByteReader} → Behind k r s → length s.rest + k ≤ length r.rest
Behind-shorter {r = r} {s = s} b =
    omega (arith, b.least, ap length b.same, length-append b.taken s.rest)

abbrev pub Within : ℕ → Option (List ℕ) → Type 0
Within maximum none = Unit
Within maximum (some xs) = (0 < length xs) × (length xs ≤ maximum)

nonempty-Within : (maximum : ℕ) (xs : List ℕ) → length xs ≤ maximum → Within maximum (nonempty xs)
nonempty-Within maximum [] h = tt
nonempty-Within maximum (b ∷ bs) h = omega arith

room :
    (maximum : ℕ) (result : List ℕ) (n : ℕ)
    → ltb (maximum - length result) n ≡ false
    → n ≤ maximum - length result
room maximum result n h = ground arith

-- The rounds left are more than the bytes left, and each round takes one at least.
read_chunks-Ended :
    (fuel maximum : ℕ) (result : List ℕ) (r : ByteReader)
    → length r.rest < fuel
    → length result ≤ maximum
    → Ended 1 (Within maximum) r (read_chunks fuel maximum result r)
unfolding read_chunks
read_chunks-Ended zero maximum result r h hm = absurd (omega arith)
read_chunks-Ended (suc fuel) maximum result r h hm =
    weaken
      (after {k = 0} _ (read_ub4-Ended r) λ n _ s b. elim (Bool-cases (n == 0)) [
        | inl e ↦ rw e (pure-Ended (nonempty result) s (nonempty-Within maximum result hm))
        | inr e ↦ rw e (
            weaken
              (after _ (throw_if-Ended (ltb (maximum - length result) n) limit_exceeded s)
                λ _ fits t c. after _ (read_raw-Ended n t) λ chunk size u d.
                  read_chunks-Ended fuel maximum (result ++ chunk) u
                    (omega (arith, Behind-shorter b, Behind-shorter c, Behind-shorter d))
                    (omega (arith, length-append result chunk, room maximum result n fits, size)))
              (omega arith) (λ a q. q))
      ])
      (omega arith) (λ a q. q)

-- On any input `ReadLengthPrefixed` ends: it throws, or it takes at least one byte from the front of
-- the input and returns nothing or a value of 1 to `maximum` bytes.
pub read_length_prefixed-Ended :
    (maximum : ℕ) (r : ByteReader) → Ended 1 (Within maximum) r (read_length_prefixed maximum r)
unfolding read_length_prefixed remaining
read_length_prefixed-Ended maximum r = after {k = 0} _ (read_byte-Ended r) λ n _ s _.
    elim (Bool-cases (n == 0 || n == null_length_indicator)) [
      | inl e ↦ rw e (pure-Ended none s tt)
      | inr e ↦ rw e (elim (Bool-cases (n == long_length_indicator)) [
        | inl l ↦ rw l (
            weaken (read_chunks-Ended (length s.rest + 1) maximum [] s (omega arith) (omega arith))
              (omega arith) (λ a q. q))
        | inr l ↦ rw l (
            after {k = 0} _ (throw_if-Ended (ltb maximum n) limit_exceeded s) λ _ fits t _.
              weaken
                (after {k = 0} _ (read_raw-Ended n t)
                  λ xs size u _. pure-Ended (some xs) u (ground arith))
                (omega arith) (λ a q. q))
      ])
    ]

read_text-Ended :
    (left : ℕ) (result : List ℕ) (r : ByteReader)
    → Ended 0 (λ xs. length xs < length result + left) r (read_text left result r)
unfolding read_text
read_text-Ended zero result r = threw
read_text-Ended (suc left) result r =
    weaken
      (after {k = 0} _ (read_byte-Ended r) λ b _ s _. elim (Bool-cases (b == 0)) [
        | inl e ↦ rw e (pure-Ended result s (omega arith))
        | inr e ↦ rw e (
            weaken (read_text-Ended left (result ++ b ∷ []) s) (omega arith)
              (λ xs h. omega (arith, length-append result (b ∷ []))))
      ])
      (omega arith) (λ a q. q)

-- On any input `ReadNullTerminated` ends: it throws, or it takes a prefix of the input and returns a
-- text of at most `maximum` bytes.
pub read_null_terminated-Ended :
    (maximum : ℕ) (r : ByteReader)
    → Ended 0 (λ xs. length xs ≤ maximum) r (read_null_terminated maximum r)
unfolding read_null_terminated
read_null_terminated-Ended maximum r =
    weaken (read_text-Ended (maximum + 1) [] r) (omega arith) (λ xs h. omega arith)

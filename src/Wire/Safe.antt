-- ===== src/Wire/Safe.antt =====
-- Rules for decoders made of the reads of src/byte_buffer.cpp: a decoder ends on every input, stays
-- within it, and returns values with a property.
use quack_oracle.Base.{
  ℕ, ◌+◌, ◌≤◌, ◌≡◌, Bool, false, length, length-append, ap, arith, ProtocolErrorKind,
}
use quack_oracle.Wire.Reader.{
  ByteReader, Read, ◌>>=◌, ◌>>◌, pure, throw, throw_if, read_byte, read_ub2, read_ub4, read_ub8,
  read_universal, skip, read_length_prefixed,
}
use quack_oracle.Wire.Progress.{
  Ended, threw, Anything, after, weaken, pure-Ended, throw_if-Ended, read_byte-Ended,
  read_raw-Ended, read_universal-Ended, Within, read_length_prefixed-Ended,
}

-- From any reader at `low` or behind it, on an input that ends at `high`, the decoder ends: it throws,
-- or it takes a prefix of what is left and returns a value with `Q`.
abbrev pub Safe : {A : Type 0} → ℕ → ℕ → (A → Type 0) → Read A → Type 0
Safe low high Q m =
    (r : ByteReader) → low ≤ r.position → r.position + length r.rest ≡ high → Ended 0 Q r (m r)

module _ {low high : ℕ} where
  pub Safe-bind :
      {A B : Type 0} {P : A → Type 0} {Q : B → Type 0} {m : Read A} {f : A → Read B}
      → Safe low high P m
      → ((a : A) → P a → Safe low high Q (f a))
      → Safe low high Q (m >>= f)
  Safe-bind {f = f} p q r l e = after f (p r l e) λ a h s b.
      q a h s (omega (arith, b.moved, l))
        (omega (arith, b.moved, e, ap length b.same, length-append b.taken s.rest))

  pub Safe-then :
      {B : Type 0} {P : Unit {0} → Type 0} {Q : B → Type 0} {m : Read (Unit {0})} {n : Read B}
      → Safe low high P m
      → Safe low high Q n
      → Safe low high Q (m >> n)
  Safe-then p q = Safe-bind p (λ _ _. q)

  pub Safe-pure : {A : Type 0} {Q : A → Type 0} {a : A} → Q a → Safe low high Q (pure a)
  Safe-pure {a = a} q r l e = pure-Ended a r q

  pub Safe-throw : {A : Type 0} {Q : A → Type 0} (x : ProtocolErrorKind) → Safe low high Q (throw x)
  Safe-throw x r l e = threw

  pub Safe-throw_if :
      (b : Bool) (x : ProtocolErrorKind) → Safe low high (λ _. b ≡ false) (throw_if b x)
  Safe-throw_if b x r l e = throw_if-Ended b x r

  -- The position, read off between two reads.
  pub Safe-position :
      {A : Type 0} {Q : A → Type 0} (f : ℕ → A)
      → ((n : ℕ) → low ≤ n → n ≤ high → Q (f n))
      → Safe low high Q (λ r. pure (f r.position) r)
  Safe-position f q r l e = pure-Ended (f r.position) r (q r.position l (omega arith))

  pub Safe-byte : Safe low high Anything read_byte
  Safe-byte r l e = weaken (read_byte-Ended r) (omega arith) (λ a q. q)

  Safe-universal : (maximum : ℕ) → Safe low high Anything (read_universal maximum)
  Safe-universal maximum r l e = weaken (read_universal-Ended maximum r) (omega arith) (λ a q. q)

  pub Safe-ub2 : Safe low high (λ n. n ≤ 65535) read_ub2
  unfolding read_ub2
  Safe-ub2 = Safe-bind (Safe-universal 2) (λ n _. Safe-pure (omega arith))

  pub Safe-ub4 : Safe low high (λ n. n ≤ 4294967295) read_ub4
  unfolding read_ub4
  Safe-ub4 = Safe-bind (Safe-universal 4) (λ n _. Safe-pure (omega arith))

  pub Safe-ub8 : Safe low high Anything read_ub8
  unfolding read_ub8
  Safe-ub8 = Safe-universal 8

  pub Safe-skip : (n : ℕ) → Safe low high Anything (skip n)
  unfolding skip
  Safe-skip n =
      Safe-bind (λ r l e. weaken (read_raw-Ended n r) (omega arith) (λ a q. q))
        (λ _ _. Safe-pure tt)

  pub Safe-prefixed : (maximum : ℕ) → Safe low high (Within maximum) (read_length_prefixed maximum)
  Safe-prefixed maximum r l e =
      weaken (read_length_prefixed-Ended maximum r) (omega arith) (λ a q. q)

  -- What a decoder returns has the weaker property too.
  pub Safe-weaken :
      {A : Type 0} {P Q : A → Type 0} {m : Read A}
      → Safe low high P m
      → ((a : A) → P a → Q a)
      → Safe low high Q m
  Safe-weaken p q r l e = weaken (p r l e) (omega arith) q

-- ===== src/Ttc/ErrorBounds.antt =====
-- The decoder of TTC ERROR messages of src/ttc_error.cpp on any input.
use quack_oracle.Base.{
  Ends, returns, throws, ℕ, zero, suc, ◌≤◌, ◌≡◌, refl, Bool, true, false, not, Bool-cases, Option,
  none, some, List, [], ◌∷◌, ltb, leb, ◌==◌, if◌then◌else◌, length, Result, ok, err, stuck, inl,
  inr, arith, limit_exceeded, malformed,
}
use quack_oracle.Wire.Reader.{Read, ByteReader, reader, ◌>>◌, pure, read_ub2, read_ub4, skip}
use quack_oracle.Wire.Progress.{Anything, Ended, returned, threw, Within}
use quack_oracle.Wire.Safe.{
  Safe, Safe-bind, Safe-then, Safe-pure, Safe-throw, Safe-throw_if, Safe-position, Safe-byte,
  Safe-ub2, Safe-ub4, Safe-ub8, Safe-skip, Safe-prefixed,
}
use quack_oracle.Ttc.ErrorInfo.{
  when, ignore, skip_elements, skip_packed, skip_packed_ub2_array, skip_packed_ub4_array,
  skip_messages, skip_batch_messages, skip_rowid, without_trailing, required_text, error_text,
  TtcErrorInfo, error_tail, error_prefix, info_of, decode_error_prefix, max_error_text_bytes,
  max_batch_errors, message_error,
}

-- The text of an error.
abbrev pub TextOf : ℕ → List ℕ → Type 0
TextOf n text = (length text ≤ max_error_text_bytes) × (n ≡ 0 → text ≡ [])

length-without_trailing : (cs : List ℕ) → length (without_trailing cs) ≤ length cs
unfolding without_trailing
length-without_trailing [] = omega arith
length-without_trailing (c ∷ cs) = ground (arith, length-without_trailing cs)

-- A decoded error: what it took, and its text.
pub record Decoded (from to : ℕ) (info : TtcErrorInfo) : Type 0 where
  pub some_bytes : from ≤ info.bytes_consumed
  pub within : info.bytes_consumed ≤ to
  pub text : TextOf info.error_number info.message

module _ {low high : ℕ} where
  pub Safe-ignore :
      {A : Type 0} {P : A → Type 0} {m : Read A}
      → Safe low high P m
      → Safe low high Anything (ignore m)
  Safe-ignore p = Safe-bind p (λ _ _. Safe-pure tt)

  pub Safe-when :
      (b : Bool) {m : Read (Unit {0})}
      → Safe low high Anything m
      → Safe low high Anything (when b m)
  Safe-when true p = p
  Safe-when false p = Safe-pure tt

  Safe-elements :
      {P : ℕ → Type 0} (element : Read ℕ) (marker left : ℕ)
      → Safe low high P element
      → Safe low high Anything (skip_elements element marker left)
  unfolding skip_elements
  Safe-elements element marker zero p = Safe-pure tt
  Safe-elements element marker (suc left) p =
      Safe-then (Safe-when _ (Safe-ignore Safe-ub4))
        (Safe-then (Safe-ignore p) (Safe-elements element marker left p))

  Safe-packed :
      {P : ℕ → Type 0} (element : Read ℕ) (count : ℕ)
      → Safe low high P element
      → Safe low high Anything (skip_packed element count)
  unfolding skip_packed
  Safe-packed element count p = elim (Bool-cases (count == 0)) [
    | inl e ↦ rw e (Safe-pure tt)
    | inr e ↦ rw e (
        Safe-bind Safe-byte
          λ marker _. Safe-then (Safe-elements element marker count p) (Safe-when _ (Safe-skip 1)))
  ]

  Safe-ub2_array : Safe low high Anything skip_packed_ub2_array
  unfolding skip_packed_ub2_array
  Safe-ub2_array = Safe-bind Safe-ub2 (λ count _. Safe-packed read_ub2 count Safe-ub2)

  Safe-ub4_array : Safe low high Anything skip_packed_ub4_array
  unfolding skip_packed_ub4_array
  Safe-ub4_array = Safe-bind Safe-ub4 λ count _.
      Safe-then (Safe-throw_if (ltb max_batch_errors count) limit_exceeded)
        (Safe-packed read_ub4 count Safe-ub4)

  Safe-messages : (left : ℕ) → Safe low high Anything (skip_messages left)
  unfolding skip_messages
  Safe-messages zero = Safe-pure tt
  Safe-messages (suc left) = Safe-then (Safe-ignore Safe-ub2) (
      Safe-then (Safe-ignore (Safe-prefixed max_error_text_bytes))
        (Safe-then (Safe-skip 2) (Safe-messages left)))

  Safe-counted :
      (count : ℕ)
      → Safe low high Anything (if count == 0 then pure tt else (do skip 1; skip_messages count))
  Safe-counted count = elim (Bool-cases (count == 0)) [
    | inl e ↦ rw e (Safe-pure tt)
    | inr e ↦ rw e (Safe-then (Safe-skip 1) (Safe-messages count))
  ]

  Safe-batch_messages : Safe low high Anything skip_batch_messages
  unfolding skip_batch_messages
  Safe-batch_messages = Safe-bind Safe-ub2 λ count _.
      Safe-then (Safe-throw_if (ltb max_batch_errors count) limit_exceeded) (Safe-counted count)

  infixr 5 ◌then◌
  abbrev ◌then◌ :
      {B : Type 0} {P : Unit {0} → Type 0} {Q : B → Type 0} {m : Read (Unit {0})} {n : Read B}
      → Safe low high P m
      → Safe low high Q n
      → Safe low high Q (m >> n)
  p then q = Safe-then p q

  Safe-rowid : Safe low high Anything skip_rowid
  unfolding skip_rowid
  Safe-rowid =
      Safe-ignore Safe-ub4
      then Safe-skip 6
      then Safe-ignore Safe-ub4
      then Safe-ignore Safe-ub2
      then Safe-skip 1
      then Safe-ignore Safe-ub4
      then Safe-ignore Safe-ub2
      then Safe-ignore Safe-ub4
      then Safe-skip 1
      then Safe-skip 1
      then Safe-ignore Safe-ub2
      then Safe-ignore Safe-ub4
      then Safe-bind Safe-ub4
          (λ n _. Safe-when _ (Safe-ignore (Safe-prefixed max_error_text_bytes)))

  Safe-required :
      (n : ℕ) (text : Option (List ℕ))
      → (n == 0) ≡ false
      → Within max_error_text_bytes text
      → Safe low high (TextOf n) (required_text text)
  Safe-required n none e h = Safe-throw malformed
  Safe-required n (some text) e h =
      Safe-pure (omega (arith, length-without_trailing text), λ z. absurd (ground (arith, e, z)))

  Safe-error_text : (n : ℕ) → Safe low high (TextOf n) (error_text n)
  unfolding error_text
  Safe-error_text n = elim (Bool-cases (n == 0)) [
    | inl e ↦ rw e (Safe-pure (omega arith, λ z. refl))
    | inr e ↦
        rw e (Safe-bind (Safe-prefixed max_error_text_bytes) (λ text h. Safe-required n text e h))
  ]

  Safe-error_tail :
      (version cursor row : ℕ) → Safe low high (Decoded low high) (error_tail version cursor row)
  unfolding error_tail
  Safe-error_tail version cursor row = Safe-bind Safe-ub4 λ error_number _.
      Safe-bind Safe-ub8 λ row_count _.
        Safe-when (leb 14 version) (Safe-ignore Safe-ub4 then Safe-ignore Safe-ub4)
        then Safe-bind (Safe-error_text error_number)
            λ text h. Safe-position _ (λ n l u. record { some_bytes = l; within = u; text = h })

  Safe-error_prefix : (version : ℕ) → Safe low high (Decoded low high) (error_prefix version)
  unfolding error_prefix
  Safe-error_prefix version = Safe-bind Safe-byte λ code _.
      Safe-throw_if (not (code == message_error)) malformed
      then Safe-ignore Safe-ub4
      then Safe-ignore Safe-ub2
      then Safe-bind Safe-ub4 λ row _.
        Safe-ignore Safe-ub2
        then Safe-ignore Safe-ub2
        then Safe-ignore Safe-ub2
        then Safe-bind Safe-ub4 λ cursor _.
          Safe-rowid
          then Safe-ub2_array
          then Safe-ub4_array
          then Safe-batch_messages
          then Safe-error_tail version cursor row

info_of-Ends :
    {Q : TtcErrorInfo → Type 0} {r : ByteReader} (x : Result (TtcErrorInfo × ByteReader))
    → Ended 0 Q r x
    → Ends Q (info_of x)
info_of-Ends (ok (a, s)) (returned q b) = returns q
info_of-Ends (err e) threw = throws
info_of-Ends stuck e = elim e [ ]

-- On any bytes and any field version `DecodeTtcErrorPrefix` ends, however long the arrays claim to be:
-- it throws, or it returns an error that took no more bytes than there are, whose text has at most
-- 65535 bytes and is empty when the error number is 0.
pub decode_error_prefix-Ends :
    (message : List ℕ) (version : ℕ)
    → Ends (Decoded 0 (length message)) (decode_error_prefix message version)
unfolding decode_error_prefix
decode_error_prefix-Ends message version =
    info_of-Ends _ (Safe-error_prefix version (reader 0 message) (omega arith) (omega arith))

-- ===== src/Ttc/Outbound.antt =====
-- The bytes that `Send` of src/ttc_channel.cpp puts before a request: the piggybacks of what is queued.
use quack_oracle.Base.{
  Result-cases, ProtocolErrorKind, err, inl, inr, ℕ, ◌+◌, ◌<◌, ◌%◌, ◌≡◌, refl, subst, ap, ◌∙◌, Bool,
  true, false, Bool-cases, List, [], ◌∷◌, ◌++◌, if◌then◌else◌, ◌==◌, Result, ok, arith, inl, inr,
  Ends, returns, throws, Ends-bind, Ends-throw_if, Ends-guard, Ends-map, malformed, limit_exceeded,
}
use quack_oracle.Wire.Writer.{ByteWriter, write_ub4}
use quack_oracle.Ttc.Piggyback.{
  TtcEndToEndAttributes, is_empty, longer_than, check_attributes, encode_end_to_end,
  encode_close_cursors, write_cursor_ids,
}
use quack_oracle.Ttc.Channel.{
  TtcChannel, outbound_bytes, with_header_token, is_nil, end_to_end_part, close_cursors_part,
  next_sequence,
}

-- What one piggyback adds to a request: nothing where there is none, else its encoding with the token
-- of the version.
pub data Piggyback (version : ℕ) (absent : Bool) (encoded : Result (List ℕ)) : List ℕ → Type 0 where
  left_out : absent ≡ true → Piggyback version absent encoded []
  put_in :
      {bytes : List ℕ}
      → absent ≡ false
      → encoded ≡ ok bytes
      → Piggyback version absent encoded (with_header_token bytes version)

-- The sequence behind a piggyback.
abbrev pub behind : Bool → ℕ → ℕ
behind true sequence = sequence
behind false sequence = next_sequence sequence

abbrev Part : ℕ → ℕ → Bool → Result (List ℕ) → List ℕ × ℕ → Type 0
Part version sequence absent encoded out =
    Piggyback version absent encoded out.0 × (out.1 ≡ behind absent sequence)

-- Both piggybacks and the request, as bytes.
pub record Outbound {S : Type 0} (request : List ℕ) (c : TtcChannel S) (bytes : List ℕ)
    : Type 0 where
  pub first : List ℕ
  pub second : List ℕ
  pub end_to_end :
      Piggyback c.wire_field_version
        (is_empty c.pending_end_to_end)
        (encode_end_to_end c.next_piggyback_sequence c.pending_end_to_end)
        first
  pub close_cursors :
      Piggyback c.wire_field_version
        (is_nil c.pending_close_cursors)
        (encode_close_cursors
          (behind (is_empty c.pending_end_to_end) c.next_piggyback_sequence)
          c.pending_close_cursors)
        second
  pub whole : bytes ≡ first ++ second ++ with_header_token request c.wire_field_version

Ends-known : {A : Type 0} {P : A → Type 0} {r : Result A} → Ends P r → Ends (λ a. r ≡ ok a) r
Ends-known (returns p) = returns refl
Ends-known throws = throws

check_attributes-Ends : (a : TtcEndToEndAttributes) → Ends (λ u. Unit {0}) (check_attributes a)
unfolding check_attributes
check_attributes-Ends a = Ends-guard (longer_than a.client_identifier 64) limit_exceeded _ (λ b.
    Ends-guard (longer_than a.module_name 48) limit_exceeded _ (λ c.
      Ends-guard (longer_than a.action 32) limit_exceeded _
        (λ d. Ends-map (Ends-throw_if (longer_than a.client_info 64) limit_exceeded) (λ u e. tt))))

encode_end_to_end-Ends :
    (sequence : ℕ) (a : TtcEndToEndAttributes) → Ends (λ b. Unit {0}) (encode_end_to_end sequence a)
unfolding encode_end_to_end
encode_end_to_end-Ends sequence a =
    Ends-guard (is_empty a) malformed _
      (λ b. Ends-bind _ (check_attributes-Ends a) (λ u v. returns tt))

write_cursor_ids-Ends :
    (w : ByteWriter) (ids : List ℕ) → Ends (λ b. Unit {0}) (write_cursor_ids w ids)
unfolding write_cursor_ids
write_cursor_ids-Ends w [] = returns tt
write_cursor_ids-Ends w (id ∷ ids) = elim (Bool-cases (id == 0)) [
  | inl e ↦ rw e throws
  | inr e ↦ rw e (write_cursor_ids-Ends (write_ub4 w id) ids)
]

encode_close_cursors-Ends :
    (sequence : ℕ) (ids : List ℕ) → Ends (λ b. Unit {0}) (encode_close_cursors sequence ids)
unfolding encode_close_cursors
encode_close_cursors-Ends sequence [] = throws
encode_close_cursors-Ends sequence (id ∷ ids) = write_cursor_ids-Ends _ (id ∷ ids)

end_to_end_part-Ends :
    (version sequence : ℕ) (a : TtcEndToEndAttributes)
    → Ends
        (Part version sequence (is_empty a) (encode_end_to_end sequence a))
        (end_to_end_part version sequence a)
unfolding end_to_end_part
end_to_end_part-Ends version sequence a = elim (Bool-cases (is_empty a)) [
  | inl e ↦ rw e (returns (left_out refl, refl))
  | inr e ↦ rw e (
      Ends-bind _ (Ends-known (encode_end_to_end-Ends sequence a))
        (λ b h. returns (put_in refl h, refl)))
]

close_cursors_part-Ends :
    (version sequence : ℕ) (ids : List ℕ)
    → Ends
        (Part version sequence (is_nil ids) (encode_close_cursors sequence ids))
        (close_cursors_part version sequence ids)
unfolding close_cursors_part
close_cursors_part-Ends version sequence [] = returns (left_out refl, refl)
close_cursors_part-Ends version sequence (id ∷ ids) =
    Ends-bind _ (Ends-known (encode_close_cursors-Ends sequence (id ∷ ids)))
      (λ b h. returns (put_in refl h, refl))

-- How many piggybacks go with the next request.
unfoldable pub parts : {S : Type 0} → TtcChannel S → ℕ
parts c =
    (if is_empty c.pending_end_to_end then 0 else 1)
    + (if is_nil c.pending_close_cursors then 0 else 1)

behind-parts :
    (a b : Bool) (sequence : ℕ)
    → sequence < 256
    → behind b (behind a sequence)
      ≡ (sequence + ((if a then 0 else 1) + (if b then 0 else 1))) % 256
behind-parts true true sequence h = omega arith
behind-parts true false sequence h = omega arith
behind-parts false true sequence h = omega arith
behind-parts false false sequence h = omega arith

pub outbound_bytes-Ends :
    {S : Type 0} (request : List ℕ) (c : TtcChannel S)
    → c.next_piggyback_sequence < 256
    → Ends
        (λ out. Outbound request c out.0 × (out.1 ≡ (c.next_piggyback_sequence + parts c) % 256))
        (outbound_bytes request c)
unfolding outbound_bytes parts
outbound_bytes-Ends request c h =
    Ends-bind _
      (end_to_end_part-Ends c.wire_field_version c.next_piggyback_sequence c.pending_end_to_end)
      (λ first (p, s).
        Ends-bind _ (close_cursors_part-Ends c.wire_field_version first.1 c.pending_close_cursors)
          (λ second (q, t). returns (
            (record {
              first = first.0;
              second = second.0;
              end_to_end = p;
              close_cursors =
                  subst
                    (λ n.
                      Piggyback c.wire_field_version (is_nil c.pending_close_cursors)
                        (encode_close_cursors n c.pending_close_cursors) second.0)
                    s q;
              whole = refl;
            }),
            t
                ∙ ap (behind (is_nil c.pending_close_cursors)) s
                ∙ behind-parts (is_empty c.pending_end_to_end) (is_nil c.pending_close_cursors)
                    c.next_piggyback_sequence h,
          )))

-- Why there are no bytes to send: what the encoder of one piggyback threw.
pub data Unencoded {S : Type 0} (c : TtcChannel S) (e : ProtocolErrorKind) : Type 0 where
  bad_attributes :
      is_empty c.pending_end_to_end ≡ false
      → encode_end_to_end c.next_piggyback_sequence c.pending_end_to_end ≡ err e
      → Unencoded c e
  bad_cursors :
      is_nil c.pending_close_cursors ≡ false
      → encode_close_cursors
          (behind (is_empty c.pending_end_to_end) c.next_piggyback_sequence)
          c.pending_close_cursors
        ≡ err e
      → Unencoded c e

end_to_end_part-err :
    (version sequence : ℕ) (a : TtcEndToEndAttributes) {e : ProtocolErrorKind}
    → end_to_end_part version sequence a ≡ err e
    → (is_empty a ≡ false) × (encode_end_to_end sequence a ≡ err e)
unfolding end_to_end_part
end_to_end_part-err version sequence a h = elim (Bool-cases (is_empty a)) [
  | inl f ↦ absurd (ground (arith, h, f))
  | inr f ↦ elim (Result-cases (encode_end_to_end sequence a)) [
    | inl (b, g) ↦ absurd (ground (arith, h, f, g))
    | inr (inl (x, g)) ↦ (f, ground (arith, h, f, g))
    | inr (inr g) ↦ absurd (ground (arith, h, f, g))
  ]
]

close_cursors_part-err :
    (version sequence : ℕ) (ids : List ℕ) {e : ProtocolErrorKind}
    → close_cursors_part version sequence ids ≡ err e
    → (is_nil ids ≡ false) × (encode_close_cursors sequence ids ≡ err e)
unfolding close_cursors_part
close_cursors_part-err version sequence [] h = absurd (ground (arith, h))
close_cursors_part-err version sequence (id ∷ ids) h =
    elim (Result-cases (encode_close_cursors sequence (id ∷ ids))) [
      | inl (b, g) ↦ absurd (ground (arith, h, g))
      | inr (inl (x, g)) ↦ (refl, ground (arith, h, g))
      | inr (inr g) ↦ absurd (ground (arith, h, g))
    ]

behind_part :
    (version sequence : ℕ) (a : TtcEndToEndAttributes) {out : List ℕ × ℕ}
    → end_to_end_part version sequence a ≡ ok out
    → out.1 ≡ behind (is_empty a) sequence
behind_part version sequence a h = from _ h (end_to_end_part-Ends version sequence a)
  where
    from :
        (r : Result (List ℕ × ℕ)) {out : List ℕ × ℕ}
        → r ≡ ok out
        → Ends (Part version sequence (is_empty a) (encode_end_to_end sequence a)) r
        → out.1 ≡ behind (is_empty a) sequence
    from _ e (returns (p, q)) = ground (arith, e, q)
    from _ e throws = absurd (ground (arith, e))

pub outbound_bytes-err :
    {S : Type 0} (request : List ℕ) (c : TtcChannel S) (e : ProtocolErrorKind)
    → outbound_bytes request c ≡ err e
    → Unencoded c e
unfolding outbound_bytes
outbound_bytes-err request c e h =
    let first =
      end_to_end_part c.wire_field_version c.next_piggyback_sequence c.pending_end_to_end in
    elim (Result-cases first) [
      | inl ((b, s), f) ↦
          let second = close_cursors_part c.wire_field_version s c.pending_close_cursors in
          elim (Result-cases second) [
            | inl (b', g) ↦ absurd (ground (arith, h, f, g))
            | inr (inl (x, g)) ↦
                let same : x ≡ e = ground (arith, h, f, g) in
                let (n, k) =
                  close_cursors_part-err c.wire_field_version s c.pending_close_cursors g in
                let seen : s ≡ behind (is_empty c.pending_end_to_end) c.next_piggyback_sequence =
                  behind_part c.wire_field_version c.next_piggyback_sequence c.pending_end_to_end
                    f in
                bad_cursors n (
                  subst (λ m. encode_close_cursors m c.pending_close_cursors ≡ err e) seen
                    (k ∙ ap err same))
            | inr (inr g) ↦ absurd (ground (arith, h, f, g))
          ]
      | inr (inl (x, f)) ↦
          let same : x ≡ e = ground (arith, h, f) in
          let (n, k) =
            end_to_end_part-err c.wire_field_version c.next_piggyback_sequence c.pending_end_to_end
              f in
          bad_attributes n (k ∙ ap err same)
      | inr (inr f) ↦ absurd (ground (arith, h, f))
    ]

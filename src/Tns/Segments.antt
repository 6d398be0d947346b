-- ===== src/Tns/Segments.antt =====
-- A whole TTC message through src/tns_packet.cpp and src/data_assembler.cpp: cut into DATA packets,
-- decoded packet by packet, and joined again.
use Prim.Native.Nat.{bit_and, bit_or}
use quack_oracle.Base.{
  ℕ, zero, suc, ◌+◌, ◌-◌, ◌*◌, ◌/◌, ◌%◌, ◌^◌, ◌≤◌, ◌<◌, ◌≡◌, ◌≢◌, ap, ◌∙◌, Bool, true, false, min,
  Option, none, some, List, [], ◌∷◌, ◌++◌, leb, ◌==◌, length, arith, Result, ok, err, stuck, take,
  drop, All, append_assoc, take-append-drop, length-take, length-drop, take_all, length-append,
}
use native.Mathlib.Decide.{dec_lt}
use quack_oracle.Tns.Packet.{
  TnsPacket, packet_data, decode_tns_packet, encode_tns_packet, data_packets,
  encode_tns_data_packets, data_flag_eof, data_flag_end_of_response,
}
use quack_oracle.Tns.Assembler.{TnsDataAssembler, push}
use quack_oracle.Tns.Header.{form_limit, wire_of, encode-ok, length-wire_of, decode-wire_of}

abbrev pub assembler : ℕ → List ℕ → TnsDataAssembler
assembler maximum bytes = record { maximum_message_size = maximum; buffered = bytes }

abbrev pub Outcome : Type 0
Outcome = Result (Option (List ℕ)) × TnsDataAssembler × List (List ℕ)

-- A receiver: it decodes packet after packet and pushes each, until a message is complete or a step
-- throws, and returns the packets that it left.
unfoldable pub receive : Bool → ℕ → TnsDataAssembler → List (List ℕ) → Outcome
receive large packet_limit a [] = (ok none, a, [])
receive large packet_limit a (wire ∷ wires) = elim (decode_tns_packet wire large packet_limit) [
  | ok p ↦
      (let (r, a') = push a p in
        elim r [
          | ok message ↦ elim message [
            | none ↦ receive large packet_limit a' wires
            | some bytes ↦ (ok (some bytes), a', wires)
          ]
          | err e ↦ (err e, a', wires)
          | stuck ↦ (stuck, a', wires)
        ])
  | err e ↦ (err e, a, wires)
  | stuck ↦ (stuck, a, wires)
]

abbrev pub EndsMessage : ℕ → Type 0
EndsMessage flags =
    (flags < 2 ^ 16) × (bit_and flags (bit_or data_flag_end_of_response data_flag_eof) ≢ 0)

abbrev pub data_packet : ℕ → List ℕ → TnsPacket
data_packet flags chunk = record {
  packet_type = packet_data;
  flags = 0;
  payload = flags / 256 % 256 ∷ flags % 256 ∷ chunk;
}

module _ (maximum : ℕ) (bytes chunk : List ℕ) (room : length bytes + length chunk ≤ maximum) where
  push-more :
      push (assembler maximum bytes) (data_packet 0 chunk)
      ≡ (ok none, assembler maximum (bytes ++ chunk))
  unfolding push
  push-more = ground arith

  push-last :
      (flags : ℕ)
      → EndsMessage flags
      → push (assembler maximum bytes) (data_packet flags chunk)
        ≡ (ok (some (bytes ++ chunk)), assembler maximum [])
  unfolding push
  push-last flags (narrow, ends) =
      let whole : flags / 256 % 256 * 256 + flags % 256 ≡ flags = omega arith in
      rw whole (ground arith)

module _ (large : Bool) (packet_limit : ℕ) (a b : TnsDataAssembler) (wire : List ℕ) (p : TnsPacket)
    (wires : List (List ℕ)) (decoded : decode_tns_packet wire large packet_limit ≡ ok p) where
  receive-more :
      push a p ≡ (ok none, b)
      → receive large packet_limit a (wire ∷ wires) ≡ receive large packet_limit b wires
  unfolding receive
  receive-more pushed = rw (decoded, receive) (rw (ap (λ x. x.0) pushed, ap (λ x. x.1) pushed))

  receive-last :
      (bytes : List ℕ)
      → push a p ≡ (ok (some bytes), b)
      → receive large packet_limit a (wire ∷ wires) ≡ (ok (some bytes), b, wires)
  unfolding receive
  receive-last bytes pushed =
      rw (decoded, receive) (rw (ap (λ x. x.0) pushed, ap (λ x. x.1) pushed))

module _ (fuel chunk final_flags : ℕ) (large : Bool) (rest wire : List ℕ) where
  pub data_packets-last :
      length rest ≤ chunk
      → encode_tns_packet packet_data 0 (data_packet final_flags rest).payload large ≡ ok wire
      → data_packets (suc fuel) chunk large final_flags rest ≡ ok (wire ∷ [])
  unfolding data_packets
  data_packets-last h enc =
      let e : min chunk (length rest) ≡ length rest = omega arith in
      let q : take (length rest) rest ≡ rest = take_all (length rest) rest (omega arith) in
      let last : (length rest == length rest) ≡ true = ground arith in rw (e, last, q, enc)

  pub data_packets-more :
      (wires : List (List ℕ))
      → chunk < length rest
      → encode_tns_packet packet_data 0 (data_packet 0 (take chunk rest)).payload large ≡ ok wire
      → data_packets fuel chunk large final_flags (drop chunk rest) ≡ ok wires
      → data_packets (suc fuel) chunk large final_flags rest ≡ ok (wire ∷ wires)
  unfolding data_packets
  data_packets-more wires h enc made =
      let e : min chunk (length rest) ≡ chunk = omega arith in
      let last : (chunk == length rest) ≡ false = ground arith in simp (e, last, enc, made)

module _ (large : Bool) (chunk final_flags maximum : ℕ) (positive : 1 ≤ chunk)
    (fits : chunk + 10 ≤ form_limit large) (ends : EndsMessage final_flags) where
  abbrev Delivered : ℕ → List ℕ → List ℕ → Type 0
  Delivered fuel bytes rest =
      (wires : List (List ℕ)) × (data_packets fuel chunk large final_flags rest ≡ ok wires)
      × (receive large (chunk + 10) (assembler maximum bytes) wires
          ≡ (ok (some (bytes ++ rest)), assembler maximum [], []))
      × All (λ wire. length wire ≤ chunk + 10) wires

  -- The last packet, and one before it.
  deliver_last :
      (fuel : ℕ) (bytes rest : List ℕ)
      → length rest ≤ chunk
      → length bytes + length rest ≤ maximum
      → Delivered (suc fuel) bytes rest
  deliver_last fuel bytes rest h room =
      let p = data_packet final_flags rest in
      let enc : encode_tns_packet packet_data 0 p.payload large ≡ ok (wire_of large p) =
        encode-ok large p (omega arith) in
      (
        wire_of large p ∷ [],
        data_packets-last fuel chunk final_flags large rest _ h enc,
        receive-last large (chunk + 10) _ _ _ p []
            (decode-wire_of large p (chunk + 10) (omega arith) (omega arith)) _
            (push-last maximum bytes rest room final_flags ends),
        omega (arith, length-wire_of large p),
      )

  deliver_more :
      (fuel : ℕ) (bytes rest : List ℕ)
      → chunk < length rest
      → length bytes + length rest ≤ maximum
      → Delivered fuel (bytes ++ take chunk rest) (drop chunk rest)
      → Delivered (suc fuel) bytes rest
  deliver_more fuel bytes rest h room (wires, made, got, small) =
      let p = data_packet 0 (take chunk rest) in
      let size : length (take chunk rest) ≡ chunk = omega (arith, length-take chunk rest) in
      let enc : encode_tns_packet packet_data 0 p.payload large ≡ ok (wire_of large p) =
        encode-ok large p (omega arith) in
      (
        wire_of large p ∷ wires,
        data_packets-more fuel chunk final_flags large rest _ wires h enc made,
        receive-more large (chunk + 10) _ _ _ p wires
              (decode-wire_of large p (chunk + 10) (omega arith) (omega arith))
              (push-more maximum bytes (take chunk rest) (omega arith))
            ∙ got
            ∙ ap (λ bs. (ok (some bs), assembler maximum [], []))
                (append_assoc bytes (take chunk rest) (drop chunk rest)
                  ∙ ap (◌++◌ bytes) (take-append-drop chunk rest)),
        (omega (arith, length-wire_of large p), small),
      )

  deliver :
      (fuel : ℕ) (bytes rest : List ℕ)
      → length rest < fuel
      → length bytes + length rest ≤ maximum
      → Delivered fuel bytes rest
  deliver zero bytes rest h room = absurd (omega arith)
  deliver (suc fuel) bytes rest h room = elim (dec_lt chunk (length rest)) [
    | yes more ↦ deliver_more fuel bytes rest more room (
        deliver fuel (bytes ++ take chunk rest) (drop chunk rest)
          (omega (arith, length-drop chunk rest))
          (omega (
            arith,
            length-drop chunk rest,
            length-take chunk rest,
            length-append bytes (take chunk rest),
          )))
    | no last ↦ deliver_last fuel bytes rest (omega arith) room
  ]

-- A message of any size that the receiver allows is cut into packets of at most the negotiated SDU;
-- the receiver that decodes and pushes them gets the message back, has used every packet, and is
-- empty again. The SDU has room for a byte of the message and is no longer than the length field
-- tells, and the final flags carry END_OF_RESPONSE or EOF.
pub receive-encode_data_packets :
    (large : Bool) (sdu final_flags maximum : ℕ) (message : List ℕ)
    → 11 ≤ sdu
    → sdu ≤ form_limit large
    → EndsMessage final_flags
    → length message ≤ maximum
    → (wires : List (List ℕ)) × (encode_tns_data_packets message large sdu final_flags ≡ ok wires)
      × (receive large sdu (assembler maximum []) wires
          ≡ (ok (some message), assembler maximum [], []))
      × All (λ wire. length wire ≤ sdu) wires
unfolding encode_tns_data_packets
receive-encode_data_packets large sdu final_flags maximum message h hl ends room =
    let e : sdu - 8 - 2 + 10 ≡ sdu = omega arith in
    let t : leb sdu 10 ≡ false = ground arith in
    let (wires, made, got, small) =
      deliver large (sdu - 8 - 2) final_flags maximum (omega arith) (omega arith) ends
        (length message + 1) [] message (omega arith) (omega arith) in
    (wires, rw t made, rw e at got, rw e at small)

-- ===== src/Tns/Exchange.antt =====
-- `TnsPacketStream` of src/byte_stream.cpp over a reliable stream: packets sent and received whole, and
-- what the counters count.
use quack_oracle.Base.{
  ℕ, ◌+◌, ◌-◌, ◌≤◌, ◌≡◌, refl, sym, ap, ◌∙◌, Bool, true, false, List, [], ◌∷◌, ◌++◌, ltb, length,
  arith, if◌then◌else◌, ok, append_assoc,
}
use quack_oracle.Base.Exec.{Exec, bind-ok}
use quack_oracle.Tns.Packet.{TnsPacket, max_packet_length, declared_length, length_field}
use quack_oracle.Tns.Header.{form_limit, wire_of, encode-ok, decode-wire_of, length-wire_of}
use quack_oracle.Tns.Stream.{
  ByteStream, TnsPacketStream, on_transport, read_exact, write_all, count_sent, count_received,
  outbound, send_wire, send, receive,
}
use quack_oracle.Tns.Delivery.{Reliable, read_exact-Reads, write_all-sent}

-- A packet that both the length field and the limit of a stream allow.
abbrev pub Fits : {S : Type 0} → TnsPacketStream S → TnsPacket → Type 0
Fits p packet =
    (8 + length packet.payload ≤ form_limit p.large_length)
    × (8 + length packet.payload ≤ p.packet_limit)

abbrev header_of : Bool → TnsPacket → List ℕ
header_of large p =
    length_field large (8 + length p.payload) ++ p.packet_type ∷ p.flags ∷ 0 ∷ 0 ∷ []

header-wire_of : (large : Bool) (p : TnsPacket) → header_of large p ++ p.payload ≡ wire_of large p
header-wire_of large p = append_assoc (length_field large _) _ p.payload

length-header_of : (large : Bool) (p : TnsPacket) → length (header_of large p) ≡ 8
unfolding length_field
length-header_of true p = refl
length-header_of false p = refl

declared-header_of :
    (large : Bool) (p : TnsPacket)
    → 8 + length p.payload ≤ form_limit large
    → declared_length large (header_of large p) ≡ 8 + length p.payload
unfolding declared_length length_field
declared-header_of true p h = omega arith
declared-header_of false p h = omega arith

under_maximum :
    (large : Bool) (n : ℕ) → 8 + n ≤ form_limit large → ltb max_packet_length (8 + n) ≡ false
under_maximum true n h = ground arith
under_maximum false n h = ground arith

on_transport-ok :
    {S A : Type 0} (m : Exec S A) (p : TnsPacketStream S) {a : A} (t : S)
    → m p.transport ≡ (ok a, t)
    → on_transport m p ≡ (ok a, record p { transport = t })
on_transport-ok m p t e = ap (λ x. (x.0, record p { transport = x.1 })) e

module _ (stream : ByteStream) (law : Reliable stream) (p : TnsPacketStream stream.State)
    (packet : TnsPacket) (fits : Fits p packet) where
  abbrev wire : List ℕ
  wire = wire_of p.large_length packet

  abbrev pub Sent : TnsPacketStream stream.State → Type 0
  Sent q =
      (law.sent q.transport ≡ law.sent p.transport ++ wire)
      × (law.pending q.transport ≡ law.pending p.transport)
      × (q.bytes_sent ≡ p.bytes_sent + length wire)
      × (q.bytes_received ≡ p.bytes_received)
      × (q.round_trips ≡ p.round_trips)
      × (q.awaiting_response ≡ true)

  outbound-ok : outbound p packet ≡ ok wire
  unfolding outbound
  outbound-ok =
      let f : ltb p.packet_limit (length wire) ≡ false =
        ground (arith, length-wire_of p.large_length packet) in
      rw (encode-ok p.large_length packet fits.0) (rw f)

  -- `Send` writes the wire form of the packet, counts it and waits for a response.
  pub send-Sent : (q : TnsPacketStream stream.State) × (send stream packet p ≡ (ok tt, q)) × Sent q
  unfolding send send_wire count_sent
  send-Sent =
      let (t, wrote, sent, same) = write_all-sent stream law wire p.transport in
      (
        count_sent (length wire) (record p { transport = t }),
        rw (outbound-ok, send)
            (bind-ok (on_transport (write_all stream wire)) _ p
              (on_transport-ok (write_all stream wire) p t wrote)),
        (sent, same, refl, refl, refl, refl),
      )

  abbrev pub Received : List ℕ → TnsPacketStream stream.State → Type 0
  Received rest q =
      (law.pending q.transport ≡ rest)
      × (law.sent q.transport ≡ law.sent p.transport)
      × (q.bytes_received ≡ p.bytes_received + length wire)
      × (q.bytes_sent ≡ p.bytes_sent)
      × (q.round_trips ≡ (if p.awaiting_response then p.round_trips + 1 else p.round_trips))
      × (q.awaiting_response ≡ false)

  receive_run :
      (t u : stream.State)
      → read_exact stream 8 p.transport ≡ (ok (header_of p.large_length packet), t)
      → read_exact stream (length packet.payload) t ≡ (ok packet.payload, u)
      → receive stream p ≡ (ok packet, count_received (length wire) (record p { transport = u }))
  unfolding receive
  receive_run t u read read' =
      let n : ℕ = length packet.payload in
      let d : declared_length p.large_length (header_of p.large_length packet) ≡ 8 + n =
        declared-header_of p.large_length packet fits.0 in
      let z : ltb (8 + n) 8 ≡ false = ground arith in
      let f : ltb p.packet_limit (8 + n) ≡ false = ground arith in
      let g : ltb max_packet_length (8 + n) ≡ false = under_maximum p.large_length n fits.0 in
      let k : 8 + n - 8 ≡ n = omega arith in
      bind-ok (on_transport (read_exact stream 8)) _ p
        (on_transport-ok (read_exact stream 8) p t read)
      ∙ rw (d, z, f, g, k)
          (bind-ok (on_transport (read_exact stream n)) _ (record p { transport = t })
              (on_transport-ok (read_exact stream n) (record p { transport = t }) u read')
            ∙ rw (header-wire_of p.large_length packet) (
                rw (decode-wire_of p.large_length packet p.packet_limit fits.0 fits.1)
                  (rw (length-wire_of p.large_length packet))))

  -- `Receive` returns the packet whose wire form stands first on the stream, leaves what stands behind
  -- it, and counts a round trip exactly when a request was outstanding.
  pub receive-Received :
      (rest : List ℕ)
      → law.pending p.transport ≡ wire ++ rest
      → (q : TnsPacketStream stream.State) × (receive stream p ≡ (ok packet, q)) × Received rest q
  unfolding count_received
  receive-Received rest e =
      let large = p.large_length in
      let header : List ℕ = header_of large packet in
      let d : declared_length large header ≡ 8 + length packet.payload =
        declared-header_of large packet fits.0 in
      let (t, read, front, same) =
        read_exact-Reads stream law header (packet.payload ++ rest) p.transport (
          e
          ∙ ap (λ w. w ++ rest) (sym (header-wire_of large packet))
          ∙ append_assoc header packet.payload rest) in
      let (u, read', front', same') = read_exact-Reads stream law packet.payload rest t front in
      (
        count_received (length wire) (record p { transport = u }),
        receive_run t u (rw (length-header_of large packet) at read) read',
        (front', same' ∙ same, refl, refl, refl, refl),
      )

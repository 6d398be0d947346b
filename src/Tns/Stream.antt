-- ===== src/Tns/Stream.antt =====
-- src/byte_stream.cpp: whole packets over a byte stream that may read and write less than it is asked
-- for. The stream (`ByteStream`, implemented over OpenSSL and by test doubles) is a parameter. Its
-- `read` returns the bytes that it stored, whose number is the count that the source sees. Counters
-- are 64-bit and are taken not to wrap.
use quack_oracle.Base.{
  ℕ, zero, suc, ◌+◌, ◌-◌, Bool, true, false, ◌||◌, List, [], ◌∷◌, ◌++◌, ltb, ◌==◌, if◌then◌else◌,
  length, drop, Result, ok, err, stuck, truncated, malformed, limit_exceeded, invalid_state,
}
use quack_oracle.Base.Results
use quack_oracle.Base.Exec.{Exec, ◌>>=◌, ◌>>◌, pure, throw_if, lift, modify}
use quack_oracle.Tns.Packet.{
  TnsPacket, packet_header_size, max_packet_length, decode_tns_packet, encode_tns_packet,
  declared_length,
}

pub record ByteStream : Type 1 where
  pub State : Type 0
  pub read : ℕ → Exec State (List ℕ)
  pub write : List ℕ → Exec State ℕ

module _ (stream : ByteStream) where
  -- A round reads at least one byte, so `size + 1` rounds are enough.
  unfoldable pub read_exact_loop : ℕ → ℕ → Exec stream.State (List ℕ)
  read_exact_loop zero size s = (stuck, s)
  read_exact_loop (suc fuel) zero s = (ok [], s)
  read_exact_loop (suc fuel) (suc size) s =
      (do
        bytes ← stream.read (suc size)
        throw_if (length bytes == 0) truncated
        throw_if (ltb (suc size) (length bytes)) malformed
        rest ← read_exact_loop fuel (suc size - length bytes)
        pure (bytes ++ rest))
        s

  unfoldable pub read_exact : ℕ → Exec stream.State (List ℕ)
  read_exact size = read_exact_loop (size + 1) size

  unfoldable pub write_all_loop : ℕ → List ℕ → Exec stream.State (Unit {0})
  write_all_loop zero source s = (stuck, s)
  write_all_loop (suc fuel) [] s = (ok tt, s)
  write_all_loop (suc fuel) (b ∷ bs) s =
      (do
        count ← stream.write (b ∷ bs)
        throw_if (count == 0 || ltb (length (b ∷ bs)) count) invalid_state
        write_all_loop fuel (drop count (b ∷ bs)))
        s

  unfoldable pub write_all : List ℕ → Exec stream.State (Unit {0})
  write_all source = write_all_loop (length source + 1) source

pub record TnsPacketStream (S : Type 0) : Type 0 where
  pub transport : S
  pub large_length : Bool
  pub packet_limit : ℕ
  pub bytes_sent : ℕ
  pub bytes_received : ℕ
  pub round_trips : ℕ
  pub awaiting_response : Bool

-- A call of the stream below.
abbrev pub on_transport : {S A : Type 0} → Exec S A → Exec (TnsPacketStream S) A
on_transport m p = let (r, s) = m p.transport in (r, record p { transport = s })

unfoldable pub new_packet_stream : {S : Type 0} → S → Bool → ℕ → Result (TnsPacketStream S)
new_packet_stream s large packet_limit =
    if ltb packet_limit packet_header_size || ltb max_packet_length packet_limit
    then err malformed
    else ok (record {
      transport = s;
      large_length = large;
      packet_limit = packet_limit;
      bytes_sent = 0;
      bytes_received = 0;
      round_trips = 0;
      awaiting_response = false;
    })

module _ {S : Type 0} where
  -- `bytes_sent += wire.size(); awaiting_response = true;`
  unfoldable pub count_sent : ℕ → TnsPacketStream S → TnsPacketStream S
  count_sent n p = record p { bytes_sent = p.bytes_sent + n; awaiting_response = true }

  -- `bytes_received += wire.size(); if (awaiting_response.exchange(false)) round_trips++;`
  unfoldable pub count_received : ℕ → TnsPacketStream S → TnsPacketStream S
  count_received n p = record p {
    bytes_received = p.bytes_received + n;
    round_trips = if p.awaiting_response then p.round_trips + 1 else p.round_trips;
    awaiting_response = false;
  }

  -- The wire form of a packet to send, checked against the limit.
  unfoldable pub outbound : TnsPacketStream S → TnsPacket → Result (List ℕ)
  outbound p packet =
      Results.◌>>=◌
        (encode_tns_packet packet.packet_type packet.flags packet.payload p.large_length)
        (λ wire. if ltb p.packet_limit (length wire) then err limit_exceeded else ok wire)

  -- The loop of `Send` over a group of packets.
  unfoldable pub outbound_all : TnsPacketStream S → List TnsPacket → Result (List ℕ)
  outbound_all p [] = ok []
  outbound_all p (packet ∷ packets) =
      Results.◌>>=◌ (outbound p packet)
        (λ wire. Results.◌>>=◌ (outbound_all p packets) (λ wires. ok (wire ++ wires)))

module _ (stream : ByteStream) where
  unfoldable pub send_wire : List ℕ → Exec (TnsPacketStream stream.State) (Unit {0})
  send_wire wire = do on_transport (write_all stream wire); modify (count_sent (length wire))

  -- `Send(const TnsPacket &)`
  unfoldable pub send : TnsPacket → Exec (TnsPacketStream stream.State) (Unit {0})
  send packet p = (do wire ← lift (outbound p packet); send_wire wire) p

  -- `Send(const std::vector<TnsPacket> &)`
  unfoldable pub send_group : List TnsPacket → Exec (TnsPacketStream stream.State) (Unit {0})
  send_group [] p = (err malformed, p)
  send_group (packet ∷ packets) p =
      (do wire ← lift (outbound_all p (packet ∷ packets)); send_wire wire) p

  unfoldable pub receive : Exec (TnsPacketStream stream.State) TnsPacket
  receive p =
      (do
        header ← on_transport (read_exact stream packet_header_size)
        let declared = declared_length p.large_length header
        throw_if (ltb declared packet_header_size) malformed
        throw_if (ltb p.packet_limit declared || ltb max_packet_length declared) limit_exceeded
        body ← on_transport (read_exact stream (declared - packet_header_size))
        modify (count_received declared)
        lift (decode_tns_packet (header ++ body) p.large_length p.packet_limit))
        p

-- ===== src/Ttc/Channel.antt =====
-- src/ttc_channel.cpp: one channel of TTC messages over a packet stream. The stream is an interface,
-- which src/byte_stream.cpp implements. Calls are synchronous, so that a method is one step; a method
-- that throws leaves the channel as far as it got.
use quack_oracle.Base.{
  ℕ, ◌+◌, ◌%◌, Bool, true, false, not, ◌&&◌, ◌||◌, none, some, List, [], ◌∷◌, ◌++◌, ltb, leb, ◌==◌,
  if◌then◌else◌, Result, ok, err, stuck, malformed, invalid_state, unsupported,
}
use quack_oracle.Base.Exec.{Exec, ◌>>=◌, ◌>>◌, throw_if, lift, modify}
use quack_oracle.Base.Results
use quack_oracle.Tns.Packet.{
  TnsPacket, packet_header_size, max_packet_length, decode_tns_packet, encode_tns_data_packets,
}
use quack_oracle.Tns.Stream.{ByteStream, TnsPacketStream}
use quack_oracle.Tns.Stream
use quack_oracle.Tns.Assembler.{TnsDataAssembler, new_assembler}
use quack_oracle.Ttc.Piggyback.{
  Text, TtcEndToEndAttributes, no_attributes, is_empty, encode_close_cursors, encode_end_to_end,
  message_piggyback,
}
use quack_oracle.Ttc.Acknowledgement.{message_function}

-- What the channel uses of a packet stream.
pub record PacketStream : Type 1 where
  pub State : Type 0
  pub send : TnsPacket → Exec State (Unit {0})
  pub receive : Exec State TnsPacket

-- `TnsPacketStream` over any byte stream.
abbrev pub over : ByteStream → PacketStream
over stream = record {
  State = TnsPacketStream stream.State;
  send = Stream.send stream;
  receive = Stream.receive stream;
}

pub record TtcChannel (S : Type 0) : Type 0 where
  pub packets : S
  pub negotiated_sdu : ℕ
  pub assembler : TnsDataAssembler
  pub pending_close_cursors : List ℕ
  pub pending_end_to_end : TtcEndToEndAttributes
  pub next_piggyback_sequence : ℕ
  pub wire_field_version : ℕ
  pub cancellation_supported : Bool
  pub cancellation_requested : Bool

abbrev pub packet_marker : ℕ
packet_marker = 12

abbrev pub function_ping : ℕ
function_ping = 147

abbrev pub field_version_header_token : ℕ
field_version_header_token = 18

-- A marker packet with its kind in the last byte.
abbrev pub marker : ℕ → ℕ → TnsPacket
marker flags kind = record {
  packet_type = packet_marker;
  flags = flags;
  payload = 1 ∷ 0 ∷ kind ∷ [];
}

abbrev pub on_packets : {S A : Type 0} → Exec S A → Exec (TtcChannel S) A
on_packets m c = let (r, s) = m c.packets in (r, record c { packets = s })

module _ {S : Type 0} where
  unfoldable pub new_channel : S → ℕ → ℕ → Bool → Result (TtcChannel S)
  new_channel packets negotiated_sdu maximum supported =
      Results.◌>>=◌ (new_assembler maximum) λ assembler.
        if leb negotiated_sdu (packet_header_size + 2) || ltb max_packet_length negotiated_sdu
        then err malformed
        else ok (record {
          packets = packets;
          negotiated_sdu = negotiated_sdu;
          assembler = assembler;
          pending_close_cursors = [];
          pending_end_to_end = no_attributes;
          next_piggyback_sequence = 1;
          wire_field_version = 0;
          cancellation_supported = supported;
          cancellation_requested = false;
        })

  unfoldable pub queue_close_cursor : ℕ → Exec (TtcChannel S) (Unit {0})
  queue_close_cursor cursor_id c =
      if cursor_id == 0
      then (err malformed, c)
      else (ok tt, record c { pending_close_cursors = c.pending_close_cursors ++ cursor_id ∷ [] })

-- `if (attributes.x) pending_end_to_end.x = attributes.x;`
abbrev pub overwrite : Text → Text → Text
overwrite none old = old
overwrite (some t) old = some t

unfoldable pub merge_attributes :
    TtcEndToEndAttributes → TtcEndToEndAttributes → TtcEndToEndAttributes
merge_attributes new old = record {
  client_identifier = overwrite new.client_identifier old.client_identifier;
  module_name = overwrite new.module_name old.module_name;
  action = overwrite new.action old.action;
  client_info = overwrite new.client_info old.client_info;
}

unfoldable pub queue_end_to_end_attributes :
    {S : Type 0} → TtcEndToEndAttributes → TtcChannel S → TtcChannel S
unfolding merge_attributes
queue_end_to_end_attributes attributes c = record c {
  pending_end_to_end = merge_attributes attributes c.pending_end_to_end;
}

-- `WithHeaderToken`
unfoldable pub with_header_token : List ℕ → ℕ → List ℕ
with_header_token (a ∷ b ∷ c ∷ rest) field_version =
    if leb field_version_header_token field_version
      && (a == message_function || a == message_piggyback)
    then a ∷ b ∷ c ∷ 0 ∷ rest
    else a ∷ b ∷ c ∷ rest
with_header_token message field_version = message

-- The piggyback sequence after one more, a byte.
abbrev pub next_sequence : ℕ → ℕ
next_sequence sequence = (sequence + 1) % 256

-- The end-to-end piggyback, where attributes are queued, with the next sequence.
unfoldable pub end_to_end_part : ℕ → ℕ → TtcEndToEndAttributes → Result (List ℕ × ℕ)
end_to_end_part version sequence attributes =
    if is_empty attributes
    then ok ([], sequence)
    else Results.◌>>=◌ (encode_end_to_end sequence attributes)
        (λ bytes. ok (with_header_token bytes version, next_sequence sequence))

-- The piggyback that closes the queued cursors, where there are any.
unfoldable pub close_cursors_part : ℕ → ℕ → List ℕ → Result (List ℕ × ℕ)
close_cursors_part version sequence [] = ok ([], sequence)
close_cursors_part version sequence (id ∷ ids) =
    Results.◌>>=◌ (encode_close_cursors sequence (id ∷ ids))
      (λ bytes. ok (with_header_token bytes version, next_sequence sequence))

-- The bytes to send, and the sequence after them.
unfoldable pub outbound_bytes : {S : Type 0} → List ℕ → TtcChannel S → Result (List ℕ × ℕ)
outbound_bytes request c =
    Results.◌>>=◌
      (end_to_end_part c.wire_field_version c.next_piggyback_sequence c.pending_end_to_end)
      λ first.
        Results.◌>>=◌ (close_cursors_part c.wire_field_version first.1 c.pending_close_cursors)
          λ second.
            ok (first.0 ++ second.0 ++ with_header_token request c.wire_field_version, second.1)

-- The end of `Send`: what was queued is sent.
unfoldable pub sent : {S : Type 0} → ℕ → TtcChannel S → TtcChannel S
sent sequence c = record c {
  pending_close_cursors = [];
  pending_end_to_end = no_attributes;
  next_piggyback_sequence = sequence;
}

abbrev pub is_nil : List ℕ → Bool
is_nil [] = true
is_nil (b ∷ bs) = false

module _ (stream : PacketStream) where
  -- The loop of `Send` over the packets.
  unfoldable pub send_packets : List (List ℕ) → Exec (TtcChannel stream.State) (Unit {0})
  send_packets [] c = (ok tt, c)
  send_packets (wire ∷ wires) c =
      (do
        packet ← lift (decode_tns_packet wire true c.negotiated_sdu)
        on_packets (stream.send packet)
        send_packets wires)
        c

  unfoldable pub send : List ℕ → Exec (TtcChannel stream.State) (Unit {0})
  send request c =
      (do
        throw_if (is_nil request) malformed
        outbound ← lift (outbound_bytes request c)
        wires ← lift (encode_tns_data_packets outbound.0 true c.negotiated_sdu 0)
        send_packets wires
        modify (sent outbound.1))
        c

  -- `Cancel`, when the flag was set: what the marker's sending did, with the flag reset where it threw.
  unfoldable pub after_interrupt :
      Result (Unit {0}) × TtcChannel stream.State → Result (Unit {0}) × TtcChannel stream.State
  after_interrupt (ok u, c) = (ok tt, c)
  after_interrupt (err e, c) = (err e, record c { cancellation_requested = false })
  after_interrupt (stuck, c) = (stuck, c)

  unfoldable pub cancel : Exec (TtcChannel stream.State) (Unit {0})
  cancel c =
      if not c.cancellation_supported
      then (err unsupported, c)
      else if c.cancellation_requested
      then (err invalid_state, c)
      else after_interrupt
          (on_packets (stream.send (marker 0 3)) (record c { cancellation_requested = true }))

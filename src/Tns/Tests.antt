-- ===== src/Tns/Tests.antt =====
-- Runs of the framing code, the theorems about it at small inputs, and a stream that meets what it
-- relies on: one that moves at most three bytes a call.
use quack_oracle.Base.{
  ℕ, ◌≤◌, ◌<◌, ◌≡◌, ◌≢◌, refl, sym, true, false, min, some, List, [], ◌∷◌, ◌++◌, length, take, drop,
  arith, All, ok, err, malformed, limit_exceeded, truncated, take-append-drop, length-take, ◌⊎◌,
}
use quack_oracle.Tns.Packet.{
  TnsPacket, declared_length, length_field, decode_tns_packet, encode_tns_packet, data_packets,
  encode_tns_data_packets,
}
use quack_oracle.Tns.Header.{form_limit, decode-encode}
use quack_oracle.Tns.Segments.{assembler, receive-encode_data_packets}
use quack_oracle.Tns.Segments
use quack_oracle.Tns.Stream.{ByteStream, TnsPacketStream, send, receive}
use quack_oracle.Tns.Delivery.{Reliable}
use quack_oracle.Tns.Exchange.{Sent, Received, send-Sent, receive-Received}

abbrev hello : TnsPacket
hello = record { packet_type = 6; flags = 0; payload = 1 ∷ 2 ∷ 3 ∷ 4 ∷ [] }

hello_wire :
    encode_tns_packet 6 0 (1 ∷ 2 ∷ 3 ∷ 4 ∷ []) true
    ≡ ok (0 ∷ 0 ∷ 0 ∷ 12 ∷ 6 ∷ 0 ∷ 0 ∷ 0 ∷ 1 ∷ 2 ∷ 3 ∷ 4 ∷ [])
unfolding encode_tns_packet length_field
hello_wire = refl

short_header : decode_tns_packet (0 ∷ 8 ∷ 0 ∷ []) false 100 ≡ err truncated
unfolding decode_tns_packet
short_header = refl

trailing_byte : decode_tns_packet (0 ∷ 8 ∷ 0 ∷ 0 ∷ 6 ∷ 0 ∷ 0 ∷ 0 ∷ 1 ∷ []) false 100 ≡ err malformed
unfolding decode_tns_packet declared_length
trailing_byte = refl

-- Three bytes with one byte of room a packet.
three_packets :
    encode_tns_data_packets (7 ∷ 8 ∷ 9 ∷ []) false 11 0x2000
    ≡ ok (
        (0 ∷ 11 ∷ 0 ∷ 0 ∷ 6 ∷ 0 ∷ 0 ∷ 0 ∷ 0 ∷ 0 ∷ 7 ∷ [])
        ∷ (0 ∷ 11 ∷ 0 ∷ 0 ∷ 6 ∷ 0 ∷ 0 ∷ 0 ∷ 0 ∷ 0 ∷ 8 ∷ [])
        ∷ (0 ∷ 11 ∷ 0 ∷ 0 ∷ 6 ∷ 0 ∷ 0 ∷ 0 ∷ 0x20 ∷ 0 ∷ 9 ∷ [])
        ∷ [])
unfolding encode_tns_data_packets data_packets encode_tns_packet length_field
three_packets = refl

decode-encode_example :
    ((form_limit true < 12)
      × (encode_tns_packet 6 0 (1 ∷ 2 ∷ 3 ∷ 4 ∷ []) true ≡ err limit_exceeded))
    ⊎ ((wire : List ℕ) × (encode_tns_packet 6 0 (1 ∷ 2 ∷ 3 ∷ 4 ∷ []) true ≡ ok wire)
        × (length wire ≡ 12)
        × ((packet_limit : ℕ)
            → length wire ≤ packet_limit
            → decode_tns_packet wire true packet_limit ≡ ok hello))
decode-encode_example = decode-encode true hello

abbrev hello_bytes : List ℕ
hello_bytes = 0 ∷ 0 ∷ 0 ∷ 12 ∷ 6 ∷ 0 ∷ 0 ∷ 0 ∷ 1 ∷ 2 ∷ 3 ∷ 4 ∷ []

hello_decoded : decode_tns_packet hello_bytes true 100 ≡ ok hello
unfolding decode_tns_packet declared_length
hello_decoded = refl

receive-encode_data_packets_example :
    (wires : List (List ℕ)) × (encode_tns_data_packets (7 ∷ 8 ∷ 9 ∷ []) true 12 0x2000 ≡ ok wires)
    × (Segments.receive true 12 (assembler 64 []) wires
        ≡ (ok (some (7 ∷ 8 ∷ 9 ∷ [])), assembler 64 [], []))
    × All (λ wire. length wire ≤ 12) wires
receive-encode_data_packets_example =
    receive-encode_data_packets true 12 0x2000 64 (7 ∷ 8 ∷ 9 ∷ []) (omega arith) (omega arith)
      (omega arith, λ e. absurd (omega arith)) (omega arith)

record Pipe : Type 0 where
  incoming : List ℕ
  outgoing : List ℕ

abbrev slow : ByteStream
slow = record {
  State = Pipe;
  read = λ n s. (ok (take (min 3 n) s.incoming), record s { incoming = drop (min 3 n) s.incoming });
  write = λ source s. (
    ok (min 3 (length source)),
    record s { outgoing = s.outgoing ++ take (min 3 (length source)) source },
  );
}

slow_read :
    (n : ℕ) (s : Pipe)
    → 0 < n
    → s.incoming ≢ []
    → (bytes : List ℕ) × (t : Pipe) × (slow.read n s ≡ (ok bytes, t))
      × (0 < length bytes)
      × (length bytes ≤ n)
      × (s.incoming ≡ bytes ++ t.incoming)
      × (t.outgoing ≡ s.outgoing)
slow_read n s h more = (
  take (min 3 n) s.incoming,
  record s { incoming = drop (min 3 n) s.incoming },
  refl,
  omega (arith, length-take (min 3 n) s.incoming, some_pending s.incoming more),
  omega (arith, length-take (min 3 n) s.incoming),
  sym (take-append-drop (min 3 n) s.incoming),
  refl,
)
  where
    some_pending : (xs : List ℕ) → xs ≢ [] → 0 < length xs
    some_pending [] h = absurd (h refl)
    some_pending (x ∷ xs) h = omega arith

slow_Reliable : Reliable slow
slow_Reliable = record {
  pending = λ s. s.incoming;
  sent = λ s. s.outgoing;
  read_law = slow_read;
  write_law = λ source s h. (
    min 3 (length source),
    record s { outgoing = s.outgoing ++ take (min 3 (length source)) source },
    refl,
    omega arith,
    omega arith,
    refl,
    refl,
  );
}

abbrev opened : TnsPacketStream Pipe
opened = record {
  transport = record { incoming = hello_bytes ++ 99 ∷ []; outgoing = [] };
  large_length = true;
  packet_limit = 100;
  bytes_sent = 0;
  bytes_received = 0;
  round_trips = 0;
  awaiting_response = true;
}

send-Sent_example :
    (q : TnsPacketStream Pipe) × (send slow hello opened ≡ (ok tt, q))
    × Sent slow slow_Reliable opened hello (omega arith) q
send-Sent_example = send-Sent slow slow_Reliable opened hello (omega arith)

receive-Received_example :
    (q : TnsPacketStream Pipe) × (receive slow opened ≡ (ok hello, q))
    × Received slow slow_Reliable opened hello (omega arith) (99 ∷ []) q
unfolding length_field slow_Reliable
receive-Received_example =
    receive-Received slow slow_Reliable opened hello (omega arith) (99 ∷ []) refl

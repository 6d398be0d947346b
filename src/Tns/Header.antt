-- ===== src/Tns/Header.antt =====
-- One packet of src/tns_packet.cpp: what the encoder writes is what the decoder reads.
use quack_oracle.Base.{
  ℕ, ◌+◌, ◌-◌, ◌^◌, ◌≤◌, ◌<◌, ◌≡◌, Bool, true, false, List, ◌∷◌, ◌++◌, length, arith, ok, err,
  limit_exceeded, drop, ◌⊎◌, inl, inr, length-drop,
}
use native.Mathlib.Decide.{dec_lt}
use quack_oracle.Tns.Packet.{
  TnsPacket, max_packet_length, declared_length, decode_tns_packet, length_field, encode_tns_packet,
}

-- The largest packet that the length field of a form can tell.
abbrev pub form_limit : Bool → ℕ
form_limit true = max_packet_length
form_limit false = 2 ^ 16 - 1

abbrev pub wire_of : Bool → TnsPacket → List ℕ
wire_of large p =
    length_field large (8 + length p.payload) ++ p.packet_type ∷ p.flags ∷ 0 ∷ 0 ∷ p.payload

pub encode-ok :
    (large : Bool) (p : TnsPacket)
    → 8 + length p.payload ≤ form_limit large
    → encode_tns_packet p.packet_type p.flags p.payload large ≡ ok (wire_of large p)
unfolding encode_tns_packet
encode-ok true p h = ground arith
encode-ok false p h = ground arith

pub encode_over :
    (large : Bool) (p : TnsPacket)
    → form_limit large < 8 + length p.payload
    → encode_tns_packet p.packet_type p.flags p.payload large ≡ err limit_exceeded
unfolding encode_tns_packet
encode_over true p h = ground arith
encode_over false p h = ground arith

pub length-wire_of :
    (large : Bool) (p : TnsPacket) → length (wire_of large p) ≡ 8 + length p.payload
unfolding length_field
length-wire_of true p = omega arith
length-wire_of false p = omega arith

pub declared-wire_of :
    (large : Bool) (p : TnsPacket)
    → 8 + length p.payload ≤ form_limit large
    → declared_length large (wire_of large p) ≡ 8 + length p.payload
unfolding declared_length length_field
declared-wire_of true p h = omega arith
declared-wire_of false p h = omega arith

pub decode-wire_of :
    (large : Bool) (p : TnsPacket) (packet_limit : ℕ)
    → 8 + length p.payload ≤ form_limit large
    → 8 + length p.payload ≤ packet_limit
    → decode_tns_packet (wire_of large p) large packet_limit ≡ ok p
unfolding decode_tns_packet length_field
decode-wire_of true p packet_limit h hl = ground (arith, declared-wire_of true p h)
decode-wire_of false p packet_limit h hl = ground (arith, declared-wire_of false p h)

-- A packet either is too long for the length field of its form, and the encoder throws, or its wire
-- form has the length that it declares and decodes, under any limit that it does not exceed, to the
-- packet that was encoded.
pub decode-encode :
    (large : Bool) (p : TnsPacket)
    → ((form_limit large < 8 + length p.payload)
        × (encode_tns_packet p.packet_type p.flags p.payload large ≡ err limit_exceeded))
      ⊎ ((wire : List ℕ) × (encode_tns_packet p.packet_type p.flags p.payload large ≡ ok wire)
          × (length wire ≡ 8 + length p.payload)
          × ((packet_limit : ℕ)
              → length wire ≤ packet_limit
              → decode_tns_packet wire large packet_limit ≡ ok p))
decode-encode large p = elim (dec_lt (form_limit large) (8 + length p.payload)) [
  | yes over ↦ inl (over, encode_over large p over)
  | no fits ↦ inr (
    wire_of large p,
    encode-ok large p (omega arith),
    length-wire_of large p,
    λ packet_limit h.
        decode-wire_of large p packet_limit (omega arith) (omega (arith, length-wire_of large p)),
  )
]

-- A decoded packet is the whole wire: its length is the one that is declared, within both limits, and
-- its payload is all that stands behind the header.
pub decode_sound :
    (wire : List ℕ) (large : Bool) (packet_limit : ℕ) (p : TnsPacket)
    → decode_tns_packet wire large packet_limit ≡ ok p
    → (length wire ≡ 8 + length p.payload)
      × (declared_length large wire ≡ length wire)
      × (length wire ≤ packet_limit)
      × (length wire ≤ max_packet_length)
      × (p.payload ≡ drop 8 wire)
unfolding decode_tns_packet
decode_sound wire large packet_limit p h = ground (arith, length-drop 8 wire)

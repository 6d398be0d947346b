-- ===== src/Tns/Packet.antt =====
-- src/tns_packet.cpp: the packet codec and the cutting of a message into DATA packets. A packet type is
-- the byte on the wire, since the decoder casts any byte to the enum. Lengths stay below 2 ^ 24, so
-- no cast of one loses bits but those that are written out.
use quack_oracle.Base.{
  ℕ, zero, suc, ◌+◌, ◌-◌, ◌*◌, ◌/◌, ◌%◌, ◌^◌, min, Bool, true, false, not, ◌&&◌, ◌||◌, List, [],
  ◌∷◌, ◌++◌, ltb, leb, ◌==◌, if◌then◌else◌, length, take, drop, get_or, Result, ok, stuck,
  truncated, malformed, limit_exceeded, throw_if, ◌>>=◌, ◌>>◌,
}

abbrev pub packet_header_size : ℕ
packet_header_size = 8

abbrev pub max_packet_length : ℕ
max_packet_length = 16 * 2 ^ 20

abbrev pub data_flag_eof : ℕ
data_flag_eof = 0x0040

abbrev pub data_flag_end_of_response : ℕ
data_flag_end_of_response = 0x2000

-- `TnsPacketType::DATA`
abbrev pub packet_data : ℕ
packet_data = 6

pub record TnsPacket : Type 0 where
  pub packet_type : ℕ
  pub flags : ℕ
  pub payload : List ℕ

-- ReadUInt32BE(wire.data()) or ReadUInt16BE(wire.data()).
unfoldable pub declared_length : Bool → List ℕ → ℕ
declared_length large wire =
    if large
    then get_or wire 0 0 * 256 ^ 3
      + get_or wire 1 0 * 256 ^ 2
      + get_or wire 2 0 * 256
      + get_or wire 3 0
    else get_or wire 0 0 * 256 + get_or wire 1 0

unfoldable pub decode_tns_packet : List ℕ → Bool → ℕ → Result TnsPacket
decode_tns_packet wire large packet_limit = do
  throw_if (ltb (length wire) packet_header_size) truncated
  let declared = declared_length large wire
  throw_if (ltb declared packet_header_size) malformed
  throw_if (ltb packet_limit declared || ltb max_packet_length declared) limit_exceeded
  throw_if (ltb (length wire) declared) truncated
  throw_if (not (length wire == declared)) malformed
  ok (record {
    packet_type = get_or wire 4 0;
    flags = get_or wire 5 0;
    payload = drop packet_header_size wire;
  })

-- The first four bytes of a packet.
unfoldable pub length_field : Bool → ℕ → List ℕ
length_field large total =
    if large
    then total / 256 ^ 3 % 256 ∷ total / 256 ^ 2 % 256 ∷ total / 256 % 256 ∷ total % 256 ∷ []
    else total % 2 ^ 16 / 256 % 256 ∷ total % 256 ∷ 0 ∷ 0 ∷ []

unfoldable pub encode_tns_packet : ℕ → ℕ → List ℕ → Bool → Result (List ℕ)
encode_tns_packet packet_type flags payload large = do
  let total = packet_header_size + length payload
  throw_if (ltb max_packet_length total || not large && ltb (2 ^ 16 - 1) total) limit_exceeded
  ok (length_field large total ++ packet_type ∷ flags ∷ 0 ∷ 0 ∷ payload)

-- The `do` loop over the message. `rest` is what stands behind the offset, so that `offset + count`
-- is the size of the message when `count` is the length of `rest`. `maximum_chunk` is positive, so
-- every round but the last shortens `rest`.
unfoldable pub data_packets : ℕ → ℕ → Bool → ℕ → List ℕ → Result (List (List ℕ))
data_packets zero maximum_chunk large final_flags rest = stuck
data_packets (suc fuel) maximum_chunk large final_flags rest =
    (let count = min maximum_chunk (length rest) in
      let last = count == length rest in
      let data_flags = if last then final_flags else 0 in
      let payload = data_flags / 256 % 256 ∷ data_flags % 256 ∷ take count rest in
      (do
        packet ← encode_tns_packet packet_data 0 payload large
        (elim last [
          | true ↦ ok (packet ∷ [])
          | false ↦ (do
            packets ← data_packets fuel maximum_chunk large final_flags (drop count rest)
            ok (packet ∷ packets))
        ])))

unfoldable pub encode_tns_data_packets : List ℕ → Bool → ℕ → ℕ → Result (List (List ℕ))
encode_tns_data_packets ttc_payload large negotiated_sdu final_flags = do
  throw_if (leb negotiated_sdu (packet_header_size + 2)) malformed
  data_packets (length ttc_payload + 1) (negotiated_sdu - packet_header_size - 2) large final_flags
      ttc_payload

-- ===== src/Tns/Cut.antt =====
-- A request through `EncodeTnsDataPackets` of src/tns_packet.cpp: cut into DATA packets whose contents,
-- put together, are the request.
use quack_oracle.Base.{
  ℕ, zero, suc, ◌+◌, ◌-◌, ◌≤◌, ◌<◌, ◌≡◌, ap, ◌∙◌, true, false, List, [], ◌∷◌, ◌++◌, leb, length,
  arith, ok, take, drop, take-append-drop, length-take, length-drop, append-nil,
}
use native.Mathlib.Decide.{dec_lt}
use quack_oracle.Tns.Packet.{
  TnsPacket, packet_data, decode_tns_packet, encode_tns_packet, data_packets,
  encode_tns_data_packets,
}
use quack_oracle.Tns.Header.{form_limit, wire_of, encode-ok, decode-wire_of}
use quack_oracle.Tns.Segments.{data_packet, data_packets-last, data_packets-more}

-- The contents of DATA packets behind their flags, put together.
unfoldable pub joined : List TnsPacket → List ℕ
joined [] = []
joined (p ∷ ps) = drop 2 p.payload ++ joined ps

-- The bytes of each packet decode to it.
pub data Decodes (packet_limit : ℕ) : List (List ℕ) → List TnsPacket → Type 0 where
  no_packets : Decodes packet_limit [] []
  decodes :
      {wire : List ℕ} {p : TnsPacket} {wires : List (List ℕ)} {ps : List TnsPacket}
      → decode_tns_packet wire true packet_limit ≡ ok p
      → Decodes packet_limit wires ps
      → Decodes packet_limit (wire ∷ wires) (p ∷ ps)

module _ (chunk packet_limit : ℕ) (positive : 1 ≤ chunk) (fits : chunk + 10 ≤ form_limit true)
    (allowed : chunk + 10 ≤ packet_limit) where
  cut :
      (fuel : ℕ) (rest : List ℕ)
      → length rest < fuel
      → (wires : List (List ℕ)) × (ps : List TnsPacket) × (data_packets fuel chunk true 0 rest
          ≡ ok wires)
        × Decodes packet_limit wires ps
        × (joined ps ≡ rest)
  unfolding joined
  cut zero rest h = absurd (omega arith)
  cut (suc fuel) rest h = elim (dec_lt chunk (length rest)) [
    | yes more ↦
        let (wires, ps, made, d, j) =
          cut fuel (drop chunk rest) (omega (arith, length-drop chunk rest)) in
        let p = data_packet 0 (take chunk rest) in
        let size : length (take chunk rest) ≡ chunk = omega (arith, length-take chunk rest) in
        let enc : encode_tns_packet packet_data 0 p.payload true ≡ ok (wire_of true p) =
          encode-ok true p (omega arith) in
        (
          wire_of true p ∷ wires,
          p ∷ ps,
          data_packets-more fuel chunk 0 true rest _ wires more enc made,
          decodes (decode-wire_of true p packet_limit (omega arith) (omega arith)) d,
          ap (◌++◌ (take chunk rest)) j ∙ take-append-drop chunk rest,
        )
    | no last ↦
        let p = data_packet 0 rest in
        let enc : encode_tns_packet packet_data 0 p.payload true ≡ ok (wire_of true p) =
          encode-ok true p (omega arith) in
        (
          wire_of true p ∷ [],
          p ∷ [],
          data_packets-last fuel chunk 0 true rest _ (omega arith) enc,
          decodes (decode-wire_of true p packet_limit (omega arith) (omega arith)) no_packets,
          append-nil rest,
        )
  ]

pub encode_tns_data_packets-Decodes :
    (sdu : ℕ) (request : List ℕ)
    → 11 ≤ sdu
    → sdu ≤ form_limit true
    → (wires : List (List ℕ)) × (ps : List TnsPacket) × (encode_tns_data_packets request true sdu 0
        ≡ ok wires)
      × Decodes sdu wires ps
      × (joined ps ≡ request)
unfolding encode_tns_data_packets
encode_tns_data_packets-Decodes sdu request h l =
    let t : leb sdu 10 ≡ false = ground arith in
    let (wires, ps, made, d, j) =
      cut (sdu - 8 - 2) sdu (omega arith) (omega arith) (omega arith) (length request + 1) request
        (omega arith) in
    (wires, ps, rw t made, d, j)

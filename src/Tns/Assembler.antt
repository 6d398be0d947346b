-- ===== src/Tns/Assembler.antt =====
-- src/data_assembler.cpp: the payloads of DATA packets joined into a TTC message. A method returns its
-- outcome and the assembler, also when it throws.
use Prim.Native.Nat.{bit_and, bit_or}
use quack_oracle.Base.{
  ℕ, ◌+◌, ◌-◌, ◌*◌, not, Option, none, some, List, [], ◌++◌, ltb, ◌==◌, if◌then◌else◌, length, drop,
  get_or, Result, ok, err, truncated, malformed, limit_exceeded, invalid_state, ◌>>◌, throw_if,
}
use quack_oracle.Tns.Packet.{TnsPacket, packet_data, data_flag_eof, data_flag_end_of_response}

pub record TnsDataAssembler : Type 0 where
  pub maximum_message_size : ℕ
  pub buffered : List ℕ

unfoldable pub new_assembler : ℕ → Result TnsDataAssembler
new_assembler maximum = do
  throw_if (maximum == 0) limit_exceeded
  ok (record { maximum_message_size = maximum; buffered = [] })

unfoldable pub reset : TnsDataAssembler → TnsDataAssembler
reset a = record a { buffered = [] }

unfoldable pub push : TnsDataAssembler → TnsPacket → Result (Option (List ℕ)) × TnsDataAssembler
unfolding reset
push a packet =
    if not (packet.packet_type == packet_data)
    then (err invalid_state, a)
    else if ltb (length packet.payload) 2
    then (err truncated, a)
    else (let flags = get_or packet.payload 0 0 * 256 + get_or packet.payload 1 0 in
        let bytes = length packet.payload - 2 in
        if ltb (a.maximum_message_size - length a.buffered) bytes
        then (err limit_exceeded, reset a)
        else (let joined = a.buffered ++ drop 2 packet.payload in
            if bit_and flags (bit_or data_flag_end_of_response data_flag_eof) == 0
            then (ok none, record a { buffered = joined })
            else (ok (some joined), record a { buffered = [] })))

unfoldable pub take_buffered : TnsDataAssembler → Result (List ℕ) × TnsDataAssembler
take_buffered a =
    if length a.buffered == 0
    then (err malformed, a)
    else (ok a.buffered, record a { buffered = [] })

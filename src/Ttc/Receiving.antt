-- ===== src/Ttc/Receiving.antt =====
-- src/ttc_channel.cpp, `Receive`: the loop over packets until a TTC message is complete.
use quack_oracle.Base.{
  ℕ, zero, suc, ◌+◌, Bool, false, not, ◌&&◌, ◌||◌, Option, none, some, List, [], ◌∷◌, ltb, ◌==◌,
  if◌then◌else◌, length, get_or, Result, ok, err, stuck, malformed, limit_exceeded,
}
use quack_oracle.Base.Exec.{Exec, ◌>>=◌, ◌>>◌, pure, throw_if}
use quack_oracle.Tns.Packet.{TnsPacket, packet_data, packet_header_size}
use quack_oracle.Tns.Assembler.{TnsDataAssembler, push, take_buffered}
use quack_oracle.Ttc.Channel.{PacketStream, TtcChannel, packet_marker, marker, on_packets}

-- The counters of one `Receive`.
pub record Counters : Type 0 where
  pub resets : ℕ
  pub empty_fragments : ℕ

-- What the loop does next.
pub data Next : Type 0 where
  again : Counters → Next
  complete : List ℕ → Next

abbrev pub bad_marker : List ℕ → Bool
bad_marker payload =
    not (length payload == 3) || not (get_or payload 0 0 == 1) || not (get_or payload 1 0 == 0)

module _ (stream : PacketStream) where
  -- A marker that is not a RESET: a break, which is answered by one.
  unfoldable pub on_break : TnsPacket → Counters → Exec (TtcChannel stream.State) Next
  on_break packet n c =
      let kind = get_or packet.payload 2 0 in
      if not (kind == 1) && not (kind == 3)
      then (err malformed, c)
      else (do
        throw_if (ltb 2 (n.resets + 1)) malformed
        on_packets (stream.send (marker packet.flags 2))
        pure (again (record n { resets = n.resets + 1 })))
          c

  -- A RESET, which ends a cancellation that is in progress.
  unfoldable pub on_reset : TnsPacket → Counters → Exec (TtcChannel stream.State) Next
  on_reset packet n c =
      if c.cancellation_requested
      then (do on_packets (stream.send (marker packet.flags 2)); pure (again n))
          (record c { cancellation_requested = false })
      else (ok (again n), c)

  unfoldable pub on_marker : TnsPacket → Counters → Exec (TtcChannel stream.State) Next
  on_marker packet n c =
      if bad_marker packet.payload
      then (err malformed, c)
      else if get_or packet.payload 2 0 == 2
      then on_reset packet n c
      else on_break packet n c

  abbrev pub on_assembler :
      {A : Type 0}
      → (TnsDataAssembler → Result A × TnsDataAssembler)
      → Exec (TtcChannel stream.State) A
  on_assembler m c = let (r, a) = m c.assembler in (r, record c { assembler = a })

  -- What follows `Push`.
  unfoldable pub on_pushed :
      TnsPacket → Counters → Option (List ℕ) → Exec (TtcChannel stream.State) Next
  on_pushed packet n (some []) c = (err malformed, c)
  on_pushed packet n (some (b ∷ bs)) c = (ok (complete (b ∷ bs)), c)
  on_pushed packet n none c =
      if packet.packet_type == packet_data && length packet.payload == 2
      then if ltb 16 (n.empty_fragments + 1)
        then (err limit_exceeded, c)
        else (ok (again (record n { empty_fragments = n.empty_fragments + 1 })), c)
      else if packet.packet_type == packet_data
          && ltb (length packet.payload + packet_header_size) c.negotiated_sdu
      then (do bytes ← on_assembler take_buffered; pure (complete bytes)) c
      else (ok (again n), c)

  unfoldable pub on_data : TnsPacket → Counters → Exec (TtcChannel stream.State) Next
  on_data packet n c = (do pushed ← on_assembler (λ a. push a packet); on_pushed packet n pushed) c

  -- One round of the loop of `Receive`.
  unfoldable pub receive_round : Counters → Exec (TtcChannel stream.State) Next
  receive_round n c =
      (do
        packet ← on_packets stream.receive
        (λ d.
            if packet.packet_type == packet_marker
            then on_marker packet n d
            else on_data packet n d))
        c

  abbrev pub continue_with :
      (Counters → Exec (TtcChannel stream.State) (List ℕ))
      → Next
      → Exec (TtcChannel stream.State) (List ℕ)
  continue_with loop (complete bytes) c = (ok bytes, c)
  continue_with loop (again n) c = loop n c

  -- The loop, with the rounds left.
  unfoldable pub receive_loop : ℕ → Counters → Exec (TtcChannel stream.State) (List ℕ)
  receive_loop zero n c = (stuck, c)
  receive_loop (suc fuel) n c = (receive_round n >>= continue_with (receive_loop fuel)) c

  -- `Receive`, for as many packets as the fuel.
  unfoldable pub receive : ℕ → Exec (TtcChannel stream.State) (List ℕ)
  receive fuel = receive_loop fuel (record { resets = 0; empty_fragments = 0 })

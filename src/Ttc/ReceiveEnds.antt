-- ===== src/Ttc/ReceiveEnds.antt =====
-- The loop of `Receive` of src/ttc_channel.cpp ends: what it counts bounds the packets that it takes,
-- but for RESET markers, which it does not count.
use quack_oracle.Base.{
  ℕ, zero, suc, ◌+◌, ◌-◌, ◌≤◌, ◌<◌, ◌≡◌, ◌≢◌, refl, ap, not, ◌&&◌, Bool-cases, Option, none, some,
  List, [], ◌∷◌, ◌==◌, ltb, if◌then◌else◌, length, drop, get_or, length-append, length-drop, Result,
  ok, err, stuck, ProtocolErrorKind, arith, inl, inr,
}
use quack_oracle.Base.Exec.{Exec, continue, ◌>>=◌, pure}
use quack_oracle.Tns.Packet.{TnsPacket, packet_data}
use quack_oracle.Tns.Assembler.{TnsDataAssembler, push, take_buffered}
use quack_oracle.Ttc.Channel.{PacketStream, TtcChannel, packet_marker, marker}
use quack_oracle.Ttc.Receiving.{
  Counters, Next, again, complete, bad_marker, on_break, on_reset, on_marker, on_assembler,
  on_pushed, on_data, receive_round, continue_with, receive_loop, receive,
}

-- A RESET marker costs one.
abbrev pub cost : TnsPacket → ℕ
cost p = if p.packet_type == packet_marker && get_or p.payload 2 0 == 2 then 1 else 0

-- A stream whose calls end, and in the state `s` of which at most `k` RESET markers are to come where
-- `AtMost k s`.
pub record Limited (stream : PacketStream) (AtMost : ℕ → stream.State → Type 0) : Type 0 where
  pub receive_ends : (s : stream.State) → (stream.receive s).0 ≢ stuck
  pub send_ends : (p : TnsPacket) (s : stream.State) → (stream.send p s).0 ≢ stuck
  pub receives :
      (k : ℕ) (s t : stream.State) (p : TnsPacket)
      → AtMost k s
      → stream.receive s ≡ (ok p, t)
      → (cost p ≤ k) × AtMost (k - cost p) t
  pub sends : (k : ℕ) (s : stream.State) (p : TnsPacket) → AtMost k s → AtMost k (stream.send p s).1

-- What the counters and the assembler leave room for.
unfoldable pub budget : {S : Type 0} → Counters → TtcChannel S → ℕ
budget n c =
    2
    - n.resets
    + (16 - n.empty_fragments)
    + (c.assembler.maximum_message_size - length c.assembler.buffered)

-- A packet that completes nothing leaves its bytes behind those that are buffered.
push-none :
    (a : TnsDataAssembler) (p : TnsPacket)
    → (push a p).0 ≡ ok none
    → (p.packet_type ≡ packet_data)
      × (2 ≤ length p.payload)
      × (a.maximum_message_size - length a.buffered
          ≡ (push a p).1.maximum_message_size
            - length (push a p).1.buffered
            + (length p.payload - 2))
unfolding push
push-none a p e =
    ground (arith, e, length-append a.buffered (drop 2 p.payload), length-drop 2 p.payload)

push_ends : (a : TnsDataAssembler) (p : TnsPacket) → (push a p).0 ≢ stuck
unfolding push
push_ends a p = ground arith

module _ (stream : PacketStream) (AtMost : ℕ → stream.State → Type 0)
    (limited : Limited stream AtMost) where
  -- A round ended: it threw or completed a message, or it goes on with less to come than `room`.
  data RoundEnds (room : ℕ) : Result Next × TtcChannel stream.State → Type 0 where
    threw : {e : ProtocolErrorKind} {d : TtcChannel stream.State} → RoundEnds room (err e, d)
    completed :
        {bytes : List ℕ} {d : TtcChannel stream.State} → RoundEnds room (ok (complete bytes), d)
    goes_on :
        {m : Counters} {d : TtcChannel stream.State} (k : ℕ)
        → AtMost k d.packets
        → k + budget m d < room
        → RoundEnds room (ok (again m), d)

  -- An answer was sent, and the loop goes on.
  answered-RoundEnds :
      (k room : ℕ) (m : Counters) (r : Result (Unit {0})) (d : TtcChannel stream.State)
      → r ≢ stuck
      → AtMost k d.packets
      → k + budget m d < room
      → RoundEnds room (continue r (λ x s. (ok (again m), s)) d)
  answered-RoundEnds k room m (ok u) d e a h = goes_on k a h
  answered-RoundEnds k room m (err x) d e a h = threw
  answered-RoundEnds k room m stuck d e a h = absurd (e refl)

  on_reset-RoundEnds :
      (k room : ℕ) (p : TnsPacket) (n : Counters) (c : TtcChannel stream.State)
      → AtMost k c.packets
      → k + budget n c < room
      → RoundEnds room (on_reset stream p n c)
  unfolding budget on_reset
  on_reset-RoundEnds k room p n c a h = elim (Bool-cases c.cancellation_requested) [
    | inl e ↦ rw e (
        answered-RoundEnds k room n _ _ (limited.send_ends (marker p.flags 2) c.packets)
          (limited.sends k c.packets (marker p.flags 2) a) h)
    | inr e ↦ rw e (goes_on k a h)
  ]

  on_break-RoundEnds :
      (k room : ℕ) (p : TnsPacket) (n : Counters) (c : TtcChannel stream.State)
      → AtMost k c.packets
      → k + budget n c ≤ room
      → RoundEnds room (on_break stream p n c)
  unfolding budget on_break
  on_break-RoundEnds k room p n c a h =
      elim (Bool-cases (not (get_or p.payload 2 0 == 1) && not (get_or p.payload 2 0 == 3))) [
        | inl e ↦ rw e threw
        | inr e ↦ rw e (elim (Bool-cases (ltb 2 (n.resets + 1))) [
          | inl f ↦ rw f threw
          | inr f ↦ rw f (
              answered-RoundEnds k room _ _ _ (limited.send_ends (marker p.flags 2) c.packets)
                (limited.sends k c.packets (marker p.flags 2) a) (ground (arith, f, h)))
        ])
      ]

  taken-RoundEnds :
      (room : ℕ) (c : TtcChannel stream.State)
      → RoundEnds room ((do bytes ← on_assembler stream take_buffered; pure (complete bytes)) c)
  unfolding take_buffered
  taken-RoundEnds room c = elim (Bool-cases (length c.assembler.buffered == 0)) [
    | inl e ↦ rw e threw
    | inr e ↦ rw e completed
  ]

  pushed_none-RoundEnds :
      (k room : ℕ) (p : TnsPacket) (n : Counters) (c : TtcChannel stream.State)
      → AtMost k c.packets
      → p.packet_type ≡ packet_data
      → 2 ≤ length p.payload
      → k + budget n c + (length p.payload - 2) ≤ room
      → RoundEnds room (on_pushed stream p n none c)
  unfolding budget on_pushed
  pushed_none-RoundEnds k room p n c a t l h =
      elim (Bool-cases (p.packet_type == packet_data && length p.payload == 2)) [
        | inl e ↦ rw e (elim (Bool-cases (ltb 16 (n.empty_fragments + 1))) [
          | inl f ↦ rw f threw
          | inr f ↦ rw f (goes_on k a (ground (arith, e, f, h)))
        ])
        | inr e ↦
            rw e
              (elim (Bool-cases
                (p.packet_type == packet_data && ltb (length p.payload + 8) c.negotiated_sdu)) [
                  | inl f ↦ rw f (taken-RoundEnds room c)
                  | inr f ↦ rw f (goes_on k a (ground (arith, e, t, l, h)))
                ])
      ]

  pushed_some-RoundEnds :
      (room : ℕ) (p : TnsPacket) (n : Counters) (bytes : List ℕ) (d : TtcChannel stream.State)
      → RoundEnds room (on_pushed stream p n (some bytes) d)
  unfolding on_pushed
  pushed_some-RoundEnds room p n [] d = threw
  pushed_some-RoundEnds room p n (b ∷ bs) d = completed

  pushed-RoundEnds :
      (k room : ℕ) (p : TnsPacket) (n : Counters) (r : Result (Option (List ℕ)))
      (d : TtcChannel stream.State)
      → r ≢ stuck
      → AtMost k d.packets
      → (r ≡ ok none
          → (p.packet_type ≡ packet_data)
            × (2 ≤ length p.payload)
            × (k + budget n d + (length p.payload - 2) ≤ room))
      → RoundEnds room (continue r (λ pushed. on_pushed stream p n pushed) d)
  pushed-RoundEnds k room p n (err x) d e a h = threw
  pushed-RoundEnds k room p n stuck d e a h = absurd (e refl)
  pushed-RoundEnds k room p n (ok none) d e a h =
      let (t, l, b) = h refl in pushed_none-RoundEnds k room p n d a t l b
  pushed-RoundEnds k room p n (ok (some bytes)) d e a h = pushed_some-RoundEnds room p n bytes d

  on_data-RoundEnds :
      (k room : ℕ) (p : TnsPacket) (n : Counters) (c : TtcChannel stream.State)
      → AtMost k c.packets
      → k + budget n c ≤ room
      → RoundEnds room (on_data stream p n c)
  unfolding budget on_data
  on_data-RoundEnds k room p n c a h =
      pushed-RoundEnds k room p n (push c.assembler p).0 _ (push_ends c.assembler p) a
        λ e. let (t, l, b) = push-none c.assembler p e in (t, l, omega (arith, b))

  on_marker-RoundEnds :
      (k room : ℕ) (p : TnsPacket) (n : Counters) (c : TtcChannel stream.State)
      → p.packet_type ≡ packet_marker
      → AtMost k c.packets
      → k + budget n c + cost p ≤ room
      → RoundEnds room (on_marker stream p n c)
  unfolding on_marker
  on_marker-RoundEnds k room p n c t a h = elim (Bool-cases (bad_marker p.payload)) [
    | inl e ↦ rw e threw
    | inr e ↦ rw e (elim (Bool-cases (get_or p.payload 2 0 == 2)) [
      | inl f ↦ rw f (on_reset-RoundEnds k room p n c a (ground (arith, t, f, h)))
      | inr f ↦ rw f (on_break-RoundEnds k room p n c a (omega arith))
    ])
  ]

  received-RoundEnds :
      (k room : ℕ) (p : TnsPacket) (n : Counters) (c : TtcChannel stream.State)
      → AtMost k c.packets
      → k + budget n c + cost p ≤ room
      → RoundEnds room
          (if p.packet_type == packet_marker then on_marker stream p n c else on_data stream p n c)
  received-RoundEnds k room p n c a h = elim (Bool-cases (p.packet_type == packet_marker)) [
    | inl e ↦ rw e (on_marker-RoundEnds k room p n c (ground (arith, e)) a h)
    | inr e ↦ rw e (on_data-RoundEnds k room p n c a (omega arith))
  ]

  -- What the stream's call returned goes on to the round's own part.
  got-RoundEnds :
      (k : ℕ) (n : Counters) (c : TtcChannel stream.State) (r : Result TnsPacket) (s : stream.State)
      → AtMost k c.packets
      → stream.receive c.packets ≡ (r, s)
      → RoundEnds (k + budget n c) (
          continue r
            (λ p d.
              if p.packet_type == packet_marker
              then on_marker stream p n d
              else on_data stream p n d)
            (record c { packets = s }))
  unfolding budget
  got-RoundEnds k n c (ok p) s a e =
      let (h, b) = limited.receives k c.packets s p a e in
      received-RoundEnds (k - cost p) _ p n (record c { packets = s }) b (omega arith)
  got-RoundEnds k n c (err x) s a e = threw
  got-RoundEnds k n c stuck s a e = absurd (limited.receive_ends c.packets (ap (λ x. x.0) e))

  receive_round-RoundEnds :
      (k : ℕ) (n : Counters) (c : TtcChannel stream.State)
      → AtMost k c.packets
      → RoundEnds (k + budget n c) (receive_round stream n c)
  unfolding receive_round
  receive_round-RoundEnds k n c a = got-RoundEnds k n c _ _ a refl

  continued_ends :
      (room : ℕ) (loop : Counters → Exec (TtcChannel stream.State) (List ℕ))
      (r : Result Next × TtcChannel stream.State)
      → RoundEnds room r
      → ((k : ℕ) (m : Counters) (d : TtcChannel stream.State)
          → AtMost k d.packets
          → k + budget m d < room
          → (loop m d).0 ≢ stuck)
      → (continue r.0 (continue_with stream loop) r.1).0 ≢ stuck
  continued_ends room loop (err e, d) threw h = ground arith
  continued_ends room loop (stuck, d) e h = elim e [ ]
  continued_ends room loop (ok (complete bytes), d) completed h = ground arith
  continued_ends room loop (ok (again m), d) (goes_on k b g) h = h k m d b g

  -- The rounds left are more than what there is to come.
  receive_loop_ends :
      (fuel k : ℕ) (n : Counters) (c : TtcChannel stream.State)
      → AtMost k c.packets
      → k + budget n c < fuel
      → (receive_loop stream fuel n c).0 ≢ stuck
  unfolding receive_loop
  receive_loop_ends zero k n c a h = absurd (omega arith)
  receive_loop_ends (suc fuel) k n c a h =
      continued_ends (k + budget n c) (receive_loop stream fuel) (receive_round stream n c)
        (receive_round-RoundEnds k n c a)
        (λ j m d b g. receive_loop_ends fuel j m d b (omega arith))

  -- From a stream whose calls end, on which at most `k` RESET markers are to come, `Receive` returns or
  -- throws after at most `k` packets, 19 more, and one for every byte of the largest message: the
  -- breaks, empty fragments and partial messages of any server are bounded.
  pub receive_ends :
      (fuel k : ℕ) (c : TtcChannel stream.State)
      → AtMost k c.packets
      → k + 19 + c.assembler.maximum_message_size ≤ fuel
      → (receive stream fuel c).0 ≢ stuck
  unfolding receive budget
  receive_ends fuel k c a h = receive_loop_ends fuel k _ c a (omega arith)

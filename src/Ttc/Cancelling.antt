-- ===== src/Ttc/Cancelling.antt =====
-- Cancellations on a channel of src/ttc_channel.cpp: `Cancel` sets a flag and sends an INTERRUPT, and
-- the loop of `Receive` clears the flag at the server's RESET and answers it.
use quack_oracle.Base.{
  ℕ, ◌+◌, ◌≡◌, refl, sym, ◌∙◌, true, false, not, ◌&&◌, Bool-cases, Option, none, some, List, [],
  ◌∷◌, ◌==◌, ltb, if◌then◌else◌, get_or, Result, ok, err, stuck, ◌⊎◌, inl, inr, arith,
}
use quack_oracle.Base.Exec.{continue}
use quack_oracle.Tns.Packet.{TnsPacket}
use quack_oracle.Tns.Assembler.{push, take_buffered}
use quack_oracle.Ttc.Channel.{
  PacketStream, TtcChannel, packet_marker, marker, on_packets, after_interrupt, cancel,
}
use quack_oracle.Ttc.Receiving.{
  Counters, again, bad_marker, on_break, on_reset, on_marker, on_pushed, on_data, receive_round,
}

module _ (stream : PacketStream) where
  interrupted_ok :
      (r : Result (Unit {0})) (c d : TtcChannel stream.State)
      → c.cancellation_supported ≡ true
      → c.cancellation_requested ≡ true
      → after_interrupt stream (r, c) ≡ (ok tt, d)
      → (d.cancellation_supported ≡ true) × (d.cancellation_requested ≡ true)
  unfolding after_interrupt
  interrupted_ok (ok u) c d s q e = ground (arith, e, s, q)
  interrupted_ok (err x) c d s q e = absurd (ground (arith, e))
  interrupted_ok stuck c d s q e = absurd (ground (arith, e))

  cancel_step :
      (c : TtcChannel stream.State)
      → c.cancellation_supported ≡ true
      → c.cancellation_requested ≡ false
      → cancel stream c
        ≡ after_interrupt stream
            (on_packets (stream.send (marker 0 3)) (record c { cancellation_requested = true }))
  unfolding cancel
  cancel_step c u q = ground (arith, u, q)

  pub cancel-begins :
      (c d : TtcChannel stream.State)
      → cancel stream c ≡ (ok tt, d)
      → (d.cancellation_supported ≡ true) × (d.cancellation_requested ≡ true)
  unfolding cancel
  cancel-begins c d e = elim (Bool-cases c.cancellation_supported) [
    | inr u ↦ absurd (ground (arith, e, u))
    | inl u ↦ elim (Bool-cases c.cancellation_requested) [
      | inl q ↦ absurd (ground (arith, e, u, q))
      | inr q ↦
          interrupted_ok (stream.send (marker 0 3) c.packets).0 _ d u refl
            (sym (cancel_step c u q) ∙ e)
    ]
  ]

  -- The flag after a step, or that a RESET marker was answered.
  on_break-flag :
      (p : TnsPacket) (n : Counters) (c : TtcChannel stream.State)
      → (on_break stream p n c).1.cancellation_requested ≡ c.cancellation_requested
  unfolding on_break
  on_break-flag p n c =
      elim (Bool-cases (not (get_or p.payload 2 0 == 1) && not (get_or p.payload 2 0 == 3))) [
        | inl e ↦ rw e refl
        | inr e ↦ rw e (elim (Bool-cases (ltb 2 (n.resets + 1))) [
          | inl f ↦ rw f refl
          | inr f ↦ rw f (answered (stream.send (marker p.flags 2) c.packets).0 _ refl)
        ])
      ]
    where
      answered :
          (r : Result (Unit {0})) (d : TtcChannel stream.State)
          → d.cancellation_requested ≡ c.cancellation_requested
          → (continue r
              (λ _ s. (ok (again (record n { resets = n.resets + 1 })), s))
              d).1.cancellation_requested
            ≡ c.cancellation_requested
      answered (ok u) d h = h
      answered (err x) d h = h
      answered stuck d h = h

  on_pushed-flag :
      (p : TnsPacket) (n : Counters) (o : Option (List ℕ)) (c : TtcChannel stream.State)
      → (on_pushed stream p n o c).1.cancellation_requested ≡ c.cancellation_requested
  unfolding on_pushed take_buffered
  on_pushed-flag p n (some []) c = refl
  on_pushed-flag p n (some (b ∷ bs)) c = refl
  on_pushed-flag p n none c = ground arith

  on_data-flag :
      (p : TnsPacket) (n : Counters) (c : TtcChannel stream.State)
      → (on_data stream p n c).1.cancellation_requested ≡ c.cancellation_requested
  unfolding on_data
  on_data-flag p n c =
      pushed (push c.assembler p).0 (record c { assembler = (push c.assembler p).1 }) refl
    where
      pushed :
          (r : Result (Option (List ℕ))) (d : TtcChannel stream.State)
          → d.cancellation_requested ≡ c.cancellation_requested
          → (continue r (λ o. on_pushed stream p n o) d).1.cancellation_requested
            ≡ c.cancellation_requested
      pushed (ok o) d h = on_pushed-flag p n o d ∙ h
      pushed (err x) d h = h
      pushed stuck d h = h

  bad_keeps :
      (p : TnsPacket) (n : Counters) (c : TtcChannel stream.State)
      → bad_marker p.payload ≡ true
      → (on_marker stream p n c).1.cancellation_requested ≡ c.cancellation_requested
  unfolding on_marker
  bad_keeps p n c b = rw b refl

  break_keeps :
      (p : TnsPacket) (n : Counters) (c : TtcChannel stream.State)
      → bad_marker p.payload ≡ false
      → (get_or p.payload 2 0 == 2) ≡ false
      → (on_marker stream p n c).1.cancellation_requested ≡ c.cancellation_requested
  unfolding on_marker
  break_keeps p n c b f = rw (b, f) (on_break-flag p n c)

  reset_answers :
      (p : TnsPacket) (n : Counters) (c : TtcChannel stream.State)
      → bad_marker p.payload ≡ false
      → (get_or p.payload 2 0 == 2) ≡ true
      → c.cancellation_requested ≡ true
      → (on_marker stream p n c).1.packets ≡ (stream.send (marker p.flags 2) c.packets).1
  unfolding on_marker on_reset
  reset_answers p n c b f q =
      rw (b, f, q) (answered (stream.send (marker p.flags 2) c.packets).0 _ refl)
    where
      answered :
          (r : Result (Unit {0})) (d : TtcChannel stream.State)
          → d.packets ≡ (stream.send (marker p.flags 2) c.packets).1
          → (continue r (λ _ s. (ok (again n), s)) d).1.packets
            ≡ (stream.send (marker p.flags 2) c.packets).1
      answered (ok u) d h = h
      answered (err x) d h = h
      answered stuck d h = h

  -- A RESET marker came, with this answer to it.
  pub record Answered (c d : TtcChannel stream.State) : Type 0 where
    pub packet : TnsPacket
    pub rest : stream.State
    pub got : stream.receive c.packets ≡ (ok packet, rest)
    pub is_marker : packet.packet_type ≡ packet_marker
    pub is_reset : get_or packet.payload 2 0 ≡ 2
    pub answer : d.packets ≡ (stream.send (marker packet.flags 2) rest).1

  got-flag :
      (n : Counters) (c : TtcChannel stream.State) (r : Result TnsPacket) (s : stream.State)
      → stream.receive c.packets ≡ (r, s)
      → c.cancellation_requested ≡ true
      → let d =
          (continue r
            (λ p d.
              if p.packet_type == packet_marker
              then on_marker stream p n d
              else on_data stream p n d)
            (record c { packets = s })).1 in
        (d.cancellation_requested ≡ true) ⊎ Answered c d
  got-flag n c (err x) s e q = inl q
  got-flag n c stuck s e q = inl q
  got-flag n c (ok p) s e q = elim (Bool-cases (p.packet_type == packet_marker)) [
    | inr t ↦ rw t (inl (on_data-flag p n (record c { packets = s }) ∙ q))
    | inl t ↦ rw t (elim (Bool-cases (bad_marker p.payload)) [
      | inl b ↦ inl (bad_keeps p n (record c { packets = s }) b ∙ q)
      | inr b ↦ elim (Bool-cases (get_or p.payload 2 0 == 2)) [
        | inr f ↦ inl (break_keeps p n (record c { packets = s }) b f ∙ q)
        | inl f ↦ inr (record {
          packet = p;
          rest = s;
          got = e;
          is_marker = ground (arith, t);
          is_reset = ground (arith, f);
          answer = reset_answers p n (record c { packets = s }) b f q;
        })
      ]
    ])
  ]

  -- In a round of `Receive` during a cancellation, the cancellation stays in progress, or a RESET
  -- marker came and was answered by a RESET, or by an attempt to send it.
  pub receive_round-flag :
      (n : Counters) (c : TtcChannel stream.State)
      → c.cancellation_requested ≡ true
      → ((receive_round stream n c).1.cancellation_requested ≡ true)
        ⊎ Answered c (receive_round stream n c).1
  unfolding receive_round
  receive_round-flag n c q = got-flag n c _ _ refl q

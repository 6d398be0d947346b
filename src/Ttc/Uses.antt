-- ===== src/Ttc/Uses.antt =====
-- Any use of a channel of src/ttc_channel.cpp, one operation after the other: while the server's RESET
-- has not come, a cancellation stays in progress.
use quack_oracle.Base.{ℕ, ◌≡◌, Bool, true, List}
use quack_oracle.Base.Exec.{Exec}
use quack_oracle.Ttc.Piggyback.{TtcEndToEndAttributes}
use quack_oracle.Ttc.Channel.{
  PacketStream, TtcChannel, cancel, queue_close_cursor, queue_end_to_end_attributes, send,
}
use quack_oracle.Ttc.Receiving.{Counters, receive_round}
use quack_oracle.Ttc.Cancelling.{Answered}

module _ (stream : PacketStream) where
  abbrev Channel : Type 0
  Channel = TtcChannel stream.State

  module _ {V : Type 0} (view : Channel → V) where
    -- A method leaves what is seen of the channel.
    abbrev Keeps : {A : Type 0} → Exec Channel A → Type 0
    Keeps m = (c : Channel) → view (m c).1 ≡ view c

  abbrev supported : Channel → Bool
  supported c = c.cancellation_supported

  abbrev requested : Channel → Bool
  requested c = c.cancellation_requested

  -- One operation on the channel, whether it returns or throws. A `Receive` is its rounds.
  pub data Use (c : Channel) : Channel → Type 0 where
    sends : (request : List ℕ) → Use c (send stream request c).1
    receives : (n : Counters) → Use c (receive_round stream n c).1
    queues_cursor : (cursor_id : ℕ) → Use c (queue_close_cursor cursor_id c).1
    queues_attributes :
        (attributes : TtcEndToEndAttributes) → Use c (queue_end_to_end_attributes attributes c)
    negotiates : (version : ℕ) → Use c (record c { wire_field_version = version })
    cancels : Use c (cancel stream c).1

  pub data Uses (c : Channel) : Channel → Type 0 where
    unused : Uses c c
    used : {d e : Channel} → Uses c d → Use d e → Uses c e

  -- In the course of the uses a RESET came and was answered.
  pub record Reset (c : Channel) : Type 0 where
    pub counters : Counters
    pub before : Channel
    pub reached : Uses c before
    pub answered : Answered stream before (receive_round stream counters before).1

  abbrev InProgress : Channel → Type 0
  InProgress c = (supported c ≡ true) × (requested c ≡ true)

-- ===== src/Ttc/Queues.antt =====
-- What `Send` of src/ttc_channel.cpp does with the cursors and attributes that are queued.
use quack_oracle.Base.{
  ℕ, ◌+◌, ◌%◌, ◌≡◌, List, [], ◌∷◌, Result, ok, err, ProtocolErrorKind, malformed,
}
use quack_oracle.Base.Exec.{◌>>=◌, ◌>>◌}
use quack_oracle.Tns.Packet.{TnsPacket}
use quack_oracle.Tns.Cut.{joined}
use quack_oracle.Ttc.Piggyback.{no_attributes}
use quack_oracle.Ttc.Channel.{PacketStream, TtcChannel, send}
use quack_oracle.Ttc.Outbound.{Outbound, Unencoded, parts}

module _ (stream : PacketStream) where
  -- The stream took these packets, one after the other.
  pub data Handed : stream.State → List TnsPacket → stream.State → Type 0 where
    handed_none : {s : stream.State} → Handed s [] s
    handed :
        {p : TnsPacket} {ps : List TnsPacket} {s t u : stream.State}
        → stream.send p s ≡ (ok tt, t)
        → Handed t ps u
        → Handed s (p ∷ ps) u

  -- Why `Send` throws.
  pub data Cause (request : List ℕ) (c : TtcChannel stream.State) (e : ProtocolErrorKind)
      : Type 0 where
    empty_request : request ≡ [] → e ≡ malformed → Cause request c e
    unencoded : Unencoded c e → Cause request c e
    stream_threw :
        (p : TnsPacket) (s : stream.State) → (stream.send p s).0 ≡ err e → Cause request c e

  -- `Send` ended: packets went out whose contents together are the piggybacks and the request, and
  -- nothing is queued any more; or it threw, and only the stream changed.
  pub data Sending (request : List ℕ) (c : TtcChannel stream.State)
      : Result (Unit {0}) × TtcChannel stream.State → Type 0 where
    carried :
        {ps : List TnsPacket} {after : stream.State} {next : ℕ}
        → Outbound request c (joined ps)
        → Handed c.packets ps after
        → next ≡ (c.next_piggyback_sequence + parts c) % 256
        → Sending request c (
          ok tt,
          record c {
            packets = after;
            pending_close_cursors = [];
            pending_end_to_end = no_attributes;
            next_piggyback_sequence = next;
          },
        )
    kept :
        {e : ProtocolErrorKind} {after : stream.State}
        → Cause request c e
        → Sending request c (err e, record c { packets = after })

  -- The packets are handed over, or the stream throws.
  data Handing (c : TtcChannel stream.State) (ps : List TnsPacket)
      : Result (Unit {0}) × TtcChannel stream.State → Type 0 where
    all_handed :
        {after : stream.State}
        → Handed c.packets ps after
        → Handing c ps (ok tt, record c { packets = after })
    refused :
        {e : ProtocolErrorKind} {after : stream.State} (p : TnsPacket) (s : stream.State)
        → (stream.send p s).0 ≡ err e
        → Handing c ps (err e, record c { packets = after })

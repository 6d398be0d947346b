-- ===== src/Ttc/Tests.antt =====
-- Runs of the TTC channel over a stream that has a script of packets and keeps what is sent, and the
-- theorems about it there.
use quack_oracle.Base.{
  Ends, ◌⊎◌, ℕ, ◌+◌, ◌≤◌, ◌≡◌, ◌≢◌, refl, true, false, some, List, [], ◌∷◌, ◌++◌, length, ok, err,
  stuck, malformed, truncated, arith,
}
use quack_oracle.Base.Exec.{Exec}
use quack_oracle.Wire.Writer.{
  write_byte, write_ub4, write_universal, write_digits, count_bytes, write_length_prefixed,
  write_raw,
}
use quack_oracle.Wire.Reader.{
  reader, read_byte, read_ub2, read_ub4, read_ub8, read_universal, read_digits, read_raw,
  read_length_prefixed, skip, remaining,
}
use quack_oracle.Tns.Packet.{
  TnsPacket, encode_tns_data_packets, data_packets, decode_tns_packet, encode_tns_packet,
  length_field, declared_length,
}
use quack_oracle.Tns.Assembler.{push, take_buffered, reset}
use quack_oracle.Ttc.Piggyback.{
  no_attributes, is_empty, write_cursor_ids, piggyback_header, encode_close_cursors,
  check_attributes, sent_action, attribute_flags, declare, write_zeros, write_text,
  end_to_end_bytes, encode_end_to_end,
}
use quack_oracle.Ttc.Report.{
  skipped_bytes, session_report, session_return_report, skip_entries, skip_present,
  skip_server_piggyback,
}
use quack_oracle.Ttc.Acknowledgement.{encode_transaction, decode_transaction_status, read_status}
use quack_oracle.Ttc.ErrorInfo.{
  decode_error_prefix, error_prefix, error_tail, error_text, without_trailing, skip_rowid,
  skip_packed_ub2_array, skip_packed_ub4_array, skip_batch_messages, skip_packed, skip_elements,
  skip_messages, is_error_message,
}
use quack_oracle.Ttc.ErrorText.{
  parse_server_error, find_ora_code, code_here, code_digits, printable_projection, project,
  without_spaces,
}
use quack_oracle.Ttc.ErrorBounds.{Decoded, decode_error_prefix-Ends}
use quack_oracle.Ttc.CloseCursors.{read-encode_close_cursors, read_close_cursors}
use quack_oracle.Ttc.Uses.{Uses, sends}
use quack_oracle.Ttc.Cancelling.{Answered, receive_round-flag}
use quack_oracle.Ttc.Channel.{
  PacketStream, TtcChannel, marker, outbound_bytes, end_to_end_part, close_cursors_part,
  with_header_token, sent, send_packets, send, cancel, after_interrupt, queue_close_cursor,
  queue_end_to_end_attributes, merge_attributes, new_channel,
}
use quack_oracle.Ttc.Receiving.{
  Counters, receive, receive_loop, receive_round, on_marker, on_break, on_reset, on_data, on_pushed,
}
use quack_oracle.Ttc.Requests.{
  transaction_status, check_error, skip_reports, call_transaction, ping,
}
use quack_oracle.Ttc.ReceiveEnds.{Limited, cost, receive_ends}

record Script : Type 0 where
  pub incoming : List TnsPacket
  pub outgoing : List TnsPacket

take_packet : Exec Script TnsPacket
take_packet s = elim s.incoming [
  | [] ↦ (err truncated, s)
  | p ∷ ps ↦ (ok p, record s { incoming = ps })
]

abbrev scripted : PacketStream
scripted = record {
  State = Script;
  send = λ p s. (ok tt, record s { outgoing = s.outgoing ++ p ∷ [] });
  receive = take_packet;
}

-- The RESET markers that the script still has.
resets : List TnsPacket → ℕ
resets [] = 0
resets (p ∷ ps) = cost p + resets ps

abbrev AtMost : ℕ → Script → Type 0
AtMost k s = resets s.incoming ≤ k

scripted-Limited : Limited scripted AtMost
unfolding take_packet resets
scripted-Limited = record {
  receive_ends = λ s. ground arith;
  send_ends = λ p s. ground arith;
  receives = λ k s t p a e. ground (arith, a, e);
  sends = λ k s p a. a;
}

abbrev acknowledgement : TnsPacket
acknowledgement = record { packet_type = 6; flags = 0; payload = 8 ∷ 0 ∷ 9 ∷ 1 ∷ 4 ∷ 1 ∷ 2 ∷ [] }

abbrev talking : List TnsPacket → TtcChannel Script
talking incoming = record {
  packets = record { incoming = incoming; outgoing = [] };
  negotiated_sdu = 100;
  assembler = record { maximum_message_size = 50; buffered = [] };
  pending_close_cursors = 7 ∷ 300 ∷ [];
  pending_end_to_end = record no_attributes { action = some (97 ∷ []) };
  next_piggyback_sequence = 255;
  wire_field_version = 18;
  cancellation_supported = true;
  cancellation_requested = false;
}

open_channel : ℕ
unfolding take_packet write_byte write_ub4 write_universal write_digits count_bytes
    write_length_prefixed write_raw read_byte read_ub2 read_ub4 read_ub8 read_universal read_digits
    read_raw read_length_prefixed skip remaining encode_tns_data_packets data_packets
    decode_tns_packet encode_tns_packet length_field declared_length push take_buffered reset
    is_empty write_cursor_ids piggyback_header encode_close_cursors check_attributes sent_action
    attribute_flags declare write_zeros write_text end_to_end_bytes encode_end_to_end skipped_bytes
    session_report session_return_report skip_entries skip_present skip_server_piggyback
    encode_transaction decode_transaction_status read_status decode_error_prefix error_prefix
    error_tail error_text without_trailing skip_rowid skip_packed_ub2_array skip_packed_ub4_array
    skip_batch_messages skip_packed skip_elements skip_messages is_error_message parse_server_error
    find_ora_code code_here code_digits printable_projection project without_spaces outbound_bytes
    end_to_end_part close_cursors_part with_header_token sent send_packets send cancel
    after_interrupt queue_close_cursor queue_end_to_end_attributes merge_attributes new_channel
    receive receive_loop receive_round on_marker on_break on_reset on_data on_pushed
    transaction_status check_error skip_reports call_transaction ping
open_channel = 0

closes_cursors :
    encode_close_cursors 3 (7 ∷ 300 ∷ []) ≡ ok (17 ∷ 105 ∷ 3 ∷ 1 ∷ 1 ∷ 2 ∷ 1 ∷ 7 ∷ 2 ∷ 1 ∷ 44 ∷ [])
unfolding open_channel
closes_cursors = refl

cursor_zero : encode_close_cursors 3 (7 ∷ 0 ∷ []) ≡ err malformed
unfolding open_channel
cursor_zero = refl

-- The module is sent with an empty action.
sets_module :
    encode_end_to_end 1 (record no_attributes { module_name = some (109 ∷ []) })
    ≡ ok (
        17 ∷ 135 ∷ 1 ∷ 0 ∷ 0 ∷ 1 ∷ 24 ∷ 0 ∷ 0 ∷ 1 ∷ 1 ∷ 1 ∷ 1 ∷ 0 ∷ 0 ∷ 0 ∷ 0 ∷ 0 ∷ 0 ∷ 0 ∷ 0 ∷ 0
        ∷ 0 ∷ 0 ∷ 0 ∷ 0 ∷ 1 ∷ 109 ∷ [])
unfolding open_channel
sets_module = refl

finds_code :
    parse_server_error (4 ∷ 1 ∷ 79 ∷ 82 ∷ 65 ∷ 45 ∷ 48 ∷ 49 ∷ 52 ∷ 48 ∷ 51 ∷ 58 ∷ 10 ∷ [])
    ≡ ok (record {
      ora_code = some 1403;
      message = some (79 ∷ 82 ∷ 65 ∷ 45 ∷ 48 ∷ 49 ∷ 52 ∷ 48 ∷ 51 ∷ 58 ∷ []);
    })
unfolding open_channel
finds_code = refl

commits :
    (call_transaction scripted 3 14 9 12 (record (talking (marker 0 1 ∷ acknowledgement ∷ [])) {
      pending_close_cursors = [];
      pending_end_to_end = no_attributes;
    })).0
    ≡ ok (record { call_status = 4; end_to_end_sequence = 2 })
unfolding open_channel
commits = refl

abbrev no_data : List ℕ
no_data =
    4 ∷ 1 ∷ 1 ∷ 0 ∷ 0 ∷ 0 ∷ 0 ∷ 0 ∷ 1 ∷ 5 ∷ 0 ∷ 0 ∷ 0 ∷ 0 ∷ 0 ∷ 0 ∷ 0 ∷ 0 ∷ 0 ∷ 0 ∷ 0 ∷ 0 ∷ 0 ∷ 0
    ∷ 0 ∷ 0 ∷ 0 ∷ 0 ∷ 0 ∷ 0 ∷ 0 ∷ 2 ∷ 5 ∷ 123 ∷ 1 ∷ 1 ∷ 3 ∷ 79 ∷ 107 ∷ 10 ∷ []

no_data_error :
    decode_error_prefix no_data 12
    ≡ ok (record {
      error_number = 1403;
      cursor_id = 5;
      current_row = 0;
      row_count = 1;
      message = 79 ∷ 107 ∷ [];
      bytes_consumed = 40;
    })
unfolding open_channel
no_data_error = refl

decode_error_prefix-Ends_example :
    Ends (Decoded 0 (length no_data)) (decode_error_prefix no_data 12)
decode_error_prefix-Ends_example = decode_error_prefix-Ends no_data 12

abbrev report : List ℕ
report = 23 ∷ 5 ∷ 0 ∷ 0 ∷ 1 ∷ 1 ∷ 0 ∷ 1 ∷ 1 ∷ 1 ∷ 65 ∷ 0 ∷ 0 ∷ 0 ∷ 9 ∷ 0 ∷ 0 ∷ []

skips_report : skip_reports 18 report ≡ ok (9 ∷ 0 ∷ 0 ∷ [])
unfolding open_channel
skips_report = refl

receive_ends_example :
    (receive scripted 70 (talking (marker 0 2 ∷ marker 0 1 ∷ acknowledgement ∷ []))).0 ≢ stuck
unfolding resets
receive_ends_example =
    receive_ends scripted AtMost scripted-Limited 70 1
      (talking (marker 0 2 ∷ marker 0 1 ∷ acknowledgement ∷ [])) (omega arith) (omega arith)

abbrev cancelling : TtcChannel Script
cancelling = record (talking []) {
  packets = record { incoming = []; outgoing = marker 0 3 ∷ [] };
  cancellation_requested = true;
}

abbrev fresh : Counters
fresh = record { resets = 0; empty_fragments = 0 }

abbrev interrupted : TtcChannel Script
interrupted = record cancelling {
  packets = record { incoming = marker 0 2 ∷ []; outgoing = marker 0 3 ∷ [] };
}

read-encode_close_cursors_example :
    (body : List ℕ) × (encode_close_cursors 3 (7 ∷ 300 ∷ []) ≡ ok (17 ∷ 105 ∷ 3 ∷ 1 ∷ body))
    × (read_close_cursors (reader 4 body) ≡ ok (7 ∷ 300 ∷ [], reader (4 + length body) []))
read-encode_close_cursors_example =
    read-encode_close_cursors 3 7 (300 ∷ [])
      ((omega arith, omega arith), ((omega arith, omega arith), tt)) (omega arith)

-- A request sent and a cursor queued during the cancellation.
abbrev later : TtcChannel Script
later = (queue_close_cursor 9 (send scripted (3 ∷ 14 ∷ 9 ∷ []) cancelling).1).1

receive_round-flag_example :
    ((receive_round scripted fresh interrupted).1.cancellation_requested ≡ true)
    ⊎ Answered scripted interrupted (receive_round scripted fresh interrupted).1
receive_round-flag_example = receive_round-flag scripted fresh interrupted refl

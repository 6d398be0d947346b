-- ===== src/Ttc/Acknowledgement.antt =====
-- src/ttc_transaction.cpp: the requests to commit and to roll back, and the status that answers them.
use quack_oracle.Base.{ℕ, not, ◌==◌, List, [], Result, ok, err, stuck, malformed}
use quack_oracle.Wire.Writer.{write_byte}
use quack_oracle.Wire.Reader.{
  ByteReader, reader, Read, ◌>>=◌, ◌>>◌, pure, throw_if, read_byte, read_ub2, read_ub4, remaining,
}

abbrev pub message_function : ℕ
message_function = 3

abbrev pub function_commit : ℕ
function_commit = 14

abbrev pub function_rollback : ℕ
function_rollback = 15

abbrev pub message_status : ℕ
message_status = 9

-- `EncodeTransaction`
unfoldable pub encode_transaction : ℕ → ℕ → List ℕ
encode_transaction code sequence =
    write_byte (write_byte (write_byte [] message_function) code) sequence

pub record TtcTransactionStatus : Type 0 where
  pub call_status : ℕ
  pub end_to_end_sequence : ℕ

unfoldable pub read_status : Read TtcTransactionStatus
read_status = do
  code ← read_byte
  throw_if (not (code == message_status)) malformed
  status ← read_ub4
  sequence ← read_ub2
  (λ r. throw_if (not (remaining r == 0)) malformed r)
  pure (record { call_status = status; end_to_end_sequence = sequence })

abbrev pub status_of : Result (TtcTransactionStatus × ByteReader) → Result TtcTransactionStatus
status_of (ok (s, r)) = ok s
status_of (err e) = err e
status_of stuck = stuck

-- `DecodeTtcTransactionStatus`
unfoldable pub decode_transaction_status : List ℕ → Result TtcTransactionStatus
unfolding read_status
decode_transaction_status message = status_of (read_status (reader 0 message))

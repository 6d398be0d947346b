-- ===== src/Ttc/Report.antt =====
-- src/ttc_piggyback.cpp, the report that the server puts before a response: it is skipped.
use quack_oracle.Base.{
  ℕ, zero, suc, ◌+◌, not, List, [], ◌∷◌, ltb, ◌==◌, if◌then◌else◌, length, drop, Result, ok, err,
  stuck, malformed, limit_exceeded, unsupported,
}
use quack_oracle.Base.Results
use quack_oracle.Wire.Reader.{
  ByteReader, reader, Read, ◌>>=◌, ◌>>◌, pure, throw_if, read_byte, read_ub2, read_ub4,
  read_length_prefixed,
}

abbrev pub message_server_piggyback : ℕ
message_server_piggyback = 23

abbrev pub session_return : ℕ
session_return = 5

abbrev pub max_elements : ℕ
max_elements = 1024

abbrev pub max_value_bytes : ℕ
max_value_bytes = 65536

-- `if (reader.ReadUB2() > 0) (void)reader.ReadLengthPrefixed(MAX_VALUE_BYTES);`
unfoldable pub skip_present : Read (Unit {0})
skip_present = do
  size ← read_ub2
  (if size == 0 then pure tt else do _ ← read_length_prefixed max_value_bytes; pure tt)

-- The loop over the entries, with the entries left.
unfoldable pub skip_entries : ℕ → Read (Unit {0})
skip_entries zero = pure tt
skip_entries (suc left) = do skip_present; skip_present; _ ← read_ub2; skip_entries left

-- The position after the report, from behind its first byte.
unfoldable pub session_return_report : Read ℕ
session_return_report = do
  opcode ← read_byte
  throw_if (not (opcode == session_return)) unsupported
  _ ← read_ub2
  _ ← read_byte
  elements ← read_ub2
  throw_if (ltb max_elements elements) limit_exceeded
  _ ← read_byte
  skip_entries elements
  change ← read_ub4
  throw_if (not (change == 0)) unsupported
  (λ r. pure r.position r)

abbrev pub value_of : Result (ℕ × ByteReader) → Result ℕ
value_of (ok (n, r)) = ok n
value_of (err e) = err e
value_of stuck = stuck

unfoldable pub session_report : Read ℕ
session_report = do _ ← read_byte; session_return_report

-- `SkippedTtcServerPiggybackBytes`
unfoldable pub skipped_bytes : List ℕ → Result ℕ
skipped_bytes [] = err malformed
skipped_bytes (b ∷ bs) =
    if b == message_server_piggyback
    then value_of (session_report (reader 0 (b ∷ bs)))
    else err malformed

-- `SkipTtcServerPiggyback`
unfoldable pub skip_server_piggyback : List ℕ → ℕ → Result ℕ
skip_server_piggyback message offset =
    if ltb (length message) offset
    then err malformed
    else Results.◌>>=◌ (skipped_bytes (drop offset message)) (λ n. ok (offset + n))

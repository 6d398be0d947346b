-- ===== src/Ttc/ErrorInfo.antt =====
-- src/ttc_error.cpp: the decoder of a TTC ERROR message. The handler that names the offset in the text
-- of an error keeps its kind, and so has no place here.
use quack_oracle.Base.{
  ℕ, zero, suc, Bool, true, false, not, ◌||◌, Option, none, some, List, [], ◌∷◌, ltb, leb, ◌==◌,
  if◌then◌else◌, Result, ok, err, stuck, malformed, limit_exceeded,
}
use quack_oracle.Wire.Reader.{
  ByteReader, reader, Read, ◌>>=◌, ◌>>◌, pure, throw, throw_if, read_byte, read_ub2, read_ub4,
  read_ub8, skip, read_length_prefixed, long_length_indicator,
}

abbrev pub message_error : ℕ
message_error = 4

abbrev pub field_version_error_trailer : ℕ
field_version_error_trailer = 14

abbrev pub max_batch_errors : ℕ
max_batch_errors = 65535

abbrev pub max_error_text_bytes : ℕ
max_error_text_bytes = 65535

-- `if (test) ...` before the rest of a function.
abbrev pub when : Bool → Read (Unit {0}) → Read (Unit {0})
when true m = m
when false m = pure tt

-- `reader.ReadUB4();` and the like, whose value is not used.
abbrev pub ignore : {A : Type 0} → Read A → Read (Unit {0})
ignore m = do _ ← m; pure tt

-- The loop of a packed array whose elements `element` reads.
unfoldable pub skip_elements : Read ℕ → ℕ → ℕ → Read (Unit {0})
skip_elements element marker zero = pure tt
skip_elements element marker (suc left) = do
  when (marker == long_length_indicator) (ignore read_ub4)
  ignore element
  skip_elements element marker left

-- What both arrays have behind their count.
unfoldable pub skip_packed : Read ℕ → ℕ → Read (Unit {0})
skip_packed element count =
    (if count == 0 then pure tt else do
      marker ← read_byte
      skip_elements element marker count
      when (marker == long_length_indicator) (skip 1))

-- `SkipPackedUb2Array`
unfoldable pub skip_packed_ub2_array : Read (Unit {0})
skip_packed_ub2_array = do count ← read_ub2; skip_packed read_ub2 count

-- `SkipPackedUb4Array`
unfoldable pub skip_packed_ub4_array : Read (Unit {0})
skip_packed_ub4_array = do
  count ← read_ub4
  throw_if (ltb max_batch_errors count) limit_exceeded
  skip_packed read_ub4 count

-- The loop of `SkipBatchMessages`.
unfoldable pub skip_messages : ℕ → Read (Unit {0})
skip_messages zero = pure tt
skip_messages (suc left) = do
  ignore read_ub2
  ignore (read_length_prefixed max_error_text_bytes)
  skip 2
  skip_messages left

unfoldable pub skip_batch_messages : Read (Unit {0})
skip_batch_messages = do
  count ← read_ub2
  throw_if (ltb max_batch_errors count) limit_exceeded
  (if count == 0 then pure tt else do skip 1; skip_messages count)

-- The fields between the cursor id and the rowid's buffer.
unfoldable pub skip_rowid : Read (Unit {0})
skip_rowid = do
  ignore read_ub4
  skip 6
  ignore read_ub4
  ignore read_ub2
  skip 1
  ignore read_ub4
  ignore read_ub2
  ignore read_ub4
  skip 1
  skip 1
  ignore read_ub2
  ignore read_ub4
  logical_rowid_bytes ← read_ub4
  when (not (logical_rowid_bytes == 0)) (ignore (read_length_prefixed max_error_text_bytes))

abbrev pub is_trailing : ℕ → Bool
is_trailing c = c == 10 || c == 13 || c == 32

-- `while (!empty() && (back() == '\n' || ...)) pop_back();`: a character that the loop takes off has
-- none but such behind it.
unfoldable pub without_trailing : List ℕ → List ℕ
without_trailing [] = []
without_trailing (c ∷ cs) = elim (without_trailing cs) [
  | [] ↦ if is_trailing c then [] else c ∷ []
  | d ∷ ds ↦ c ∷ d ∷ ds
]

abbrev pub required_text : Option (List ℕ) → Read (List ℕ)
required_text none = throw malformed
required_text (some text) = pure (without_trailing text)

-- The text is there when the error number is not 0.
unfoldable pub error_text : ℕ → Read (List ℕ)
error_text error_number =
    (if error_number == 0
      then pure []
      else do text ← read_length_prefixed max_error_text_bytes; required_text text)

pub record TtcErrorInfo : Type 0 where
  pub error_number : ℕ
  pub cursor_id : ℕ
  pub current_row : ℕ
  pub row_count : ℕ
  pub message : List ℕ
  pub bytes_consumed : ℕ

-- The end of a message, behind the arrays.
unfoldable pub error_tail : ℕ → ℕ → ℕ → Read TtcErrorInfo
error_tail ttc_field_version cursor_id current_row = do
  error_number ← read_ub4
  row_count ← read_ub8
  when (leb field_version_error_trailer ttc_field_version) (do ignore read_ub4; ignore read_ub4)
  text ← error_text error_number
  (λ r.
      pure
        (record {
          error_number = error_number;
          cursor_id = cursor_id;
          current_row = current_row;
          row_count = row_count;
          message = text;
          bytes_consumed = r.position;
        })
        r)

unfoldable pub error_prefix : ℕ → Read TtcErrorInfo
error_prefix ttc_field_version = do
  code ← read_byte
  throw_if (not (code == message_error)) malformed
  ignore read_ub4
  ignore read_ub2
  current_row ← read_ub4
  ignore read_ub2
  ignore read_ub2
  ignore read_ub2
  cursor_id ← read_ub4
  skip_rowid
  skip_packed_ub2_array
  skip_packed_ub4_array
  skip_batch_messages
  error_tail ttc_field_version cursor_id current_row

abbrev pub info_of : Result (TtcErrorInfo × ByteReader) → Result TtcErrorInfo
info_of (ok (info, r)) = ok info
info_of (err e) = err e
info_of stuck = stuck

-- `DecodeTtcErrorPrefix`
unfoldable pub decode_error_prefix : List ℕ → ℕ → Result TtcErrorInfo
decode_error_prefix message ttc_field_version =
    info_of (error_prefix ttc_field_version (reader 0 message))

-- `IsTtcErrorMessage`
unfoldable pub is_error_message : List ℕ → Bool
is_error_message [] = false
is_error_message (b ∷ bs) = b == message_error

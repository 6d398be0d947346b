-- ===== src/Ttc/Piggyback.antt =====
-- src/ttc_piggyback.cpp, the piggybacks that the client puts before a call. A text is its bytes.
use quack_oracle.Base.{
  ℕ, zero, suc, ◌+◌, ◌%◌, ◌^◌, Bool, true, false, not, ◌&&◌, Option, none, some, List, [], ◌∷◌, ltb,
  ◌==◌, if◌then◌else◌, length, Result, ok, err, malformed, limit_exceeded, ◌>>◌, throw_if,
}
use quack_oracle.Wire.Writer.{ByteWriter, write_byte, write_ub4, write_length_prefixed}

abbrev pub message_piggyback : ℕ
message_piggyback = 17

abbrev pub piggyback_close_cursors : ℕ
piggyback_close_cursors = 105

abbrev pub piggyback_end_to_end : ℕ
piggyback_end_to_end = 135

-- `for (const auto cursor_id : cursor_ids)`
unfoldable pub write_cursor_ids : ByteWriter → List ℕ → Result ByteWriter
write_cursor_ids w [] = ok w
write_cursor_ids w (cursor_id ∷ ids) =
    let rest = write_cursor_ids (write_ub4 w cursor_id) ids in
    if cursor_id == 0 then err malformed else rest

-- The message code, the piggyback's code and its sequence number.
unfoldable pub piggyback_header : ℕ → ℕ → ByteWriter
piggyback_header code sequence =
    write_byte (write_byte (write_byte [] message_piggyback) code) sequence

unfoldable pub encode_close_cursors : ℕ → List ℕ → Result (List ℕ)
encode_close_cursors sequence [] = err malformed
encode_close_cursors sequence (cursor_id ∷ ids) =
    write_cursor_ids
      (write_ub4 (write_byte (piggyback_header piggyback_close_cursors sequence) 1)
        (length (cursor_id ∷ ids) % 2 ^ 32))
      (cursor_id ∷ ids)

abbrev pub Text : Type 0
Text = Option (List ℕ)

pub record TtcEndToEndAttributes : Type 0 where
  pub client_identifier : Text
  pub module_name : Text
  pub action : Text
  pub client_info : Text

abbrev pub has_value : Text → Bool
has_value none = false
has_value (some t) = true

abbrev pub no_attributes : TtcEndToEndAttributes
no_attributes = record {
  client_identifier = none;
  module_name = none;
  action = none;
  client_info = none;
}

-- `Empty()`
unfoldable pub is_empty : TtcEndToEndAttributes → Bool
is_empty a =
    not (has_value a.client_identifier)
    && not (has_value a.module_name)
    && not (has_value a.action)
    && not (has_value a.client_info)

abbrev pub longer_than : Text → ℕ → Bool
longer_than none maximum = false
longer_than (some t) maximum = ltb maximum (length t)

-- `check` of the four attributes, with their limits.
unfoldable pub check_attributes : TtcEndToEndAttributes → Result (Unit {0})
check_attributes a = do
  throw_if (longer_than a.client_identifier 64) limit_exceeded
  throw_if (longer_than a.module_name 48) limit_exceeded
  throw_if (longer_than a.action 32) limit_exceeded
  throw_if (longer_than a.client_info 64) limit_exceeded

-- `if (attributes.module && !action) action = std::string();`
unfoldable pub sent_action : TtcEndToEndAttributes → Text
sent_action a = if has_value a.module_name && not (has_value a.action) then some [] else a.action

abbrev pub flag_if : Text → ℕ → ℕ
flag_if none flag = 0
flag_if (some t) flag = flag

-- The flags share no bit, so that `|=` adds.
unfoldable pub attribute_flags : TtcEndToEndAttributes → ℕ
attribute_flags a =
    flag_if a.client_identifier 1
    + flag_if a.module_name 8
    + flag_if (sent_action a) 16
    + flag_if a.client_info 256

-- `declare`
unfoldable pub declare : ByteWriter → Text → ByteWriter
declare w none = write_ub4 (write_byte w 0) 0
declare w (some t) = write_ub4 (write_byte w 1) (length t % 2 ^ 32)

unfoldable pub write_zeros : ℕ → ByteWriter → ByteWriter
write_zeros zero w = w
write_zeros (suc n) w = write_zeros n (write_byte w 0)

-- `if (*value && !(*value)->empty())`
unfoldable pub write_text : ByteWriter → Text → ByteWriter
write_text w none = w
write_text w (some []) = w
write_text w (some (b ∷ bs)) = write_length_prefixed w (some (b ∷ bs))

unfoldable pub end_to_end_bytes : ℕ → TtcEndToEndAttributes → List ℕ
end_to_end_bytes sequence a =
    let action = sent_action a in
    let flagged =
      write_ub4 (write_zeros 2 (piggyback_header piggyback_end_to_end sequence))
        (attribute_flags a) in
    let declared = declare (declare (declare flagged a.client_identifier) a.module_name) action in
    let opened = write_zeros 6 (declare (write_zeros 4 declared) a.client_info) in
    write_text
      (write_text (write_text (write_text opened a.client_identifier) a.module_name) action)
      a.client_info

unfoldable pub encode_end_to_end : ℕ → TtcEndToEndAttributes → Result (List ℕ)
encode_end_to_end sequence a = do
  throw_if (is_empty a) malformed
  check_attributes a
  ok (end_to_end_bytes sequence a)

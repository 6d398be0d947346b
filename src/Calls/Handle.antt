-- ===== src/Calls/Handle.antt =====
-- The text of a cursor handle in src/call_registry.cpp, as bytes.
use quack_oracle.Base.{
  ℕ, zero, suc, ◌+◌, ◌-◌, ◌*◌, ◌/◌, ◌%◌, ◌^◌, Bool, true, false, not, ◌&&◌, ◌||◌, Option, none,
  some, List, [], ◌∷◌, ◌++◌, ltb, leb, ◌==◌, if◌then◌else◌, length, take, drop, Result, ok, err,
  throw_if, ◌>>=◌, ◌>>◌, malformed,
}
use quack_oracle.Calls.{CursorHandle}

abbrev pub colon : ℕ
colon = 58

-- oracle:
abbrev pub cursor_handle_prefix : List ℕ
cursor_handle_prefix = 111 ∷ 114 ∷ 97 ∷ 99 ∷ 108 ∷ 101 ∷ 58 ∷ []

-- std::to_string in front of a text; 20 digits are enough for 64 bits.
unfoldable pub decimal : ℕ → ℕ → List ℕ → List ℕ
decimal zero value behind = behind
decimal (suc digits) value behind =
    let text = decimal digits (value / 10) ((48 + value % 10) ∷ behind) in
    if ltb value 10 then (48 + value) ∷ behind else text

unfoldable pub format_cursor_handle : CursorHandle → Result (List ℕ)
format_cursor_handle handle =
    throw_if (handle.call_id == 0 || handle.cursor_id == 0) malformed
    >> ok
        (cursor_handle_prefix ++ decimal 20 handle.call_id (colon ∷ decimal 20 handle.cursor_id []))

-- std::from_chars for an unsigned type with `size` values, when it reads to the end without overflow.
unfoldable pub from_chars : ℕ → ℕ → List ℕ → Option ℕ
from_chars size result [] = some result
from_chars size result (c ∷ rest) =
    let next = result * 10 + (c - 48) in
    let value = from_chars size next rest in
    if leb 48 c && leb c 57 && ltb next size then value else none

abbrev pub begins_zero : List ℕ → Bool
begins_zero [] = false
begins_zero (c ∷ rest) = c == 48

unfoldable pub parse_positive_decimal : ℕ → List ℕ → Result ℕ
parse_positive_decimal size value =
    throw_if (length value == 0 || (ltb 1 (length value) && begins_zero value)) malformed
    >> elim (from_chars size 0 value) [
      | none ↦ err malformed
      | some result ↦ throw_if (result == 0) malformed >> ok result
    ]

-- The text before the first colon, and behind it.
unfoldable pub split_colon : List ℕ → Option (List ℕ × List ℕ)
split_colon [] = none
split_colon (c ∷ rest) =
    let later = split_colon rest in
    if c == colon
    then some ([], rest)
    else elim later [ none ↦ none | some s ↦ some (c ∷ s.0, s.1) ]

abbrev pub has_colon : Option (List ℕ × List ℕ) → Bool
has_colon none = false
has_colon (some s) = true

unfoldable pub same_text : List ℕ → List ℕ → Bool
same_text [] [] = true
same_text [] (d ∷ ys) = false
same_text (c ∷ xs) [] = false
same_text (c ∷ xs) (d ∷ ys) = c == d && same_text xs ys

unfoldable pub parse_parts : Option (List ℕ × List ℕ) → Result CursorHandle
parse_parts none = err malformed
parse_parts (some parts) = do
  throw_if (has_colon (split_colon parts.1)) malformed
  call_id ← parse_positive_decimal (2 ^ 64) parts.0
  cursor_id ← parse_positive_decimal (2 ^ 32) parts.1
  ok (record { call_id = call_id; cursor_id = cursor_id })

unfoldable pub parse_cursor_handle : List ℕ → Result CursorHandle
unfolding parse_parts
parse_cursor_handle value = do
  throw_if (not (same_text (take 7 value) cursor_handle_prefix)) malformed
  parse_parts (split_colon (drop 7 value))

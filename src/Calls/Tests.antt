-- ===== src/Calls/Tests.antt =====
-- A call with two cursors, and the theorems about `Register` and `Take` at it.
use quack_oracle.Base.{
  List, ℕ, ◌≡◌, refl, none, some, [], ◌∷◌, ok, err, invalid_state, limit_exceeded, malformed,
}
use quack_oracle.Base.Assoc.{find, emplace, assign, erase}
use quack_oracle.Calls.{
  CursorHandle, CallRegistry, new_registry, has_null, free_call_id, numbered, handles_of, add_call,
  register, register_result, without_cursor, take_found, take, close, close_all,
}
use quack_oracle.Calls.Handle.{
  decimal, format_cursor_handle, from_chars, parse_positive_decimal, split_colon, same_text,
  parse_parts, parse_cursor_handle,
}
use quack_oracle.Calls.Once.{take_once}
use quack_oracle.Calls.Registered.{Registered}

open_calls : ℕ
unfolding find emplace assign erase new_registry has_null free_call_id numbered handles_of add_call
    register register_result without_cursor take_found take close close_all
open_calls = 0

abbrev empty_registry : CallRegistry
empty_registry = record {
  calls = [];
  next_call_id = 1;
  open_cursor_count = 0;
  maximum_open_cursors = 2;
}

abbrev two_cursors : CallRegistry
two_cursors = record {
  calls = (1, (2, 71) ∷ (1, 70) ∷ []) ∷ [];
  next_call_id = 2;
  open_cursor_count = 2;
  maximum_open_cursors = 2;
}

abbrev first_handle : CursorHandle
first_handle = record { call_id = 1; cursor_id = 1 }

abbrev one_cursor : CallRegistry
one_cursor = record two_cursors { calls = (1, (2, 71) ∷ []) ∷ []; open_cursor_count = 1 }

registered :
    register_result (some 70 ∷ []) (some 71 ∷ []) empty_registry
    ≡ (ok (first_handle ∷ (record { call_id = 1; cursor_id = 2 }) ∷ []), two_cursors)
unfolding open_calls
registered = refl

-- The call ids wrap around, past 0 and the id that is taken.
abbrev at_end : CallRegistry
at_end = record two_cursors { next_call_id = 0; maximum_open_cursors = 4 }

wrapped : (register (some 72 ∷ some 73 ∷ []) at_end).1.next_call_id ≡ 3
unfolding open_calls
wrapped = refl

-- The id behind the last one of 32 bits is 0.
last_id : handles_of 1 4294967295 (some 70 ∷ some 71 ∷ []) ≡ (
    (record { call_id = 1; cursor_id = 4294967295 }) ∷ (record { call_id = 1; cursor_id = 0 }) ∷ [])
unfolding open_calls
last_id = refl

no_room : (register (some 72 ∷ []) two_cursors).0 ≡ err limit_exceeded
unfolding open_calls
no_room = refl

null_cursor : (register (some 70 ∷ none ∷ []) empty_registry).0 ≡ err malformed
unfolding open_calls
null_cursor = refl

last_taken :
    (take (record { call_id = 1; cursor_id = 2 }) one_cursor).1
    ≡ record two_cursors { calls = []; open_cursor_count = 0 }
unfolding open_calls
last_taken = refl

taken : take first_handle two_cursors ≡ (ok 70, one_cursor)
unfolding open_calls
taken = refl

found : find 1 two_cursors.calls ≡ some ((2, 71) ∷ (1, 70) ∷ [])
unfolding open_calls
found = refl

take_once_example : take first_handle one_cursor ≡ (err invalid_state, one_cursor)
unfolding open_calls
take_once_example =
    take_once first_handle two_cursors one_cursor 70 ((2, 71) ∷ (1, 70) ∷ []) (refl, tt) found
      (refl, (refl, tt)) taken

open_handle : ℕ
unfolding decimal format_cursor_handle from_chars parse_positive_decimal split_colon same_text
    parse_parts parse_cursor_handle
open_handle = 0

-- oracle:12:3
abbrev handle_text : List ℕ
handle_text = 111 ∷ 114 ∷ 97 ∷ 99 ∷ 108 ∷ 101 ∷ 58 ∷ 49 ∷ 50 ∷ 58 ∷ 51 ∷ []

formatted : format_cursor_handle (record { call_id = 12; cursor_id = 3 }) ≡ ok handle_text
unfolding open_handle
formatted = refl

parsed : parse_cursor_handle handle_text ≡ ok (record { call_id = 12; cursor_id = 3 })
unfolding open_handle
parsed = refl

leading_zero :
    parse_cursor_handle (111 ∷ 114 ∷ 97 ∷ 99 ∷ 108 ∷ 101 ∷ 58 ∷ 48 ∷ 50 ∷ 58 ∷ 51 ∷ [])
    ≡ err malformed
unfolding open_handle
leading_zero = refl

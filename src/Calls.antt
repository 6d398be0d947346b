-- ===== src/Calls.antt =====
-- src/call_registry.cpp: the cursors that procedure calls returned, until SQL takes them. A cursor is a
-- number. A method is atomic, since it holds the registry's mutex; `Close` of a cursor, which runs after
-- it, is what a caller does with the cursors that a method hands back here.
pub mod Once
pub mod Handle
pub mod FreeId
pub mod Registered
mod Tests
use quack_oracle.Base.{
  ℕ, zero, suc, ◌+◌, ◌-◌, ◌%◌, ◌^◌, Bool, true, false, not, ◌||◌, Option, none, some, List, [], ◌∷◌,
  ◌++◌, ltb, ◌==◌, if◌then◌else◌, length, map, Result, ok, err, stuck, malformed, limit_exceeded,
  invalid_state,
}
use quack_oracle.Base.Assoc.{Map, find, emplace, assign, erase}
use quack_oracle.Base.Exec.{Exec}

pub record CursorHandle : Type 0 where
  pub call_id : ℕ
  pub cursor_id : ℕ

pub record CallRegistry : Type 0 where
  pub calls : Map (Map ℕ)
  pub next_call_id : ℕ
  pub open_cursor_count : ℕ
  pub maximum_open_cursors : ℕ

unfoldable pub new_registry : ℕ → Result CallRegistry
new_registry maximum =
    if maximum == 0
    then err malformed
    else ok (record {
      calls = [];
      next_call_id = 1;
      open_cursor_count = 0;
      maximum_open_cursors = maximum;
    })

-- Some cursor is null.
unfoldable pub has_null : List (Option ℕ) → Bool
has_null [] = false
has_null (none ∷ cursors) = true
has_null (some c ∷ cursors) = has_null cursors

abbrev pub is_used : Option (Map ℕ) → Bool
is_used none = false
is_used (some cursors) = true

-- The loop that looks for an unused call id other than 0, and the id where it stops.
unfoldable pub free_call_id : ℕ → Map (Map ℕ) → ℕ → Result ℕ
free_call_id zero calls id = stuck
free_call_id (suc fuel) calls id = elim (id == 0 || is_used (find id calls)) [
  | true ↦ free_call_id fuel calls ((id + 1) % 2 ^ 64)
  | false ↦ ok id
]

-- `cursor_id++`, of 32 bits.
abbrev pub next_cursor_id : ℕ → ℕ
next_cursor_id id = (id + 1) % 2 ^ 32

-- The loop over the cursors, none of which is null: the map with each under its id, where an id that
-- is there keeps its cursor, and the handles.
unfoldable pub numbered : ℕ → List (Option ℕ) → Map ℕ → Map ℕ
numbered id [] owned = owned
numbered id (none ∷ cursors) owned = numbered (next_cursor_id id) cursors owned
numbered id (some c ∷ cursors) owned = numbered (next_cursor_id id) cursors (emplace id c owned)

unfoldable pub handles_of : ℕ → ℕ → List (Option ℕ) → List CursorHandle
handles_of call_id id [] = []
handles_of call_id id (c ∷ cursors) =
    (record { call_id = call_id; cursor_id = id }) ∷ handles_of call_id (next_cursor_id id) cursors

-- `Register` of at least one cursor under a free id.
unfoldable pub add_call : ℕ → List (Option ℕ) → CallRegistry → CallRegistry
add_call call_id cursors r =
    let owned = numbered 1 cursors [] in
    record r {
      calls = emplace call_id owned r.calls;
      next_call_id = (call_id + 1) % 2 ^ 64;
      open_cursor_count = r.open_cursor_count + length owned;
    }

-- The fuel is enough for every used id, for 0, and for the free one.
unfoldable pub register : List (Option ℕ) → Exec CallRegistry (List CursorHandle)
register [] r = (err malformed, r)
register (first ∷ others) r =
    let cursors = first ∷ others in
    if ltb (r.maximum_open_cursors - r.open_cursor_count) (length cursors)
    then (err limit_exceeded, r)
    else if has_null cursors
    then (err malformed, r)
    else elim (free_call_id (length r.calls + 2) r.calls r.next_call_id) [
      | ok call_id ↦ (ok (handles_of call_id 1 cursors), add_call call_id cursors r)
      | err e ↦ (err e, r)
      | stuck ↦ (stuck, r)
    ]

-- `Register` of a call's result: the explicit cursors, then the implicit ones.
unfoldable pub register_result :
    List (Option ℕ) → List (Option ℕ) → Exec CallRegistry (List CursorHandle)
register_result explicit_cursors implicit_cursors = register (explicit_cursors ++ implicit_cursors)

-- What `Take` does with the call of a cursor that it found.
unfoldable pub without_cursor : CursorHandle → Map ℕ → CallRegistry → CallRegistry
without_cursor handle cursors r =
    let left = erase handle.cursor_id cursors in
    record r {
      open_cursor_count = r.open_cursor_count - 1;
      calls =
          if length left == 0
          then erase handle.call_id r.calls
          else assign handle.call_id left r.calls;
    }

unfoldable pub take_found : CursorHandle → Option (Map ℕ) → Exec CallRegistry ℕ
take_found handle none r = (err invalid_state, r)
take_found handle (some cursors) r = elim (find handle.cursor_id cursors) [
  | none ↦ (err invalid_state, r)
  | some cursor ↦ (ok cursor, without_cursor handle cursors r)
]

unfoldable pub take : CursorHandle → Exec CallRegistry ℕ
unfolding take_found
take handle r = take_found handle (find handle.call_id r.calls) r

-- Whether the call was there, and its cursors, which are closed.
unfoldable pub close : ℕ → CallRegistry → Bool × Map ℕ × CallRegistry
close call_id r = elim (find call_id r.calls) [
  | none ↦ (false, [], r)
  | some cursors ↦ (
    true,
    cursors,
    record r {
      open_cursor_count = r.open_cursor_count - length cursors;
      calls = erase call_id r.calls;
    },
  )
]

-- The calls whose cursors are closed, and the registry.
unfoldable pub close_all : CallRegistry → Map (Map ℕ) × CallRegistry
close_all r = (r.calls, record r { calls = []; open_cursor_count = 0 })

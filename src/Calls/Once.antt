-- ===== src/Calls/Once.antt =====
-- `Take` of src/call_registry.cpp hands a cursor out once.
use quack_oracle.Base.{
  ℕ, ◌≡◌, refl, ap, ◌∙◌, Bool-cases, inl, inr, Option, none, some, Option-cases, ◌==◌,
  if◌then◌else◌, length, ok, err, invalid_state, arith,
}
use quack_oracle.Base.Assoc.{Map, find, erase, Distinct, find-erase_same, find-assign}
use quack_oracle.Calls.{CursorHandle, CallRegistry, without_cursor, take_found, take}

-- The entry of the handle's call after its cursor was taken.
find-without_cursor :
    (handle : CursorHandle) (cursors : Map ℕ) (r : CallRegistry)
    → Distinct r.calls
    → find handle.call_id r.calls ≡ some cursors
    → find handle.call_id (without_cursor handle cursors r).calls ≡ (
        if length (erase handle.cursor_id cursors) == 0
        then none
        else some (erase handle.cursor_id cursors))
unfolding without_cursor
find-without_cursor handle cursors r f e = ground (
  arith,
  find-erase_same handle.call_id r.calls f,
  find-assign handle.call_id handle.call_id (erase handle.cursor_id cursors) cursors r.calls e,
)

take_found_gone :
    (handle : CursorHandle) (left : Map ℕ) (q : CallRegistry)
    → find handle.cursor_id left ≡ none
    → take_found handle (if length left == 0 then none else some left) q ≡ (err invalid_state, q)
unfolding take_found
take_found_gone handle left q e = elim (Bool-cases (length left == 0)) [
  | inl empty ↦ rw empty refl
  | inr some_left ↦ rw (some_left, take_found, e) refl
]

take_found_ok :
    (handle : CursorHandle) (cursors : Map ℕ) (r q : CallRegistry) (cursor : ℕ)
    → take_found handle (some cursors) r ≡ (ok cursor, q)
    → q ≡ without_cursor handle cursors r
unfolding take_found
take_found_ok handle cursors r q cursor e = elim (Option-cases (find handle.cursor_id cursors)) [
  | inl missing ↦ absurd (ground (arith, e, missing))
  | inr (c, found) ↦ ground (arith, e, found)
]

-- A handle whose cursor was taken gives no cursor again, in a registry whose call ids, and whose cursor
-- ids within the call, are distinct: the second Take throws INVALID_STATE and changes nothing.
pub take_once :
    (handle : CursorHandle) (r q : CallRegistry) (cursor : ℕ) (cursors : Map ℕ)
    → Distinct r.calls
    → find handle.call_id r.calls ≡ some cursors
    → Distinct cursors
    → take handle r ≡ (ok cursor, q)
    → take handle q ≡ (err invalid_state, q)
unfolding take
take_once handle r q cursor cursors f e g t =
    let s : take_found handle (some cursors) r ≡ (ok cursor, q) = rw e at t in
    let same : q ≡ without_cursor handle cursors r = take_found_ok handle cursors r q cursor s in
    let gone : find handle.cursor_id (erase handle.cursor_id cursors) ≡ none =
      find-erase_same handle.cursor_id cursors g in
    let entry =
      ap (λ (x : CallRegistry). find handle.call_id x.calls) same
      ∙ find-without_cursor handle cursors r f e in
    ap (λ (o : Option (Map ℕ)). take_found handle o q) entry
    ∙ take_found_gone handle (erase handle.cursor_id cursors) q gone

-- ===== src/Calls/Registered.antt =====
-- `Register` of src/call_registry.cpp as a whole: the handles that it returns give the cursors.
use quack_oracle.Base.{
  true, ℕ, ◌+◌, ◌^◌, ◌≤◌, ◌<◌, ◌≡◌, Option, none, some, List, [], ◌∷◌, length, Result, ok, err,
  malformed, limit_exceeded, ◌⊎◌,
}
use quack_oracle.Base.Assoc.{Map, find}
use quack_oracle.Calls.{CursorHandle, CallRegistry, has_null, take}

-- Each handle is of one call, and gives the cursor that stands in its place.
pub data Opens (q : CallRegistry) (id : ℕ) : List CursorHandle → List (Option ℕ) → Type 0 where
  no_handles : Opens q id [] []
  opens :
      {handle : CursorHandle} {handles : List CursorHandle} {c : ℕ} {cursors : List (Option ℕ)}
      → handle.call_id ≡ id
      → (take handle q).0 ≡ ok c
      → Opens q id handles cursors
      → Opens q id (handle ∷ handles) (some c ∷ cursors)

-- A registry after `Register`: it threw, and nothing is changed, or the handles of a new call are
-- returned, and the calls that were there are the same.
pub data Registered (cursors : List (Option ℕ)) (r : CallRegistry)
    : Result (List CursorHandle) → CallRegistry → Type 0 where
  no_cursors : cursors ≡ [] → Registered cursors r (err malformed) r
  too_many :
      r.maximum_open_cursors < r.open_cursor_count + length cursors
      → Registered cursors r (err limit_exceeded) r
  null_cursor : has_null cursors ≡ true → Registered cursors r (err malformed) r
  registered :
      {id : ℕ} {handles : List CursorHandle} {q : CallRegistry}
      → find id r.calls ≡ none
      → Opens q id handles cursors
      → ((k : ℕ) → (k ≡ id) ⊎ (find k q.calls ≡ find k r.calls))
      → q.open_cursor_count ≡ r.open_cursor_count + length cursors
      → q.open_cursor_count ≤ q.maximum_open_cursors
      → q.next_call_id < 2 ^ 64
      → Registered cursors r (ok handles) q

-- No cursor has an id from one on.
abbrev Free : ℕ → Map ℕ → Type 0
Free n owned = (k : ℕ) → n ≤ k → find k owned ≡ none

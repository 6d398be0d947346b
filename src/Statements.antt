-- ===== src/Statements.antt =====
-- src/statement_registry.cpp: the statement handles of one session, their states and the server cursors
-- that are bound to them. A handle is its statement id. A method is atomic, since each holds the
-- registry's mutex from its first access to its end.
pub mod Invariant
pub mod Lifecycle
pub mod Cursors
pub mod Handles
pub mod Opening
mod Tests
use quack_oracle.Base.{
  ℕ, zero, suc, ◌+◌, ◌-◌, ◌^◌, Bool, true, false, not, ◌&&◌, ◌||◌, Option, none, some, List, [],
  ◌∷◌, ltb, ◌==◌, if◌then◌else◌, length, Result, ok, err, malformed, limit_exceeded, invalid_state,
  unsupported,
}
use quack_oracle.Base.Assoc.{Map, find, emplace, assign, erase}
use quack_oracle.Base.Exec.{Exec, ◌>>=◌, ◌>>◌, pure, throw, throw_if, lift, modify, get}

pub data OracleSqlKind : Type 0 where
  query dml plsql ddl_or_other admin : OracleSqlKind

pub data OracleStatementState : Type 0 where
  open_state executed fetching exhausted closed poisoned : OracleStatementState

pub record StatementRecord : Type 0 where
  pub state : OracleStatementState
  pub remote_cursor_id : ℕ

pub record StatementRegistry : Type 0 where
  pub statements : Map StatementRecord
  pub next_statement_id : ℕ
  pub maximum_open_statements : ℕ

abbrev pub Method : Type 0 → Type 0
Method = Exec StatementRegistry

abbrev pub u32_max : ℕ
u32_max = 2 ^ 32 - 1

unfoldable pub new_registry : ℕ → Result StatementRegistry
new_registry maximum =
    if maximum == 0
    then err malformed
    else ok (record { statements = []; next_statement_id = 1; maximum_open_statements = maximum })

unfoldable pub is_executable : OracleSqlKind → Bool
is_executable query = true
is_executable dml = true
is_executable plsql = true
is_executable admin = true
is_executable ddl_or_other = false

abbrev pub fresh_record : StatementRecord
fresh_record = record { state = open_state; remote_cursor_id = 0 }

-- `Open`
unfoldable pub open_statement : OracleSqlKind → Method ℕ
open_statement kind r =
    (do
      throw_if (not (is_executable kind)) unsupported
      throw_if (length r.statements == r.maximum_open_statements) limit_exceeded
      throw_if (r.next_statement_id == 0 || r.next_statement_id == u32_max) limit_exceeded
      modify (λ s. record s {
        statements = emplace s.next_statement_id fresh_record s.statements;
        next_statement_id = s.next_statement_id + 1;
      })
      pure r.next_statement_id)
      r

-- `RequireOpen`: the record of an open handle.
unfoldable pub require_open : ℕ → Method StatementRecord
require_open handle r =
    if handle == 0 then (err malformed, r) else elim (find handle r.statements) [
      | none ↦ (err invalid_state, r)
      | some found ↦ (ok found, r)
    ]

-- A write through the reference that `RequireOpen` returned.
unfoldable pub set_record : ℕ → StatementRecord → Method (Unit {0})
set_record handle found = modify (λ r. record r { statements = assign handle found r.statements })

-- `entry.second.remote_cursor_id == remote_cursor_id` for some entry.
unfoldable pub uses_cursor : ℕ → Map StatementRecord → Bool
uses_cursor cursor [] = false
uses_cursor cursor ((handle, found) ∷ m) = found.remote_cursor_id == cursor || uses_cursor cursor m

unfoldable pub bind_remote_cursor : ℕ → ℕ → Method (Unit {0})
unfolding set_record
bind_remote_cursor handle cursor = do
  found ← require_open handle
  throw_if (cursor == 0 || not (found.remote_cursor_id == 0)) malformed
  r ← get
  throw_if (uses_cursor cursor r.statements) malformed
  set_record handle (record found { remote_cursor_id = cursor })

-- `TryRemoteCursorId`
unfoldable pub try_remote_cursor_id : ℕ → StatementRegistry → Option ℕ
try_remote_cursor_id handle r = if handle == 0 then none else elim (find handle r.statements) [
  | none ↦ none
  | some found ↦ if found.remote_cursor_id == 0 then none else some found.remote_cursor_id
]

-- `RemoteCursorId`
unfoldable pub remote_cursor_id_of : ℕ → StatementRegistry → Result ℕ
remote_cursor_id_of handle r =
    if handle == 0 then err malformed else elim (find handle r.statements) [
      | none ↦ err invalid_state
      | some found ↦
          if found.remote_cursor_id == 0 then err invalid_state else ok found.remote_cursor_id
    ]

unfoldable pub is_open : OracleStatementState → Bool
is_open open_state = true
is_open s = false

-- `EXECUTED` or `FETCHING`
unfoldable pub is_fetchable : OracleStatementState → Bool
is_fetchable executed = true
is_fetchable fetching = true
is_fetchable s = false

unfoldable pub mark_executed : ℕ → Bool → Method (Unit {0})
unfolding set_record
mark_executed handle has_rows = do
  found ← require_open handle
  throw_if (not (is_open found.state)) invalid_state
  set_record handle (record found { state = if has_rows then executed else exhausted })

unfoldable pub begin_fetch : ℕ → Method (Unit {0})
unfolding set_record
begin_fetch handle = do
  found ← require_open handle
  throw_if (not (is_fetchable found.state)) invalid_state
  set_record handle (record found { state = fetching })

unfoldable pub mark_exhausted : ℕ → Method (Unit {0})
unfolding set_record
mark_exhausted handle = do
  found ← require_open handle
  throw_if (not (is_fetchable found.state)) invalid_state
  set_record handle (record found { state = exhausted })

unfoldable pub poison : ℕ → Method (Unit {0})
unfolding set_record
poison handle = do
  found ← require_open handle
  set_record handle (record found { state = poisoned })

-- `Close`: whether there was a statement to erase.
unfoldable pub close : ℕ → Method Bool
close handle r = if handle == 0 then (ok false, r) else elim (find handle r.statements) [
  | none ↦ (ok false, r)
  | some found ↦ (ok true, record r { statements = erase handle r.statements })
]

unfoldable pub close_all : Method (Unit {0})
close_all = modify (λ r. record r { statements = [] })

-- `State`
unfoldable pub state_of : ℕ → StatementRegistry → Result OracleStatementState
state_of handle r =
    if handle == 0
    then err malformed
    else elim (find handle r.statements) [ none ↦ ok closed | some found ↦ ok found.state ]

-- A call of a registry, and what it leaves behind, also when it throws.
pub data Call : Type 0 where
  opens : OracleSqlKind → Call
  binds : ℕ → ℕ → Call
  executes : ℕ → Bool → Call
  fetches exhausts poisons closes : ℕ → Call
  closes_all : Call

unfoldable pub step : StatementRegistry → Call → StatementRegistry
step r (opens kind) = (open_statement kind r).1
step r (binds handle cursor) = (bind_remote_cursor handle cursor r).1
step r (executes handle has_rows) = (mark_executed handle has_rows r).1
step r (fetches handle) = (begin_fetch handle r).1
step r (exhausts handle) = (mark_exhausted handle r).1
step r (poisons handle) = (poison handle r).1
step r (closes handle) = (close handle r).1
step r closes_all = (close_all r).1

unfoldable pub run : StatementRegistry → List Call → StatementRegistry
run r [] = r
run r (c ∷ cs) = run (step r c) cs

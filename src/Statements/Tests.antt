-- ===== src/Statements/Tests.antt =====
-- A session of statements, and the theorems about the registry at it.
use quack_oracle.Base.{
  ℕ, ◌≡◌, refl, true, none, some, List, [], ◌∷◌, arith, ok, err, malformed, invalid_state,
  unsupported, limit_exceeded,
}
use quack_oracle.Base.Assoc.{find, emplace, assign, erase}
use quack_oracle.Statements.{
  query, ddl_or_other, OracleStatementState, executed, exhausted, StatementRegistry, is_executable,
  open_statement, require_open, uses_cursor, bind_remote_cursor, is_open, is_fetchable,
  mark_executed, begin_fetch, mark_exhausted, close, try_remote_cursor_id, remote_cursor_id_of,
  state_of, opens, binds, executes, fetches, exhausts, Call, step, run,
}
use quack_oracle.Statements.Lifecycle.{Change, step-Change}
use quack_oracle.Statements.Invariant.{Inv, run-Inv}
use quack_oracle.Statements.Handles.{Transition, step-Transition}

open_registry : ℕ
unfolding find emplace assign erase is_executable open_statement require_open uses_cursor
    bind_remote_cursor is_open is_fetchable mark_executed begin_fetch mark_exhausted close
    try_remote_cursor_id remote_cursor_id_of state_of step run
open_registry = 0

abbrev start : StatementRegistry
start = record { statements = []; next_statement_id = 1; maximum_open_statements = 2 }

start-Inv : Inv start
unfolding find
start-Inv = record {
  keys = tt;
  named = refl;
  bounded = omega arith;
  first = omega arith;
  last = omega arith;
  cursors = tt;
  live = tt;
}

abbrev session : List Call
session =
    opens query
    ∷ executes 1 true
    ∷ binds 1 77
    ∷ opens query
    ∷ binds 2 77
    ∷ fetches 1
    ∷ exhausts 1
    ∷ []

session_state : state_of 1 (run start session) ≡ ok exhausted
unfolding open_registry
session_state = refl

-- The second binding of the cursor 77 was refused.
session_cursor : try_remote_cursor_id 2 (run start session) ≡ none
unfolding open_registry
session_cursor = refl

refetch : begin_fetch 1 (run start session) ≡ (err invalid_state, run start session)
unfolding open_registry
refetch = refl

third_open : (open_statement query (run start session)).0 ≡ err limit_exceeded
unfolding open_registry
third_open = refl

ddl_open : (open_statement ddl_or_other start).0 ≡ err unsupported
unfolding open_registry
ddl_open = refl

zero_handle : (begin_fetch 0 start).0 ≡ err malformed
unfolding open_registry
zero_handle = refl

step-Change_example : Change start (step start (opens query))
step-Change_example = step-Change start (opens query)

run-Inv_example : Inv (run start session)
run-Inv_example = run-Inv start session start-Inv

cursor_77 : try_remote_cursor_id 1 (run start session) ≡ some 77
unfolding open_registry
cursor_77 = refl

abbrev one_open : StatementRegistry
one_open = record {
  statements = (1, record { state = executed; remote_cursor_id = 0 }) ∷ [];
  next_statement_id = 2;
  maximum_open_statements = 2;
}

abbrev one_bound : StatementRegistry
one_bound = record one_open {
  statements = (1, record { state = executed; remote_cursor_id = 77 }) ∷ [];
}

one_open-Inv : Inv one_open
unfolding find uses_cursor
one_open-Inv = record {
  keys = omega arith;
  named = refl;
  bounded = omega arith;
  first = omega arith;
  last = omega arith;
  cursors = ground arith;
  live = ground arith;
}

bind_77 : bind_remote_cursor 1 77 one_open ≡ (ok tt, one_bound)
unfolding open_registry
bind_77 = refl

executed_1 : state_of 1 one_open ≡ ok executed
unfolding open_registry
executed_1 = refl

step-Transition_example :
    (t : OracleStatementState) × (state_of 1 (step one_open (fetches 1)) ≡ ok t)
    × Transition one_open 1 executed t
step-Transition_example =
    step-Transition one_open (fetches 1) 1 executed one_open-Inv (λ e. absurd (omega arith))
      executed_1

-- ===== src/Transaction.antt =====
-- src/transaction.cpp: one DuckDB transaction over at most one Oracle session that is written to. A
-- session is a number, its identity. What the session's own methods do is a parameter: the outcome of
-- each call is an argument, and the calls are kept in the order made.
pub mod Threads
pub mod Pinned
pub mod Outcomes
pub mod Phases
pub mod Refinement
mod Tests
use quack_oracle.Base.{
  ℕ, Bool, true, false, not, ◌&&◌, ◌||◌, Option, none, some, List, [], ◌∷◌, ◌++◌, ◌==◌,
  if◌then◌else◌, Result, ok, err, stuck, ProtocolErrorKind, malformed, invalid_state, unsupported,
}
use quack_oracle.Base.Exec.{Exec, ◌>>=◌, ◌>>◌, pure, throw, throw_if, lift, modify, get}

pub data TransactionState : Type 0 where
  active committing rolling_back committed rolled_back poisoned : TransactionState

pub record OracleTransaction : Type 0 where
  pub state : TransactionState
  pub write_catalog : List ℕ
  pub write_session : Option ℕ

abbrev pub Method : Type 0 → Type 0
Method = Exec OracleTransaction

unfoldable pub new_transaction : OracleTransaction
new_transaction = record { state = active; write_catalog = []; write_session = none }

-- `RequireActive` throws where this is false.
abbrev pub is_active : TransactionState → Bool
is_active active = true
is_active _ = false

abbrev pub empty : List ℕ → Bool
empty [] = true
empty (c ∷ cs) = false

abbrev pub is_null : Option ℕ → Bool
is_null none = true
is_null (some s) = false

unfoldable pub same_name : List ℕ → List ℕ → Bool
same_name [] [] = true
same_name [] (d ∷ ds) = false
same_name (c ∷ cs) [] = false
same_name (c ∷ cs) (d ∷ ds) = c == d && same_name cs ds

-- The end of `RegisterWrite`: the first write pins the session, a later one finds it pinned.
unfoldable pub pin : List ℕ → ℕ → Method ℕ
pin catalog session t = elim t.write_session [
  | none ↦ (ok session, record t { write_catalog = catalog; write_session = some session })
  | some pinned ↦ if pinned == session then (ok pinned, t) else (err invalid_state, t)
]

unfoldable pub register_guarded : List ℕ → ℕ → Method ℕ
unfolding pin same_name
register_guarded catalog session t =
    if not (empty t.write_catalog) && not (same_name t.write_catalog catalog)
    then (err unsupported, t)
    else pin catalog session t

-- `RegisterWrite`
unfoldable pub register_write : List ℕ → Option ℕ → Method ℕ
unfolding register_guarded
register_write catalog session t =
    if not (is_active t.state)
    then (err invalid_state, t)
    else if empty catalog
    then (err malformed, t)
    else elim session [ none ↦ (err malformed, t) | some s ↦ register_guarded catalog s t ]

-- The two ways to end a transaction.
pub data Ending : Type 0 where
  commits rolls_back : Ending

abbrev pub ending_state : Ending → TransactionState
ending_state commits = committing
ending_state rolls_back = rolling_back

abbrev pub ended_state : Ending → TransactionState
ended_state commits = committed
ended_state rolls_back = rolled_back

-- The first locked section of `Commit` and of `Rollback`.
unfoldable pub begin_ending : Ending → Method (Option ℕ)
begin_ending e t =
    if is_active t.state
    then (ok t.write_session, record t { state = ending_state e })
    else (err invalid_state, t)

-- The last locked section, after the session's call succeeded.
unfoldable pub finish_ending : Ending → OracleTransaction → OracleTransaction
finish_ending e t = record t { state = ended_state e; write_session = none }

-- `Poison`
unfoldable pub poison : OracleTransaction → OracleTransaction
poison t = record t { state = poisoned }

-- The calls that a transaction makes on sessions.
pub data SessionCall : Type 0 where
  ends : Ending → ℕ → SessionCall
  closes : ℕ → SessionCall

-- A transaction with the calls made, the last first.
pub record Run : Type 0 where
  pub transaction : OracleTransaction
  pub calls : List SessionCall

-- The calls of a session that may be null.
abbrev pub call_on : Option ℕ → (ℕ → SessionCall) → List SessionCall → List SessionCall
call_on none c calls = calls
call_on (some s) c calls = c s ∷ calls

-- How a call on a session ends: it returns, or it throws.
abbrev pub Outcome : Type 0
Outcome = Option ProtocolErrorKind

-- The code after the session's call. What `Close` throws is swallowed.
unfoldable pub settle : Ending → Option ℕ → Outcome → Exec Run (Unit {0})
unfolding finish_ending poison
settle e session none r = (ok tt, record r { transaction = finish_ending e r.transaction })
settle e session (some x) r =
    (err x, record { transaction = poison r.transaction; calls = call_on session closes r.calls })

-- Nothing is thrown where there is no session to call.
abbrev pub outcome_on : Option ℕ → Outcome → Outcome
outcome_on none outcome = none
outcome_on (some s) outcome = outcome

unfoldable pub after_begin :
    Ending
    → Outcome
    → Result (Option ℕ) × OracleTransaction
    → List SessionCall
    → Result (Unit {0}) × Run
unfolding settle
after_begin e outcome (ok session, t) calls =
    settle e session (outcome_on session outcome)
      (record { transaction = t; calls = call_on session (ends e) calls })
after_begin e outcome (err x, t) calls = (err x, record { transaction = t; calls = calls })
after_begin e outcome (stuck, t) calls = (stuck, record { transaction = t; calls = calls })

-- `Commit` and `Rollback`, with how the session's own call ends.
unfoldable pub end_transaction : Ending → Outcome → Exec Run (Unit {0})
unfolding after_begin begin_ending
end_transaction e outcome r = after_begin e outcome (begin_ending e r.transaction) r.calls

-- The locked section of the destructor: the session to roll back, where there is one.
unfoldable pub begin_destroy : OracleTransaction → Option ℕ × OracleTransaction
begin_destroy t =
    if is_active t.state && not (is_null t.write_session)
    then (t.write_session, record t { state = rolled_back; write_session = none })
    else (none, t)

-- Its calls: a rollback, and a close after one that threw.
unfoldable pub destroy_calls : Option ℕ → Outcome → List SessionCall → List SessionCall
destroy_calls session none calls = call_on session (ends rolls_back) calls
destroy_calls session (some x) calls =
    call_on session closes (call_on session (ends rolls_back) calls)

-- The destructor, with how the session's rollback ends.
unfoldable pub destroy : Outcome → Run → Run
unfolding begin_destroy destroy_calls
destroy outcome r =
    let (session, t) = begin_destroy r.transaction in
    record { transaction = t; calls = destroy_calls session outcome r.calls }

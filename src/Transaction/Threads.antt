-- ===== src/Transaction/Threads.antt =====
-- Any number of threads on one transaction of src/transaction.cpp: every interleaving of the locked
-- sections of its methods with the calls on the session between them. A failed ending poisons the
-- transaction and then closes the session in one step here; `Poison` called by itself is another.
use quack_oracle.Base.{
  ℕ, ◌+◌, ◌≤◌, ◌≡◌, true, Option, some, List, [], ◌∷◌, ◌++◌, length, ok, err, ProtocolErrorKind,
  arith,
}
use quack_oracle.Transaction.{
  OracleTransaction, register_write, register_guarded, pin, Ending, begin_ending, finish_ending,
  poison, SessionCall, ends, closes, call_on, Outcome, outcome_on, Run, settle, begin_destroy,
  destroy_calls, destroy, is_active, new_transaction,
}

-- A thread inside `Commit` or `Rollback`: before the session's call, or after it.
pub data Pending : Type 0 where
  due : Ending → Option ℕ → Pending
  called : Ending → Option ℕ → Outcome → Pending

pub record World : Type 0 where
  pub transaction : OracleTransaction
  pub pending : List Pending
  pub calls : List SessionCall

abbrev pub run_of : World → Run
run_of w = record { transaction = w.transaction; calls = w.calls }

pub data Step (w : World) : World → Type 0 where
  -- `RegisterWrite`, whether it succeeds or throws.
  registers :
      (catalog : List ℕ) (session : Option ℕ)
      → Step w (record w { transaction = (register_write catalog session w.transaction).1 })
  -- The first section of an ending.
  begins :
      (e : Ending) (session : Option ℕ) (t : OracleTransaction)
      → begin_ending e w.transaction ≡ (ok session, t)
      → Step w (record w { transaction = t; pending = due e session ∷ w.pending })
  -- It finds the transaction over.
  refuses :
      (e : Ending) (x : ProtocolErrorKind) (t : OracleTransaction)
      → begin_ending e w.transaction ≡ (err x, t)
      → Step w (record w { transaction = t })
  -- The session's call.
  ends_session :
      (before after : List Pending) (e : Ending) (session : Option ℕ) (outcome : Outcome)
      → w.pending ≡ before ++ due e session ∷ after
      → Step w (record w {
        pending = before ++ called e session (outcome_on session outcome) ∷ after;
        calls = call_on session (ends e) w.calls;
      })
  -- The code after it.
  settles :
      (before after : List Pending) (e : Ending) (session : Option ℕ) (outcome : Outcome)
      → w.pending ≡ before ++ called e session outcome ∷ after
      → Step w (record {
        transaction = (settle e session outcome (run_of w)).1.transaction;
        pending = before ++ after;
        calls = (settle e session outcome (run_of w)).1.calls;
      })
  -- The destructor, when no thread is inside.
  destroys :
      (outcome : Outcome)
      → w.pending ≡ []
      → Step w (record w {
        transaction = (destroy outcome (run_of w)).transaction;
        calls = (destroy outcome (run_of w)).calls;
      })
  -- `Poison`, whatever the transaction is in.
  poisons : Step w (record w { transaction = poison w.transaction })

pub data Reach (w : World) : World → Type 0 where
  here : Reach w w
  next : {u v : World} → Reach w u → Step u v → Reach w v

abbrev pub ending_of : Pending → Ending
ending_of (due e s) = e
ending_of (called e s o) = e

-- How often sessions were told to commit or roll back, and how often they were closed.
unfoldable pub endings : List SessionCall → ℕ
endings [] = 0
endings (ends e s ∷ calls) = endings calls + 1
endings (closes s ∷ calls) = endings calls

unfoldable pub closings : List SessionCall → ℕ
closings [] = 0
closings (ends e s ∷ calls) = closings calls
closings (closes s ∷ calls) = closings calls + 1

-- The threads whose call is to come.
unfoldable pub due_calls : List Pending → ℕ
due_calls [] = 0
due_calls (due e s ∷ ps) = due_calls ps + 1
due_calls (called e s o ∷ ps) = due_calls ps

-- The threads whose call on a session was made.
unfoldable pub made_calls : List Pending → ℕ
made_calls [] = 0
made_calls (called e (some s) o ∷ ps) = made_calls ps + 1
made_calls (_ ∷ ps) = made_calls ps

due_calls-le-length : (ps : List Pending) → due_calls ps ≤ length ps
unfolding due_calls
due_calls-le-length [] = omega arith
due_calls-le-length (due e s ∷ ps) = omega (arith, due_calls-le-length ps)
due_calls-le-length (called e s o ∷ ps) = omega (arith, due_calls-le-length ps)

pub record Sound (w : World) : Type 0 where
  pub idle : is_active w.transaction.state ≡ true → length w.pending ≡ 0
  pub fresh : is_active w.transaction.state ≡ true → endings w.calls + closings w.calls ≡ 0
  pub single : length w.pending ≤ 1
  pub ended_once : due_calls w.pending + endings w.calls ≤ 1
  pub closed_once : length w.pending + closings w.calls ≤ 1
  pub made_ended : made_calls w.pending ≤ endings w.calls
  pub closed_after : closings w.calls ≤ endings w.calls

pub register_write-state :
    (catalog : List ℕ) (session : Option ℕ) (t : OracleTransaction)
    → (register_write catalog session t).1.state ≡ t.state
unfolding register_write register_guarded pin
register_write-state catalog session t = ground arith

pub Step-Sound : {w v : World} → Step w v → Sound w → Sound v
unfolding begin_ending destroy begin_destroy destroy_calls settle finish_ending poison endings
    closings due_calls made_calls
Step-Sound {w} (registers catalog session) a =
    ground (arith, register_write-state catalog session w.transaction)
Step-Sound {w} (begins e session t h) a = ground (arith, due_calls-le-length w.pending)
Step-Sound (refuses e x t h) a = ground arith
Step-Sound {w} (ends_session [] [] e session outcome h) a = ground arith
Step-Sound {w} (ends_session [] (x ∷ after) e session outcome h) a = absurd (ground arith)
Step-Sound {w} (ends_session (x ∷ []) after e session outcome h) a = absurd (ground arith)
Step-Sound {w} (ends_session (x ∷ y ∷ before) after e session outcome h) a = absurd (ground arith)
Step-Sound {w} (settles [] [] e session outcome h) a = ground arith
Step-Sound {w} (settles [] (x ∷ after) e session outcome h) a = absurd (ground arith)
Step-Sound {w} (settles (x ∷ []) after e session outcome h) a = absurd (ground arith)
Step-Sound {w} (settles (x ∷ y ∷ before) after e session outcome h) a = absurd (ground arith)
Step-Sound {w} (destroys outcome h) a = ground arith
Step-Sound {w} poisons a = ground arith

Reach_from-Sound : {w v : World} → Reach w v → Sound w → Sound v
Reach_from-Sound here a = a
Reach_from-Sound (next r s) a = Step-Sound s (Reach_from-Sound r a)

abbrev pub started : World
started = record { transaction = new_transaction; pending = []; calls = [] }

started-Sound : Sound started
unfolding new_transaction endings closings due_calls made_calls
started-Sound = ground arith

pub Reach-Sound : {w : World} → Reach started w → Sound w
Reach-Sound r = Reach_from-Sound r started-Sound

-- However the threads on a new transaction interleave and however the calls on sessions end, at most
-- one Commit or Rollback is ever called on a session, a session is closed at most once and only after
-- such a call, at most one thread is inside Commit or Rollback, and none is while it is active.
pub Reach-ended_once :
    {w : World}
    → Reach started w
    → (endings w.calls ≤ 1)
      × (closings w.calls ≤ endings w.calls)
      × (length w.pending ≤ 1)
      × (is_active w.transaction.state ≡ true → length w.pending + endings w.calls ≡ 0)
Reach-ended_once r = let a = Reach-Sound r in ground (arith, a)

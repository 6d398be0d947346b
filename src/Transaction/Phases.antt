-- ===== src/Transaction/Phases.antt =====
-- What src/transaction.cpp promises, without threads, sections and sessions' calls: the phases of a
-- transaction and the moves between them, and the phase that threads on it are in.
use quack_oracle.Base.{
  ℕ, ◌≡◌, refl, sym, subst, Bool, true, false, Option, none, some, List, [], ◌∷◌, arith,
}
use quack_oracle.Transaction.{
  OracleTransaction, TransactionState, active, committing, rolling_back, committed, rolled_back,
  poisoned, Ending, commits, rolls_back, begin_ending, finish_ending, poison, settle, begin_destroy,
  destroy, ending_state, ended_state,
}
use quack_oracle.Transaction.Threads.{
  World, Pending, due, called, ending_of, Step, registers, begins, refuses, ends_session, settles,
  destroys, poisons, Sound, register_write-state,
}

-- How a transaction ends: what was asked, or unknown because the call threw or `Poison` was called.
pub data Fate : Type 0 where
  done : Ending → Fate
  unknown : Fate

-- While a thread is inside an ending, `Poison` marks it, which the ending overwrites.
pub data Phase : Type 0 where
  unwritten : Phase
  writing : List ℕ → ℕ → Phase
  deciding : Ending → Bool → Phase
  over : Fate → Phase

pub data Move : Phase → Phase → Type 0 where
  first_write : (catalog : List ℕ) (session : ℕ) → Move unwritten (writing catalog session)
  ends_unwritten : (e : Ending) → Move unwritten (deciding e false)
  ends_writing :
      (catalog : List ℕ) (session : ℕ) (e : Ending)
      → Move (writing catalog session) (deciding e false)
  decides : (e : Ending) (marked : Bool) → Move (deciding e marked) (over (done e))
  loses : (e : Ending) (marked : Bool) → Move (deciding e marked) (over unknown)
  dropped :
      (catalog : List ℕ) (session : ℕ) → Move (writing catalog session) (over (done rolls_back))
  marks : (e : Ending) → Move (deciding e false) (deciding e true)
  poisons_unwritten : Move unwritten (over unknown)
  poisons_writing : (catalog : List ℕ) (session : ℕ) → Move (writing catalog session) (over unknown)
  poisons_over : (e : Ending) → Move (over (done e)) (over unknown)

-- What `State` returns in a phase.
unfoldable pub state_seen : Phase → TransactionState
state_seen unwritten = active
state_seen (writing catalog session) = active
state_seen (deciding e false) = ending_state e
state_seen (deciding e true) = poisoned
state_seen (over (done e)) = ended_state e
state_seen (over unknown) = poisoned

abbrev pub written : List ℕ → Option ℕ → Phase
written catalog none = unwritten
written catalog (some s) = writing catalog s

-- The phase when no thread is inside.
unfoldable pub resting : OracleTransaction → Phase
resting t = elim t.state [
  | active ↦ written t.write_catalog t.write_session
  | committing ↦ deciding commits false
  | rolling_back ↦ deciding rolls_back false
  | committed ↦ over (done commits)
  | rolled_back ↦ over (done rolls_back)
  | poisoned ↦ over unknown
]

abbrev pub is_poisoned : TransactionState → Bool
is_poisoned poisoned = true
is_poisoned _ = false

unfoldable pub phase_of : List Pending → OracleTransaction → Phase
phase_of [] t = resting t
phase_of (p ∷ ps) t = deciding (ending_of p) (is_poisoned t.state)

abbrev pub phase : World → Phase
phase w = phase_of w.pending w.transaction

-- The thread inside is inside the ending that the state names, unless `Poison` marked it, and
-- without one no ending is under way.
abbrev pub runs_as : TransactionState → Ending → Bool
runs_as committing commits = true
runs_as rolling_back rolls_back = true
runs_as poisoned e = true
runs_as _ _ = false

abbrev pub at_rest : TransactionState → Bool
at_rest committing = false
at_rest rolling_back = false
at_rest _ = true

unfoldable pub runs : TransactionState → List Pending → Bool
runs state [] = at_rest state
runs state (p ∷ ps) = runs_as state (ending_of p)

abbrev pub Running : World → Type 0
Running w = runs w.transaction.state w.pending ≡ true

pub Step-Running : {w v : World} → Step w v → Sound w → Running w → Running v
unfolding begin_ending destroy begin_destroy settle finish_ending poison runs
Step-Running {w} (registers catalog session) a h =
    subst (λ state. runs state w.pending ≡ true)
      (sym (register_write-state catalog session w.transaction)) h
Step-Running {w} (begins commits session t e) a h = ground arith
Step-Running {w} (begins rolls_back session t e) a h = ground arith
Step-Running (refuses e x t f) a h = ground arith
Step-Running {w} (ends_session [] [] e session outcome f) a h = ground arith
Step-Running {w} (ends_session [] (x ∷ after) e session outcome f) a h = absurd (ground arith)
Step-Running {w} (ends_session (x ∷ []) after e session outcome f) a h = absurd (ground arith)
Step-Running {w} (ends_session (x ∷ y ∷ before) after e session outcome f) a h =
    absurd (ground arith)
Step-Running {w} (settles [] [] e session outcome f) a h = ground arith
Step-Running {w} (settles [] (x ∷ after) e session outcome f) a h = absurd (ground arith)
Step-Running {w} (settles (x ∷ []) after e session outcome f) a h = absurd (ground arith)
Step-Running {w} (settles (x ∷ y ∷ before) after e session outcome f) a h = absurd (ground arith)
Step-Running (destroys outcome e) a h = ground arith
Step-Running {w} poisons a h = poisoned_runs w.pending
  where
    poisoned_runs : (ps : List Pending) → runs poisoned ps ≡ true
    poisoned_runs [] = refl
    poisoned_runs (p ∷ ps) = refl

written-state :
    (catalog : List ℕ) (session : Option ℕ) → state_seen (written catalog session) ≡ active
unfolding state_seen
written-state catalog none = refl
written-state catalog (some s) = refl

ending_runs :
    (state : TransactionState) (e : Ending)
    → runs_as state e ≡ true
    → state ≡ state_seen (deciding e (is_poisoned state))
unfolding state_seen
ending_runs committing commits h = refl
ending_runs rolling_back rolls_back h = refl
ending_runs poisoned e h = refl
ending_runs active e h = absurd (ground arith)
ending_runs committed e h = absurd (ground arith)
ending_runs rolled_back e h = absurd (ground arith)
ending_runs committing rolls_back h = absurd (ground arith)
ending_runs rolling_back commits h = absurd (ground arith)

pub phase-state :
    (t : OracleTransaction) (ps : List Pending)
    → runs t.state ps ≡ true
    → t.state ≡ state_seen (phase_of ps t)
unfolding phase_of resting runs state_seen
phase-state t [] h = ground (arith, written-state t.write_catalog t.write_session, h)
phase-state t (due e s ∷ ps) h = ending_runs t.state e h
phase-state t (called e s o ∷ ps) h = ending_runs t.state e h

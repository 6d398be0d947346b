-- ===== src/Transaction/Pinned.antt =====
-- The session that a transaction of src/transaction.cpp writes to is never replaced.
use quack_oracle.Base.{
  ℕ, ◌≡◌, refl, Bool, true, false, ◌&&◌, Option, none, some, List, [], ◌∷◌, ◌++◌, ◌==◌, ==_refl,
  ◌⊎◌, ok, arith,
}
use quack_oracle.Transaction.{
  OracleTransaction, register_write, register_guarded, pin, begin_ending, finish_ending, poison,
  SessionCall, ends, closes, settle, begin_destroy, destroy_calls, destroy, is_active, outcome_on,
}
use quack_oracle.Transaction.Threads.{
  World, Pending, due, called, Step, registers, begins, refuses, ends_session, settles, destroys,
  poisons, Reach, here, next,
}

unfoldable pub all_on : ℕ → List SessionCall → Bool
all_on s [] = true
all_on s (ends e t ∷ calls) = s == t && all_on s calls
all_on s (closes t ∷ calls) = s == t && all_on s calls

-- No session, or this one.
abbrev pub at_most : ℕ → Option ℕ → Bool
at_most s none = true
at_most s (some t) = s == t

unfoldable pub pending_on : ℕ → List Pending → Bool
pending_on s [] = true
pending_on s (due e t ∷ ps) = at_most s t && pending_on s ps
pending_on s (called e t o ∷ ps) = at_most s t && pending_on s ps

pending_on-append :
    (s : ℕ) (ps qs : List Pending) → pending_on s (ps ++ qs) ≡ (pending_on s ps && pending_on s qs)
unfolding pending_on
pending_on-append s [] qs = refl
pending_on-append s (due e t ∷ ps) qs = ground (arith, pending_on-append s ps qs)
pending_on-append s (called e t o ∷ ps) qs = ground (arith, pending_on-append s ps qs)

-- The transaction is pinned to the session, or over.
pub record Pinned (s : ℕ) (w : World) : Type 0 where
  pub pinned :
      (w.transaction.write_session ≡ some s)
      ⊎ ((is_active w.transaction.state ≡ false) × (w.transaction.write_session ≡ none))
  pub pending : pending_on s w.pending ≡ true
  pub calls : all_on s w.calls ≡ true

register_write-pinned :
    (s : ℕ) (catalog : List ℕ) (session : Option ℕ) (t : OracleTransaction)
    → (t.write_session ≡ some s) ⊎ (is_active t.state ≡ false)
    → (register_write catalog session t).1 ≡ t
unfolding register_write register_guarded pin
register_write-pinned s catalog session t h = ground arith

Step-Pinned : {w v : World} (s : ℕ) → Step w v → Pinned s w → Pinned s v
unfolding begin_ending destroy begin_destroy destroy_calls settle finish_ending poison all_on
    pending_on
Step-Pinned {w} s (registers catalog session) a =
    ground (arith, register_write-pinned s catalog session w.transaction)
Step-Pinned s (begins e session t h) a = ground arith
Step-Pinned s (refuses e x t h) a = ground arith
Step-Pinned s (ends_session before after e session outcome h) a = ground (
  arith,
  pending_on-append s before (due e session ∷ after),
  pending_on-append s before (called e session (outcome_on session outcome) ∷ after),
)
Step-Pinned s (settles before after e session outcome h) a = ground (
  arith,
  pending_on-append s before (called e session outcome ∷ after),
  pending_on-append s before after,
)
Step-Pinned s (destroys outcome h) a = ground (arith, ==_refl s)
Step-Pinned s poisons a = ground arith

Reach_from-Pinned : {w v : World} (s : ℕ) → Reach w v → Pinned s w → Pinned s v
Reach_from-Pinned s here a = a
Reach_from-Pinned s (next r t) a = Step-Pinned s t (Reach_from-Pinned s r a)

-- Once a write has pinned a session, then, however the threads interleave, every later Commit, Rollback
-- and Close is called on that session, and a RegisterWrite that succeeds returns it.
pub Reach-pinned :
    {w v : World} (s : ℕ) (catalog : List ℕ) (session : Option ℕ) {t : ℕ} {q : OracleTransaction}
    → w.transaction.write_session ≡ some s
    → w.pending ≡ []
    → w.calls ≡ []
    → Reach w v
    → (all_on s v.calls ≡ true) × (register_write catalog session v.transaction ≡ (ok t, q) → t ≡ s)
unfolding register_write register_guarded pin all_on pending_on
Reach-pinned {w} s catalog session h p c r =
    let start : Pinned s w = ground (arith, h, p, c) in
    let a = Reach_from-Pinned s r start in (a.calls, λ e. ground (arith, e, a.pinned))

-- ===== src/Transaction/Outcomes.antt =====
-- `Commit`, `Rollback` and the destructor of src/transaction.cpp, each called to its end.
use quack_oracle.Base.{
  ℕ, ◌≡◌, refl, sym, subst, true, false, some, List, [], ◌∷◌, ok, err, invalid_state,
  ProtocolErrorKind, Option, arith,
}
use quack_oracle.Transaction.{
  is_active, poisoned, Ending, ends, closes, begin_ending, finish_ending, poison, Outcome,
  outcome_on, Run, settle, after_begin, end_transaction, register_write, begin_destroy,
  destroy_calls, destroy,
}
use quack_oracle.Transaction.Threads.{
  World, run_of, Reach, here, next, begins, ends_session, settles,
}

-- A Commit or Rollback called to its end on an active transaction is one of the interleavings.
pub end_transaction-Reach :
    (e : Ending) (outcome : Outcome) (w : World)
    → is_active w.transaction.state ≡ true
    → Reach w (record {
      transaction = (end_transaction e outcome (run_of w)).1.transaction;
      pending = w.pending;
      calls = (end_transaction e outcome (run_of w)).1.calls;
    })
unfolding end_transaction after_begin begin_ending
end_transaction-Reach e outcome w a =
    let session = w.transaction.write_session in
    let t = (begin_ending e w.transaction).1 in
    let begun : begin_ending e w.transaction ≡ (ok session, t) = ground (arith, a) in
    let steps =
      next
        (next (next here (begins e session t begun))
          (ends_session [] w.pending e session outcome refl))
        (settles [] w.pending e session (outcome_on session outcome) refl) in
    subst
      (λ x. Reach w (record {
        transaction = (after_begin e outcome x w.calls).1.transaction;
        pending = w.pending;
        calls = (after_begin e outcome x w.calls).1.calls;
      }))
      (sym begun) steps

end_transaction-state :
    (e : Ending) (outcome : Outcome) (r : Run)
    → is_active (end_transaction e outcome r).1.transaction.state ≡ false
unfolding end_transaction after_begin begin_ending settle finish_ending poison
end_transaction-state e outcome r = ground arith

inactive_refuses :
    (f : Ending) (outcome : Outcome) (catalog : List ℕ) (session : Option ℕ) (q : Run)
    → is_active q.transaction.state ≡ false
    → (end_transaction f outcome q ≡ (err invalid_state, q))
      × (register_write catalog session q.transaction ≡ (err invalid_state, q.transaction))
      × (destroy outcome q ≡ q)
unfolding end_transaction after_begin begin_ending register_write destroy begin_destroy
    destroy_calls
inactive_refuses f outcome catalog session q h = ground arith

-- A transaction over which a Commit or Rollback went takes no more: whatever the first call's
-- outcome, a second Commit or Rollback throws INVALID_STATE and calls no session, a RegisterWrite throws
-- INVALID_STATE, and the destructor does nothing.
pub ended_refuses :
    (e f : Ending) (first second : Outcome) (catalog : List ℕ) (session : Option ℕ) (r : Run)
    → let q = (end_transaction e first r).1 in
      (end_transaction f second q ≡ (err invalid_state, q))
      × (register_write catalog session q.transaction ≡ (err invalid_state, q.transaction))
      × (destroy second q ≡ q)
ended_refuses e f first second catalog session r =
    inactive_refuses f second catalog session _ (end_transaction-state e first r)

-- A failing Commit or Rollback on an active transaction with a pinned session hands the session's
-- error on, leaves the transaction poisoned with its catalog and session kept, and has called the
-- session's ending and then its Close, and nothing else.
pub end_transaction_failing :
    (e : Ending) (x : ProtocolErrorKind) (s : ℕ) (r : Run)
    → is_active r.transaction.state ≡ true
    → r.transaction.write_session ≡ some s
    → end_transaction e (some x) r ≡ (
      err x,
      record {
        transaction = record r.transaction { state = poisoned };
        calls = closes s ∷ ends e s ∷ r.calls;
      },
    )
unfolding end_transaction after_begin begin_ending settle poison
end_transaction_failing e x s r a p = ground arith

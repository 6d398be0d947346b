-- ===== src/Statements/Handles.antt =====
-- One handle of src/statement_registry.cpp through any calls: the transitions of the state that `State`
-- reports, and what is final.
use quack_oracle.Base.{
  ℕ, ◌≤◌, ◌<◌, ◌≡◌, ◌≢◌, refl, sym, subst, ==_iff, ◌∙◌, true, Option, none, some, List, [], ◌∷◌,
  ◌==◌, arith, Bool-cases, inl, inr, ok,
}
use quack_oracle.Base.Assoc.{Map, find, find-assign, find-erase, find-above}
use quack_oracle.Statements.{
  OracleStatementState, open_state, executed, fetching, exhausted, poisoned, closed,
  StatementRecord, StatementRegistry, state_of, Call, step, run,
}
use quack_oracle.Statements.Lifecycle.{
  Allowed, Change, same, opened, moved, bound, removed, cleared, step-Change, breaks,
  runs_with_rows, runs_without_rows, fetches_first, fetches_more, ends_unfetched, ends_fetched,
}
use quack_oracle.Statements.Invariant.{Inv, step-Inv, emplace-fresh, find-NoneClosed}

-- What one call can make of a handle's state.
pub data Transition (r : StatementRegistry) (handle : ℕ)
    : OracleStatementState → OracleStatementState → Type 0 where
  stays : (s : OracleStatementState) → Transition r handle s s
  moves : {s t : OracleStatementState} → s ≢ closed → Allowed s t → Transition r handle s t
  closes_it : (s : OracleStatementState) → Transition r handle s closed
  begins : handle ≡ r.next_statement_id → Transition r handle closed open_state

-- The state of a handle that is not 0, from its entry.
abbrev entry_state : Option StatementRecord → OracleStatementState
entry_state none = closed
entry_state (some f) = f.state

state_of-entry :
    (handle : ℕ) (r : StatementRegistry)
    → handle ≢ 0
    → state_of handle r ≡ ok (entry_state (find handle r.statements))
unfolding state_of
state_of-entry handle r nz = ground arith

abbrev Moves : StatementRegistry → StatementRegistry → ℕ → Type 0
Moves r q handle =
    Transition r handle (entry_state (find handle r.statements))
      (entry_state (find handle q.statements))

module _ (handle : ℕ) where
  at_handle :
      (h : ℕ) (found : StatementRecord) (m : Map StatementRecord)
      → (h == handle) ≡ true
      → find h m ≡ some found
      → find handle m ≡ some found
  at_handle h found m hit e = subst (λ k. find k m ≡ some found) ((==_iff h handle).0 hit) e

  Change-Moves : {r q : StatementRegistry} → Change r q → Inv r → Moves r q handle
  unfolding find
  Change-Moves same v = stays _
  Change-Moves {r} (opened p b room) v =
      rw (emplace-fresh r.next_statement_id r.statements v.keys)
        (elim (Bool-cases (r.next_statement_id == handle)) [
          | inl hit ↦
              let e : r.next_statement_id ≡ handle = (==_iff _ handle).0 hit in
              let gone : find handle r.statements ≡ none =
                find-above handle r.next_statement_id r.statements v.keys (omega arith) in
              rw (hit, find, gone) (begins (sym e))
          | inr miss ↦ rw (miss, find) (stays _)
        ])
  Change-Moves {r} (moved h found s e a) v =
      rw (find-assign h handle (record found { state = s }) found r.statements e)
        (elim (Bool-cases (h == handle)) [
          | inl hit ↦ rw hit (
              rw (at_handle h found r.statements hit e)
                (moves (find-NoneClosed h r.statements found e v.live) a))
          | inr miss ↦ rw miss (stays _)
        ])
  Change-Moves {r} (bound h found cursor e z nz unused) v =
      rw (find-assign h handle (record found { remote_cursor_id = cursor }) found r.statements e)
        (elim (Bool-cases (h == handle)) [
          | inl hit ↦ rw hit (rw (at_handle h found r.statements hit e) (stays _))
          | inr miss ↦ rw miss (stays _)
        ])
  Change-Moves {r} (removed h found e) v =
      rw (find-erase h handle r.next_statement_id r.statements v.keys)
        (elim (Bool-cases (h == handle)) [
          | inl hit ↦ rw hit (closes_it _)
          | inr miss ↦ rw miss (stays _)
        ])
  Change-Moves {r} cleared v = closes_it _

ok-injective : {s t : OracleStatementState} → ok s ≡ ok t → s ≡ t
ok-injective e = cc

-- One call takes the state that `State` reports of a handle along an allowed transition: it stays, it
-- moves by `Allowed`, it becomes CLOSED, or the handle is the one that is opened next.
pub step-Transition :
    (r : StatementRegistry) (c : Call) (handle : ℕ) (s : OracleStatementState)
    → Inv r
    → handle ≢ 0
    → state_of handle r ≡ ok s
    → (t : OracleStatementState) × (state_of handle (step r c) ≡ ok t) × Transition r handle s t
step-Transition r c handle s v nz e =
    let before : ok s ≡ ok (entry_state (find handle r.statements)) =
      sym e ∙ state_of-entry handle r nz in
    (
      entry_state (find handle (step r c).statements),
      state_of-entry handle (step r c) nz,
      subst (λ u. Transition r handle u (entry_state (find handle (step r c).statements)))
          (ok-injective (sym before)) (Change-Moves handle (step-Change r c) v),
    )

-- OPEN < EXECUTED < FETCHING < EXHAUSTED < POISONED < CLOSED.
abbrev pub rank : OracleStatementState → ℕ
rank open_state = 0
rank executed = 1
rank fetching = 2
rank exhausted = 3
rank poisoned = 4
rank closed = 5

Allowed-rank : {s t : OracleStatementState} → Allowed s t → s ≢ closed → rank s ≤ rank t
Allowed-rank runs_with_rows h = omega arith
Allowed-rank runs_without_rows h = omega arith
Allowed-rank fetches_first h = omega arith
Allowed-rank fetches_more h = omega arith
Allowed-rank ends_unfetched h = omega arith
Allowed-rank ends_fetched h = omega arith
Allowed-rank (breaks open_state) h = omega arith
Allowed-rank (breaks executed) h = omega arith
Allowed-rank (breaks fetching) h = omega arith
Allowed-rank (breaks exhausted) h = omega arith
Allowed-rank (breaks poisoned) h = omega arith
Allowed-rank (breaks closed) h = absurd (h refl)

rank-le : (s : OracleStatementState) → rank s ≤ 5
rank-le open_state = omega arith
rank-le s = omega arith

Transition-rank :
    {r : StatementRegistry} {handle : ℕ} {s t : OracleStatementState}
    → Transition r handle s t
    → handle < r.next_statement_id
    → rank s ≤ rank t
Transition-rank (stays s) h = omega arith
Transition-rank (moves live a) h = Allowed-rank a live
Transition-rank (closes_it s) h = rank-le s
Transition-rank (begins e) h = absurd (omega arith)

Change-next : {r q : StatementRegistry} → Change r q → r.next_statement_id ≤ q.next_statement_id
Change-next same = omega arith
Change-next (opened p b room) = omega arith
Change-next (moved k found s e a) = omega arith
Change-next (bound k found cursor e z nz unused) = omega arith
Change-next (removed k found e) = omega arith
Change-next cleared = omega arith

-- The state that `State` reports of a handle that was given out never goes back in the order OPEN,
-- EXECUTED, FETCHING, EXHAUSTED, POISONED, CLOSED: a handle is executed once, is not fetched again
-- after it is exhausted or poisoned, and is never given out again after it is closed.
pub run-rank :
    (r : StatementRegistry) (cs : List Call) (handle : ℕ) (s : OracleStatementState)
    → Inv r
    → handle ≢ 0
    → handle < r.next_statement_id
    → state_of handle r ≡ ok s
    → (t : OracleStatementState) × (state_of handle (run r cs) ≡ ok t) × (rank s ≤ rank t)
unfolding run
run-rank r [] handle s v nz h e = (s, e, omega arith)
run-rank r (c ∷ cs) handle s v nz h e =
    let (t, et, tr) = step-Transition r c handle s v nz e in
    let (u, eu, up) =
      run-rank (step r c) cs handle t (step-Inv r c v) nz
        (omega (arith, Change-next (step-Change r c))) et in
    (u, eu, omega (arith, Transition-rank tr h))

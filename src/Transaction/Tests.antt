-- ===== src/Transaction/Tests.antt =====
-- Runs of the transaction, and the theorems about it at a transaction that writes to one session and
-- whose commit fails.
use quack_oracle.Base.{
  ℕ, ◌+◌, ◌≤◌, ◌≡◌, refl, true, none, some, List, [], ◌∷◌, length, ok, err, malformed,
  invalid_state, unsupported, truncated,
}
use quack_oracle.Transaction.{
  OracleTransaction, new_transaction, register_write, register_guarded, pin, same_name, commits,
  rolls_back, begin_ending, finish_ending, poison, ends, closes, Run, settle, after_begin,
  end_transaction, destroy, begin_destroy, destroy_calls, is_active, active, poisoned, committing,
  committed,
}
use quack_oracle.Transaction.Threads.{
  World, Reach, here, next, registers, begins, ends_session, settles, started, endings, closings,
  Reach-ended_once,
}
use quack_oracle.Transaction.Pinned.{Reach-pinned, all_on}
use quack_oracle.Transaction.Outcomes.{ended_refuses}

abbrev catalog : List ℕ
catalog = 79 ∷ 82 ∷ []

abbrev other : List ℕ
other = 81 ∷ []

abbrev pinned : OracleTransaction
pinned = record { state = active; write_catalog = catalog; write_session = some 7 }

open_transaction : ℕ
unfolding new_transaction register_write register_guarded pin same_name begin_ending finish_ending
    poison settle after_begin end_transaction destroy begin_destroy destroy_calls
open_transaction = 0

first_write : register_write catalog (some 7) new_transaction ≡ (ok 7, pinned)
unfolding open_transaction
first_write = refl

empty_catalog : register_write [] (some 7) new_transaction ≡ (err malformed, new_transaction)
unfolding open_transaction
empty_catalog = refl

second_catalog : register_write other (some 7) pinned ≡ (err unsupported, pinned)
unfolding open_transaction
second_catalog = refl

second_session : register_write catalog (some 8) pinned ≡ (err invalid_state, pinned)
unfolding open_transaction
second_session = refl

abbrev wrote : World
wrote = record { transaction = pinned; pending = []; calls = [] }

abbrev lost : World
lost = record {
  transaction = record pinned { state = poisoned };
  pending = [];
  calls = closes 7 ∷ ends commits 7 ∷ [];
}

writes : Reach started wrote
unfolding open_transaction
writes = next here (registers catalog (some 7))

loses : Reach wrote lost
unfolding open_transaction
loses =
    next
      (next (next here (begins commits (some 7) (record pinned { state = committing }) refl))
        (ends_session [] [] commits (some 7) (some truncated) refl))
      (settles [] [] commits (some 7) (some truncated) refl)

writes_loses : Reach started lost
unfolding open_transaction
writes_loses =
    next
      (next (next writes (begins commits (some 7) (record pinned { state = committing }) refl))
        (ends_session [] [] commits (some 7) (some truncated) refl))
      (settles [] [] commits (some 7) (some truncated) refl)

Reach-ended_once_example :
    (endings lost.calls ≤ 1)
    × (closings lost.calls ≤ endings lost.calls)
    × (length lost.pending ≤ 1)
    × (is_active lost.transaction.state ≡ true → length lost.pending + endings lost.calls ≡ 0)
Reach-ended_once_example = Reach-ended_once writes_loses

Reach-pinned_example :
    (all_on 7 lost.calls ≡ true)
    × (register_write catalog (some 7) lost.transaction ≡ (ok 7, lost.transaction)
        → ◌≡◌ {A = ℕ} 7 7)
Reach-pinned_example = Reach-pinned 7 catalog (some 7) refl refl refl loses

-- A Poison while the commit is under way is overwritten, and one after it is not.
abbrev done_world : World
done_world = record {
  transaction = record pinned { state = committed; write_session = none };
  pending = [];
  calls = ends commits 7 ∷ [];
}

abbrev ran : Run
ran = record { transaction = pinned; calls = [] }

ended_refuses_example :
    let q = (end_transaction commits none ran).1 in
    (end_transaction rolls_back (some truncated) q ≡ (err invalid_state, q))
    × (register_write catalog (some 7) q.transaction ≡ (err invalid_state, q.transaction))
    × (destroy (some truncated) q ≡ q)
ended_refuses_example = ended_refuses commits rolls_back none (some truncated) catalog (some 7) ran

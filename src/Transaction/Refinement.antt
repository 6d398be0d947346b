-- ===== src/Transaction/Refinement.antt =====
-- The code of src/transaction.cpp makes no move but those of Transaction/Phases.antt.
use quack_oracle.Base.{Bool, true, false}
use quack_oracle.Transaction.Phases.{Fate, unknown, Phase, over, Move}

pub data Moves (p : Phase) : Phase → Type 0 where
  none_made : Moves p p
  then_move : {q r : Phase} → Moves p q → Move q r → Moves p r

abbrev is_over : Phase → Bool
is_over (over f) = true
is_over _ = false

-- The phases of a transaction that ended in some way.
pub data StillOver (f : Fate) : Phase → Type 0 where
  kept : StillOver f (over f)
  lost : StillOver f (over unknown)

-- ===== src/Statements/Opening.antt =====
-- `Open` of src/statement_registry.cpp on every branch.
use quack_oracle.Base.{
  ◌+◌, ◌≡◌, refl, true, false, none, ◌∷◌, ◌==◌, ◌||◌, ◌⊎◌, inl, inr, length, arith, ok, err,
  unsupported, limit_exceeded, Bool-cases,
}
use quack_oracle.Base.Assoc.{find, find-above}
use quack_oracle.Statements.{
  OracleSqlKind, open_state, closed, StatementRegistry, u32_max, is_executable, fresh_record,
  open_statement, state_of, try_remote_cursor_id,
}
use quack_oracle.Statements.Invariant.{Inv, emplace-fresh}

-- The registry after a statement was opened.
abbrev pub Opened : StatementRegistry → StatementRegistry → Type 0
Opened r q =
    (state_of r.next_statement_id r ≡ ok closed)
    × (state_of r.next_statement_id q ≡ ok open_state)
    × (try_remote_cursor_id r.next_statement_id q ≡ none)
    × (length q.statements ≡ length r.statements + 1)
    × (q.next_statement_id ≡ r.next_statement_id + 1)

-- A registry with its invariant refuses a kind that is not executable, refuses when it is full or its
-- ids are used up, leaving itself as it was, and else gives out the next id, a handle that was closed
-- and is now OPEN with no server cursor.
pub open_statement-Opened :
    (r : StatementRegistry) (kind : OracleSqlKind)
    → Inv r
    → ((is_executable kind ≡ false) × (open_statement kind r ≡ (err unsupported, r)))
      ⊎ ((is_executable kind ≡ true)
          × ((length r.statements ≡ r.maximum_open_statements) ⊎ (r.next_statement_id ≡ u32_max))
          × (open_statement kind r ≡ (err limit_exceeded, r)))
      ⊎ ((is_executable kind ≡ true)
          × (q : StatementRegistry) × (open_statement kind r ≡ (ok r.next_statement_id, q))
          × Opened r q)
unfolding open_statement state_of try_remote_cursor_id find
open_statement-Opened r kind v = elim (Bool-cases (is_executable kind)) [
  | inr no_kind ↦ inl (no_kind, rw no_kind)
  | inl kind_ok ↦ inr (elim (Bool-cases (length r.statements == r.maximum_open_statements)) [
    | inl full ↦ inl (kind_ok, inl (ground arith), rw (kind_ok, full))
    | inr room ↦ elim (Bool-cases (r.next_statement_id == 0 || r.next_statement_id == u32_max)) [
      | inl out ↦ inl (kind_ok, inr (ground (arith, v.first)), rw (kind_ok, room, out))
      | inr left ↦ inr (
        kind_ok,
        record r {
          statements = (r.next_statement_id, fresh_record) ∷ r.statements;
          next_statement_id = r.next_statement_id + 1;
        },
        rw (kind_ok, room, left, emplace-fresh r.next_statement_id r.statements v.keys),
        (
          ground (
            arith,
            v.first,
            find-above r.next_statement_id r.next_statement_id r.statements v.keys,
          ),
          ground (arith, v.first),
          ground (arith, v.first),
          omega arith,
          refl,
        ),
      )
    ]
  ])
]

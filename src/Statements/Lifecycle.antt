-- ===== src/Statements/Lifecycle.antt =====
-- The life of a statement in src/statement_registry.cpp: what one call can do to the registry, as a step
-- relation whose transitions between states are written out.
use quack_oracle.Base.{
  ℕ, ◌+◌, ◌≡◌, ◌≢◌, Bool, true, false, some, [], ◌==◌, length, arith, Option-cases, Bool-cases, inl,
  inr, if◌then◌else◌, not, ◌||◌,
}
use quack_oracle.Base.Assoc.{find, emplace, assign, erase}
use quack_oracle.Base.Exec.{◌>>=◌}
use quack_oracle.Statements.{
  OracleSqlKind, OracleStatementState, open_state, executed, fetching, exhausted, poisoned,
  StatementRecord, StatementRegistry, Method, u32_max, is_executable, fresh_record, open_statement,
  require_open, uses_cursor, bind_remote_cursor, is_open, is_fetchable, mark_executed, begin_fetch,
  mark_exhausted, poison, close, close_all, Call, opens, binds, executes, fetches, exhausts,
  poisons, closes, closes_all, step,
}

-- OPEN is executed once; a statement with rows is fetched until it is exhausted; any may be poisoned.
pub data Allowed : OracleStatementState → OracleStatementState → Type 0 where
  runs_with_rows : Allowed open_state executed
  runs_without_rows : Allowed open_state exhausted
  fetches_first : Allowed executed fetching
  fetches_more : Allowed fetching fetching
  ends_unfetched : Allowed executed exhausted
  ends_fetched : Allowed fetching exhausted
  breaks : (s : OracleStatementState) → Allowed s poisoned

abbrev pub with_state :
    StatementRegistry → ℕ → StatementRecord → OracleStatementState → StatementRegistry
with_state r handle found s = record r {
  statements = assign handle (record found { state = s }) r.statements;
}

-- What a call can do: nothing, or one change to one statement, or the end of all.
pub data Change (r : StatementRegistry) : StatementRegistry → Type 0 where
  same : Change r r
  opened :
      r.next_statement_id ≢ 0
      → r.next_statement_id ≢ u32_max
      → length r.statements ≢ r.maximum_open_statements
      → Change r (record r {
        statements = emplace r.next_statement_id fresh_record r.statements;
        next_statement_id = r.next_statement_id + 1;
      })
  moved :
      (handle : ℕ) (found : StatementRecord) (s : OracleStatementState)
      → find handle r.statements ≡ some found
      → Allowed found.state s
      → Change r (with_state r handle found s)
  bound :
      (handle : ℕ) (found : StatementRecord) (cursor : ℕ)
      → find handle r.statements ≡ some found
      → found.remote_cursor_id ≡ 0
      → cursor ≢ 0
      → uses_cursor cursor r.statements ≡ false
      → Change r (record r {
        statements = assign handle (record found { remote_cursor_id = cursor }) r.statements;
      })
  removed :
      (handle : ℕ) (found : StatementRecord)
      → find handle r.statements ≡ some found
      → Change r (record r { statements = erase handle r.statements })
  cleared : Change r (record r { statements = [] })

open_statement-Change :
    (r : StatementRegistry) (kind : OracleSqlKind) → Change r (open_statement kind r).1
unfolding open_statement
open_statement-Change r kind = elim (Bool-cases (is_executable kind)) [
  | inr e ↦ rw e same
  | inl e ↦ rw e (elim (Bool-cases (length r.statements == r.maximum_open_statements)) [
    | inl full ↦ rw full same
    | inr room ↦
        rw room (elim (Bool-cases (r.next_statement_id == 0 || r.next_statement_id == u32_max)) [
          | inl out ↦ rw out same
          | inr left ↦ rw left (opened (ground arith) (ground arith) (ground arith))
        ])
  ])
]

-- A method that begins with `RequireOpen` leaves the registry alone, or goes on with the record found.
after_require {ℓ} :
    {B : Type 0} (P : StatementRegistry → Type ℓ) (handle : ℕ) (f : StatementRecord → Method B)
    (r : StatementRegistry)
    → P r
    → ((found : StatementRecord) → find handle r.statements ≡ some found → P (f found r).1)
    → P ((require_open handle >>= f) r).1
unfolding require_open
after_require P handle f r missing present = elim (Bool-cases (handle == 0)) [
  | inl z ↦ rw z missing
  | inr n ↦ rw n (elim (Option-cases (find handle r.statements)) [
    | inl e ↦ rw (e, require_open) missing
    | inr (found, e) ↦ rw (e, require_open) (present found e)
  ])
]

fetchable-Allowed :
    (s : OracleStatementState) → is_fetchable s ≡ true → Allowed s fetching × Allowed s exhausted
unfolding is_fetchable
fetchable-Allowed executed e = (fetches_first, ends_unfetched)
fetchable-Allowed fetching e = (fetches_more, ends_fetched)
fetchable-Allowed s e = cc

open-Allowed :
    (s : OracleStatementState) (has_rows : Bool)
    → is_open s ≡ true
    → Allowed s (if has_rows then executed else exhausted)
unfolding is_open
open-Allowed open_state true e = runs_with_rows
open-Allowed open_state false e = runs_without_rows
open-Allowed s b e = cc

module _ (r : StatementRegistry) (handle : ℕ) where
  mark_executed-Change : (has_rows : Bool) → Change r (mark_executed handle has_rows r).1
  unfolding mark_executed
  mark_executed-Change has_rows = after_require (Change r) handle _ r same λ found e.
      elim (Bool-cases (is_open found.state)) [
        | inl t ↦ rw t (moved handle found _ e (open-Allowed found.state has_rows t))
        | inr f ↦ rw f same
      ]

  begin_fetch-Change : Change r (begin_fetch handle r).1
  unfolding begin_fetch
  begin_fetch-Change = after_require (Change r) handle _ r same λ found e.
      elim (Bool-cases (is_fetchable found.state)) [
        | inl t ↦ rw t (moved handle found fetching e (fetchable-Allowed found.state t).0)
        | inr f ↦ rw f same
      ]

  mark_exhausted-Change : Change r (mark_exhausted handle r).1
  unfolding mark_exhausted
  mark_exhausted-Change = after_require (Change r) handle _ r same λ found e.
      elim (Bool-cases (is_fetchable found.state)) [
        | inl t ↦ rw t (moved handle found exhausted e (fetchable-Allowed found.state t).1)
        | inr f ↦ rw f same
      ]

  poison-Change : Change r (poison handle r).1
  unfolding poison
  poison-Change =
      after_require (Change r) handle _ r same
        λ found e. moved handle found poisoned e (breaks found.state)

  bind-Change : (cursor : ℕ) → Change r (bind_remote_cursor handle cursor r).1
  unfolding bind_remote_cursor
  bind-Change cursor = after_require (Change r) handle _ r same λ found e.
      elim (Bool-cases (cursor == 0 || not (found.remote_cursor_id == 0))) [
        | inl t ↦ rw t same
        | inr f ↦ rw f (elim (Bool-cases (uses_cursor cursor r.statements)) [
          | inl used ↦ rw used same
          | inr unused ↦
              rw unused (bound handle found cursor e (ground arith) (ground arith) unused)
        ])
      ]

  close-Change : Change r (close handle r).1
  unfolding close
  close-Change = elim (Bool-cases (handle == 0)) [
    | inl z ↦ rw z same
    | inr n ↦ rw n (elim (Option-cases (find handle r.statements)) [
      | inl e ↦ rw (e, close) same
      | inr (found, e) ↦ rw (e, close) (removed handle found e)
    ])
  ]

-- Every call leaves the registry as it was or makes one permitted change: a new handle that is neither
-- 0 nor the last id, while there is room; an allowed transition of one open statement; a cursor id,
-- not 0 and used by no statement, for a statement that has none; one statement less; or none left.
pub step-Change : (r : StatementRegistry) (c : Call) → Change r (step r c)
unfolding step
step-Change r (opens kind) = open_statement-Change r kind
step-Change r (binds handle cursor) = bind-Change r handle cursor
step-Change r (executes handle has_rows) = mark_executed-Change r handle has_rows
step-Change r (fetches handle) = begin_fetch-Change r handle
step-Change r (exhausts handle) = mark_exhausted-Change r handle
step-Change r (poisons handle) = poison-Change r handle
step-Change r (closes handle) = close-Change r handle
step-Change r closes_all = unfold close_all in cleared

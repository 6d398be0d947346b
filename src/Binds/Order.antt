-- ===== src/Binds/Order.antt =====
-- src/sql_binds.cpp: the binds of a statement checked against its placeholders and put in their order.
use quack_oracle.Base.{
  ℕ, zero, suc, Bool, true, not, ◌&&◌, List, [], ◌∷◌, if◌then◌else◌, Result, ok, stuck, throw_if,
  ◌>>=◌, ◌>>◌, malformed,
}
use quack_oracle.Sql.Keyword.{same}
use quack_oracle.Binds.{
  OracleBind, OracleBindUse, canonical_bind_name, has_name, validate_oracle_binds,
}
use quack_oracle.Binds.Placeholders.{extract_placeholders}

-- The canonical names of the binds, in their order.
unfoldable pub canonical_names : List OracleBind → Result (List (List ℕ))
canonical_names [] = ok []
canonical_names (bind ∷ binds) = do
  name ← canonical_bind_name bind.name
  names ← canonical_names binds
  ok (name ∷ names)

unfoldable pub includes : List (List ℕ) → List (List ℕ) → Bool
includes names [] = true
includes names (n ∷ ns) = has_name n names && includes names ns

-- Two lists have the same names: the comparison of the two std::set.
unfoldable pub same_names : List (List ℕ) → List (List ℕ) → Bool
same_names xs ys = includes xs ys && includes ys xs

-- `ValidateOracleStatementBinds`
unfoldable pub validate_statement_binds :
    List ℕ → List OracleBind → OracleBindUse → Result (Unit {0})
validate_statement_binds sql binds use_of = do
  validate_oracle_binds binds use_of
  placeholders ← extract_placeholders sql
  actual ← canonical_names binds
  throw_if (not (same_names actual placeholders)) malformed

-- `indexes.at(placeholder)`: the index of the first bind with the name. For a name that no bind has
-- `at` throws no ProtocolError, which `stuck` stands for.
unfoldable pub index_of : List ℕ → List (List ℕ) → Result ℕ
index_of name [] = stuck
index_of name (n ∷ names) =
    let rest = index_of name names >>= λ i. ok (suc i) in if same name n then ok 0 else rest

-- The loop over the placeholders.
unfoldable pub indexes_of : List (List ℕ) → List (List ℕ) → Result (List ℕ)
indexes_of names [] = ok []
indexes_of names (placeholder ∷ placeholders) = do
  index ← index_of placeholder names
  rest ← indexes_of names placeholders
  ok (index ∷ rest)

-- `OracleStatementBindOrder`
unfoldable pub statement_bind_order : List ℕ → List OracleBind → OracleBindUse → Result (List ℕ)
statement_bind_order sql binds use_of = do
  validate_statement_binds sql binds use_of
  names ← canonical_names binds
  placeholders ← extract_placeholders sql
  indexes_of names placeholders

-- `binds[index]`
unfoldable pub bind_at : List OracleBind → ℕ → Result OracleBind
bind_at [] index = stuck
bind_at (bind ∷ binds) zero = ok bind
bind_at (bind ∷ binds) (suc index) = bind_at binds index

unfoldable pub binds_at : List OracleBind → List ℕ → Result (List OracleBind)
binds_at binds [] = ok []
binds_at binds (index ∷ order) = do
  bind ← bind_at binds index
  rest ← binds_at binds order
  ok (bind ∷ rest)

-- `OrderOracleStatementBinds`
unfoldable pub order_statement_binds :
    List ℕ → List OracleBind → OracleBindUse → Result (List OracleBind)
order_statement_binds sql binds use_of = do
  order ← statement_bind_order sql binds use_of
  binds_at binds order

-- ===== src/Binds/InOrder.antt =====
-- `OrderOracleStatementBinds` of src/sql_binds.cpp against the placeholders that it orders by.
use quack_oracle.Base.{
  ℕ, ◌≡◌, refl, true, not, List, Result, ok, Ends, returns, throws, Ends-bind, Ends-map,
  Ends-throw_if, arith, malformed,
}
use quack_oracle.Binds.{OracleBind, OracleBindUse}
use quack_oracle.Binds.Placeholders.{extract_placeholders}
use quack_oracle.Binds.Extracted.{extract_placeholders-Ends}
use quack_oracle.Binds.Budget.{validate_oracle_binds-Ends}
use quack_oracle.Binds.Order.{
  canonical_names, includes, same_names, validate_statement_binds, statement_bind_order,
  order_statement_binds,
}
use quack_oracle.Binds.Matched.{Named, canonical_names-Named, Ordered, indexes_of-Ordered}

-- A step whose value is known goes on.
Ends-beside :
    {A : Type 0} {Q : A → Type 0} {r : Result A} → Ends Q r → Ends (λ a. (r ≡ ok a) × Q a) r
Ends-beside (returns q) = returns (refl, q)
Ends-beside throws = throws

-- The names of the binds include every placeholder.
Covered : List ℕ → List OracleBind → Type 0
Covered sql binds =
    (placeholders names : List (List ℕ)) × (extract_placeholders sql ≡ ok placeholders)
    × (canonical_names binds ≡ ok names)
    × (includes names placeholders ≡ true)
    × Named binds names

validate-Covered :
    (sql : List ℕ) (binds : List OracleBind) (use_of : OracleBindUse)
    → Ends (λ (u : Unit {0}). Covered sql binds) (validate_statement_binds sql binds use_of)
unfolding validate_statement_binds same_names Covered
validate-Covered sql binds use_of = Ends-bind _ (validate_oracle_binds-Ends binds use_of) λ _ _.
    Ends-bind _ (Ends-beside (extract_placeholders-Ends sql)) λ placeholders e.
      Ends-bind _ (Ends-beside (canonical_names-Named binds)) λ names n.
        Ends-map (Ends-throw_if (not (same_names names placeholders)) malformed)
          λ _ same. (placeholders, names, e.0, n.0, ground (arith, same), n.1)

-- The order that is found, and the binds in it.
InOrder : List ℕ → List OracleBind → List ℕ → Type 0
InOrder sql binds order =
    (placeholders : List (List ℕ)) × (extract_placeholders sql ≡ ok placeholders)
    × Ordered binds placeholders order

statement_bind_order-InOrder :
    (sql : List ℕ) (binds : List OracleBind) (use_of : OracleBindUse)
    → Ends (InOrder sql binds) (statement_bind_order sql binds use_of)
unfolding statement_bind_order InOrder Covered
statement_bind_order-InOrder sql binds use_of =
    Ends-bind _ (validate-Covered sql binds use_of) λ _ c.
      let (placeholders, names, e, f, i, n) = c in
      let (order, g, ordered) = indexes_of-Ordered placeholders n i in
      rw (f, e, g) (returns (placeholders, e, ordered))

-- OrderOracleStatementBinds ends: it throws one of the checks' errors, and never for an index or a name
-- that is not there, or it returns one bind for each placeholder of the statement, in the order in
-- which the placeholders first occur, whose canonical name is the placeholder's.
pub order_statement_binds-Named :
    (sql : List ℕ) (binds : List OracleBind) (use_of : OracleBindUse)
    → Ends
        (λ ordered.
          (placeholders : List (List ℕ)) × (extract_placeholders sql ≡ ok placeholders)
          × Named ordered placeholders)
        (order_statement_binds sql binds use_of)
unfolding order_statement_binds InOrder Ordered
order_statement_binds-Named sql binds use_of =
    Ends-bind _ (statement_bind_order-InOrder sql binds use_of)
      λ order i. let (placeholders, e, (ordered, f, n)) = i in rw f (returns (placeholders, e, n))

-- ===== src/Binds/Statements.antt =====
-- src/sql_statement.cpp: the checks of a whole statement with its binds.
use quack_oracle.Base.{
  Bool, true, false, not, ℕ, List, [], ◌∷◌, Result, throw_if, ◌>>=◌, ◌>>◌, malformed,
}
use quack_oracle.Statements.{OracleSqlKind, query, dml}
use quack_oracle.Sql.{reject_statement_terminators}
use quack_oracle.Sql.Keyword.{first_keyword, classify_oracle_sql}
use quack_oracle.Binds.{OracleBind, has_name, for_query, for_dml}
use quack_oracle.Binds.Order.{validate_statement_binds}

abbrev pub is_query : OracleSqlKind → Bool
is_query query = true
is_query _ = false

abbrev pub is_dml : OracleSqlKind → Bool
is_dml dml = true
is_dml _ = false

-- `ValidateOracleQuery`
unfoldable pub validate_oracle_query : List ℕ → List OracleBind → Result (Unit {0})
validate_oracle_query sql binds = do
  reject_statement_terminators sql
  kind ← classify_oracle_sql sql
  throw_if (not (is_query kind)) malformed
  validate_statement_binds sql binds for_query

-- `ValidateOracleDml`
unfoldable pub validate_oracle_dml : List ℕ → List OracleBind → Result (Unit {0})
validate_oracle_dml sql binds = do
  reject_statement_terminators sql
  kind ← classify_oracle_sql sql
  throw_if (not (is_dml kind)) malformed
  validate_statement_binds sql binds for_dml

-- CREATE, ALTER, DROP, GRANT, REVOKE, COMMENT and TRUNCATE
abbrev pub admin_words : List (List ℕ)
admin_words =
    (67 ∷ 82 ∷ 69 ∷ 65 ∷ 84 ∷ 69 ∷ [])
    ∷ (65 ∷ 76 ∷ 84 ∷ 69 ∷ 82 ∷ [])
    ∷ (68 ∷ 82 ∷ 79 ∷ 80 ∷ [])
    ∷ (71 ∷ 82 ∷ 65 ∷ 78 ∷ 84 ∷ [])
    ∷ (82 ∷ 69 ∷ 86 ∷ 79 ∷ 75 ∷ 69 ∷ [])
    ∷ (67 ∷ 79 ∷ 77 ∷ 77 ∷ 69 ∷ 78 ∷ 84 ∷ [])
    ∷ (84 ∷ 82 ∷ 85 ∷ 78 ∷ 67 ∷ 65 ∷ 84 ∷ 69 ∷ [])
    ∷ []

-- `ValidateOracleAdmin`
unfoldable pub validate_oracle_admin : List ℕ → Result (Unit {0})
validate_oracle_admin sql = do
  reject_statement_terminators sql
  keyword ← first_keyword sql
  throw_if (not (has_name keyword admin_words)) malformed
  validate_statement_binds sql [] for_dml

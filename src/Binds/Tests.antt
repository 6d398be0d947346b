-- ===== src/Binds/Tests.antt =====
-- A statement with two binds, one of them used twice, and the theorems about it there.
use quack_oracle.Base.{
  ℕ, ◌≤◌, ◌≡◌, refl, true, some, List, [], ◌∷◌, length, ok, err, malformed, Ends,
}
use quack_oracle.Sql.{
  skip_line, find_after, skip_quoted, skip_q_quoted, q_quote_terminator, scan, scan_all,
  reject_statement_terminators,
}
use quack_oracle.Sql.Keyword.{
  same, has_zero, trivia, skip_trivia, take_word, keyword_at, first_keyword, kind_of,
  classify_oracle_sql,
}
use quack_oracle.Binds.{
  OracleBind, bind_in, for_dml, for_query, all_of, is_identifier, is_bind_name, canonical_bind_name,
  add_value, add_lob, add_content, validate_bind_value, has_name, validate_each,
  validate_oracle_binds, validate_row, validate_batch_row, validate_rows, validate_bind_batch,
  matches_name, max_bind_count, max_bind_value_bytes,
}
use quack_oracle.Binds.Placeholders.{
  take_name, drop_name, piece, add_name, extract, extract_placeholders,
}
use quack_oracle.Binds.Order.{
  canonical_names, includes, same_names, validate_statement_binds, index_of, indexes_of,
  statement_bind_order, bind_at, binds_at, order_statement_binds,
}
use quack_oracle.Binds.Statements.{
  validate_oracle_query, validate_oracle_dml, validate_oracle_admin,
}
use quack_oracle.Binds.Matched.{Named}
use quack_oracle.Binds.Extracted.{distinct_names, extract_placeholders-Ends}
use quack_oracle.Binds.Budget.{all_inline_bytes, validate_oracle_binds-Ends}
use quack_oracle.Binds.InOrder.{order_statement_binds-Named}

open_binds : ℕ
unfolding skip_line find_after skip_quoted skip_q_quoted q_quote_terminator scan scan_all
    reject_statement_terminators same has_zero trivia skip_trivia take_word keyword_at first_keyword
    kind_of classify_oracle_sql all_of is_identifier is_bind_name canonical_bind_name add_value
    add_lob add_content validate_bind_value has_name validate_each validate_oracle_binds
    validate_row validate_batch_row validate_rows validate_bind_batch matches_name take_name
    drop_name piece add_name extract extract_placeholders canonical_names includes same_names
    validate_statement_binds index_of indexes_of statement_bind_order bind_at binds_at
    order_statement_binds validate_oracle_query validate_oracle_dml validate_oracle_admin
open_binds = 0

abbrev bind : List ℕ → List ℕ → OracleBind
bind name value = record {
  name = name;
  oracle_type = 1;
  direction = bind_in;
  content = some value;
  maximum_bytes = 0;
  character_set_form = 0;
  lob_content = 0;
}

-- select :b, :a, ':c', :B
abbrev statement : List ℕ
statement =
    115 ∷ 101 ∷ 108 ∷ 101 ∷ 99 ∷ 116 ∷ 32 ∷ 58 ∷ 98 ∷ 44 ∷ 58 ∷ 97 ∷ 44 ∷ 39 ∷ 58 ∷ 99 ∷ 39 ∷ 44
    ∷ 58 ∷ 66 ∷ []

abbrev bound : List OracleBind
bound = bind (97 ∷ []) (1 ∷ []) ∷ bind (98 ∷ []) (2 ∷ 3 ∷ []) ∷ []

finds_placeholders : extract_placeholders statement ≡ ok ((66 ∷ []) ∷ (65 ∷ []) ∷ [])
unfolding open_binds
finds_placeholders = refl

orders_binds : statement_bind_order statement bound for_query ≡ ok (1 ∷ 0 ∷ [])
unfolding open_binds
orders_binds = refl

accepts_query : validate_oracle_query statement bound ≡ ok tt
unfolding open_binds
accepts_query = refl

refuses_dml : validate_oracle_dml statement bound ≡ err malformed
unfolding open_binds
refuses_dml = refl

missing_bind : validate_oracle_query statement (bind (97 ∷ []) [] ∷ []) ≡ err malformed
unfolding open_binds
missing_bind = refl

same_row : validate_bind_batch (bound ∷ bound ∷ []) ≡ ok tt
unfolding open_binds
same_row = refl

order_statement_binds-Named_example :
    Ends
      (λ ordered.
        (placeholders : List (List ℕ)) × (extract_placeholders statement ≡ ok placeholders)
        × Named ordered placeholders)
      (order_statement_binds statement bound for_query)
order_statement_binds-Named_example = order_statement_binds-Named statement bound for_query

extract_placeholders-Ends_example :
    Ends (λ names. distinct_names names ≡ true) (extract_placeholders statement)
extract_placeholders-Ends_example = extract_placeholders-Ends statement

validate_oracle_binds-Ends_example :
    Ends
      (λ (u : Unit {0}).
        (length bound ≤ max_bind_count) × (all_inline_bytes bound ≤ max_bind_value_bytes))
      (validate_oracle_binds bound for_dml)
validate_oracle_binds-Ends_example = validate_oracle_binds-Ends bound for_dml

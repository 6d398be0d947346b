-- ===== src/Binds/Placeholders.antt =====
-- src/sql_binds.cpp, `ExtractOracleBindPlaceholders`: the placeholders of a statement outside its
-- comments and quoted texts, which it skips as the check for terminators in src/sql_statement.cpp does.
use quack_oracle.Base.{
  ℕ, zero, suc, ◌+◌, Bool, false, not, ◌&&◌, ◌||◌, List, [], ◌∷◌, ◌++◌, ltb, ◌==◌, if◌then◌else◌,
  length, Result, ok, err, stuck, throw_if, ◌>>=◌, ◌>>◌, malformed,
}
use quack_oracle.Sql.{
  dash, slash, star, single_quote, double_quote, max_sql_bytes, skip_line, find_after, skip_quoted,
  begins, tail, begins_q_quote, skip_q_quoted,
}
use quack_oracle.Sql.Keyword.{is_alpha, has_zero}
use quack_oracle.Binds.{is_digit, is_identifier_part, canonical_bind_name, has_name}

abbrev pub colon : ℕ
colon = 58

abbrev pub is_bind_start : ℕ → Bool
is_bind_start c = is_alpha c || c == 95 || is_digit c

abbrev pub begins_bind : List ℕ → Bool
begins_bind [] = false
begins_bind (c ∷ cs) = not (c == colon) && is_bind_start c

-- The loop over a placeholder's characters, and what is behind them.
unfoldable pub take_name : List ℕ → List ℕ
take_name [] = []
take_name (c ∷ cs) = let rest = take_name cs in if is_identifier_part c then c ∷ rest else []

unfoldable pub drop_name : List ℕ → List ℕ
drop_name [] = []
drop_name (c ∷ cs) = let rest = drop_name cs in if is_identifier_part c then rest else c ∷ cs

-- What one round of the loop finds: nothing, or a placeholder's text.
pub data Piece : Type 0 where
  plain : List ℕ → Piece
  placeholder : List ℕ → List ℕ → Piece

abbrev pub skipped : Result (List ℕ) → Result Piece
skipped r = r >>= λ rest. ok (plain rest)

-- One round, at a character and what is behind it.
unfoldable pub piece : ℕ → List ℕ → Result Piece
piece c rest =
    if c == dash && begins dash rest
    then ok (plain (skip_line (tail rest)))
    else if c == slash && begins star rest
    then skipped (find_after star slash (tail rest))
    else if c == single_quote || c == double_quote
    then skipped (skip_quoted c rest)
    else if (c == 113 || c == 81) && begins_q_quote rest
    then skipped (skip_q_quoted rest)
    else if c == colon && begins_bind rest
    then ok (placeholder (take_name rest) (drop_name rest))
    else ok (plain rest)

-- `if (seen.emplace(canonical).second) result.push_back(canonical);`
unfoldable pub add_name : List (List ℕ) → List ℕ → List (List ℕ)
add_name names name = if has_name name names then names else names ++ name ∷ []

-- The loop, with the names so far. A round takes a character at least, so one round more than there
-- are characters is enough.
unfoldable pub extract : ℕ → List (List ℕ) → List ℕ → Result (List (List ℕ))
extract zero names text = stuck
extract (suc fuel) names [] = ok names
extract (suc fuel) names (c ∷ rest) = elim (piece c rest) [
  | ok p ↦ elim p [
    | plain left ↦ extract fuel names left
    | placeholder name left ↦ canonical_bind_name name >>= λ n. extract fuel (add_name names n) left
  ]
  | err e ↦ err e
  | stuck ↦ stuck
]

-- `ExtractOracleBindPlaceholders`
unfoldable pub extract_placeholders : List ℕ → Result (List (List ℕ))
extract_placeholders sql = do
  throw_if (length sql == 0 || ltb max_sql_bytes (length sql) || has_zero sql) malformed
  extract (length sql + 1) [] sql

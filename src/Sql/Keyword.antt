-- ===== src/Sql/Keyword.antt =====
-- The first keyword of a statement in src/sql_statement.cpp and the kind that it gives. The tests of
-- <cctype> are those of the C locale.
use quack_oracle.Base.{
  ℕ, zero, suc, ◌+◌, ◌-◌, Bool, true, false, ◌&&◌, ◌||◌, Option, none, some, List, [], ◌∷◌, ltb,
  leb, ◌==◌, if◌then◌else◌, length, map, Result, ok, err, stuck, throw_if, ◌>>=◌, ◌>>◌, malformed,
}
use quack_oracle.Statements.{OracleSqlKind, query, dml, plsql, ddl_or_other}
use quack_oracle.Sql.{max_sql_bytes, star, dash, slash, skip_line, find_after, begins, tail}

abbrev pub is_space : ℕ → Bool
is_space c = (leb 9 c && leb c 13) || c == 32

abbrev pub is_lower : ℕ → Bool
is_lower c = leb 97 c && leb c 122

abbrev pub is_alpha : ℕ → Bool
is_alpha c = (leb 65 c && leb c 90) || is_lower c

abbrev pub to_upper : ℕ → ℕ
to_upper c = if is_lower c then c - 32 else c

-- One round of `SkipTrivia` at a character and what is behind it; none when it stops.
unfoldable pub trivia : ℕ → List ℕ → Option (Result (List ℕ))
trivia c rest =
    if is_space c
    then some (ok rest)
    else if c == dash && begins dash rest
    then some (ok (skip_line (tail rest)))
    else if c == slash && begins star rest
    then some (find_after star slash (tail rest))
    else none

unfoldable pub skip_trivia : ℕ → List ℕ → Result (List ℕ)
skip_trivia zero text = stuck
skip_trivia (suc fuel) [] = ok []
skip_trivia (suc fuel) (c ∷ rest) = elim (trivia c rest) [
  | none ↦ ok (c ∷ rest)
  | some r ↦ elim r [ ok left ↦ skip_trivia fuel left | err e ↦ err e | stuck ↦ stuck ]
]

unfoldable pub take_word : List ℕ → List ℕ
take_word [] = []
take_word (c ∷ rest) = let word = take_word rest in if is_alpha c then c ∷ word else []

unfoldable pub has_zero : List ℕ → Bool
has_zero [] = false
has_zero (c ∷ rest) = c == 0 || has_zero rest

unfoldable pub keyword_at : List ℕ → Result (List ℕ)
keyword_at text =
    throw_if (length (take_word text) == 0) malformed >> ok (map to_upper (take_word text))

unfoldable pub first_keyword : List ℕ → Result (List ℕ)
first_keyword sql = do
  throw_if (length sql == 0 || ltb max_sql_bytes (length sql) || has_zero sql) malformed
  begin ← skip_trivia (length sql + 1) sql
  keyword_at begin

unfoldable pub same : List ℕ → List ℕ → Bool
same [] [] = true
same [] (d ∷ ys) = false
same (c ∷ xs) [] = false
same (c ∷ xs) (d ∷ ys) = c == d && same xs ys

abbrev pub select_word : List ℕ
select_word = 83 ∷ 69 ∷ 76 ∷ 69 ∷ 67 ∷ 84 ∷ []

abbrev pub with_word : List ℕ
with_word = 87 ∷ 73 ∷ 84 ∷ 72 ∷ []

abbrev pub insert_word : List ℕ
insert_word = 73 ∷ 78 ∷ 83 ∷ 69 ∷ 82 ∷ 84 ∷ []

abbrev pub update_word : List ℕ
update_word = 85 ∷ 80 ∷ 68 ∷ 65 ∷ 84 ∷ 69 ∷ []

abbrev pub delete_word : List ℕ
delete_word = 68 ∷ 69 ∷ 76 ∷ 69 ∷ 84 ∷ 69 ∷ []

abbrev pub begin_word : List ℕ
begin_word = 66 ∷ 69 ∷ 71 ∷ 73 ∷ 78 ∷ []

abbrev pub declare_word : List ℕ
declare_word = 68 ∷ 69 ∷ 67 ∷ 76 ∷ 65 ∷ 82 ∷ 69 ∷ []

abbrev pub call_word : List ℕ
call_word = 67 ∷ 65 ∷ 76 ∷ 76 ∷ []

unfoldable pub kind_of : List ℕ → OracleSqlKind
kind_of keyword =
    if same keyword select_word || same keyword with_word
    then query
    else if same keyword insert_word || same keyword update_word || same keyword delete_word
    then dml
    else if same keyword begin_word || same keyword declare_word || same keyword call_word
    then plsql
    else ddl_or_other

unfoldable pub classify_oracle_sql : List ℕ → Result OracleSqlKind
classify_oracle_sql sql = first_keyword sql >>= λ keyword. ok (kind_of keyword)

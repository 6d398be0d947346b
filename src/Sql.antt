-- ===== src/Sql.antt =====
-- The text checks of src/sql_statement.cpp. A text is the list of its bytes, and an index into it is the
-- list from there on. The checks of binds that follow are in Binds.
pub mod Lexemes
pub mod Scan
pub mod Stops
pub mod Accept
pub mod Keyword
pub mod Classify
pub mod Block
mod Tests
use quack_oracle.Base.{
  ℕ, zero, suc, ◌+◌, ◌-◌, ◌^◌, Bool, true, false, not, ◌&&◌, ◌||◌, Option, none, some, List, [],
  ◌∷◌, ltb, leb, ◌==◌, if◌then◌else◌, length, map, Result, ok, err, stuck, throw_if, ◌>>=◌, ◌>>◌,
  malformed,
}
use quack_oracle.Statements.{OracleSqlKind, query, dml, plsql, ddl_or_other}

-- The characters that the scanners look for.
abbrev pub newline : ℕ
newline = 10

abbrev pub carriage_return : ℕ
carriage_return = 13

abbrev pub double_quote : ℕ
double_quote = 34

abbrev pub single_quote : ℕ
single_quote = 39

abbrev pub star : ℕ
star = 42

abbrev pub dash : ℕ
dash = 45

abbrev pub slash : ℕ
slash = 47

abbrev pub semicolon : ℕ
semicolon = 59

abbrev pub max_sql_bytes : ℕ
max_sql_bytes = 2 ^ 20

-- [ to ], ( to ), { to }, < to >, and any other to itself.
unfoldable pub q_quote_terminator : ℕ → ℕ
q_quote_terminator opener =
    if opener == 91
    then 93
    else if opener == 40
    then 41
    else if opener == 123
    then 125
    else if opener == 60
    then 62
    else opener

-- `SkipQuoted` behind the opening quote.
unfoldable pub skip_quoted : ℕ → List ℕ → Result (List ℕ)
skip_quoted q [] = err malformed
skip_quoted q (c ∷ []) = if c == q then ok [] else err malformed
skip_quoted q (c ∷ d ∷ rest) = elim (c == q) [
  | true ↦ elim (d == q) [ true ↦ skip_quoted q rest | false ↦ ok (d ∷ rest) ]
  | false ↦ skip_quoted q (d ∷ rest)
]

-- To the end of the line, which stays.
unfoldable pub skip_line : List ℕ → List ℕ
skip_line [] = []
skip_line (c ∷ rest) = elim (c == newline || c == carriage_return) [
  | true ↦ c ∷ rest
  | false ↦ skip_line rest
]

-- `find` of two characters, and what stands behind them.
unfoldable pub find_after : ℕ → ℕ → List ℕ → Result (List ℕ)
find_after a b [] = err malformed
find_after a b (c ∷ []) = err malformed
find_after a b (c ∷ d ∷ rest) = elim (c == a && d == b) [
  | true ↦ ok rest
  | false ↦ find_after a b (d ∷ rest)
]

abbrev pub begins : ℕ → List ℕ → Bool
begins c [] = false
begins c (d ∷ rest) = d == c

abbrev pub tail : List ℕ → List ℕ
tail [] = []
tail (c ∷ rest) = rest

-- The two characters behind a q: a quote and one more.
abbrev pub begins_q_quote : List ℕ → Bool
begins_q_quote [] = false
begins_q_quote (c ∷ []) = false
begins_q_quote (c ∷ opener ∷ rest) = c == single_quote

unfoldable pub skip_q_quoted : List ℕ → Result (List ℕ)
skip_q_quoted [] = err malformed
skip_q_quoted (c ∷ []) = err malformed
skip_q_quoted (c ∷ opener ∷ rest) = find_after (q_quote_terminator opener) single_quote rest

-- One round of the loop of `RejectStatementTerminators`, at a character and what is behind it.
unfoldable pub scan : ℕ → List ℕ → Result (List ℕ)
scan c rest =
    if c == dash && begins dash rest
    then ok (skip_line (tail rest))
    else if c == slash && begins star rest
    then find_after star slash (tail rest)
    else if c == single_quote || c == double_quote
    then skip_quoted c rest
    else if (c == 113 || c == 81) && begins_q_quote rest
    then skip_q_quoted rest
    else if c == semicolon
    then err malformed
    else ok rest

unfoldable pub scan_all : ℕ → List ℕ → Result (Unit {0})
scan_all zero text = stuck
scan_all (suc fuel) [] = ok tt
scan_all (suc fuel) (c ∷ rest) = elim (scan c rest) [
  | ok left ↦ scan_all fuel left
  | err e ↦ err e
  | stuck ↦ stuck
]

unfoldable pub reject_statement_terminators : List ℕ → Result (Unit {0})
unfolding scan_all
reject_statement_terminators text = scan_all (length text + 1) text

-- ===== src/Sql/Tests.antt =====
-- Statements in bytes, and the theorems about the terminator check at them.
use quack_oracle.Base.{ℕ, ◌≡◌, refl, false, ◌↔◌, List, [], ◌∷◌, ◌++◌, ok, err, malformed}
use quack_oracle.Sql.{
  q_quote_terminator, skip_quoted, skip_line, find_after, skip_q_quoted, scan, scan_all,
  reject_statement_terminators,
}
use quack_oracle.Statements.{query}
use quack_oracle.Base.{map, arith}
use quack_oracle.Sql.Block.{trim, drop_slash_line, normalize_oracle_anonymous_block}
use quack_oracle.Sql.Keyword.{
  trivia, skip_trivia, take_word, has_zero, keyword_at, first_keyword, same, kind_of,
  classify_oracle_sql, to_upper,
}
use quack_oracle.Sql.Classify.{nothing, space, block, Word, classify-Trivia}
use quack_oracle.Sql.Lexemes.{Lexemes}
use quack_oracle.Sql.Accept.{reject_statement_terminators_iff}

open_sql : ℕ
unfolding q_quote_terminator skip_quoted skip_line find_after skip_q_quoted scan scan_all
    reject_statement_terminators trivia skip_trivia take_word has_zero keyword_at first_keyword same
    kind_of classify_oracle_sql
open_sql = 0

-- A';''' --;
abbrev in_quotes : List ℕ
in_quotes = 65 ∷ 39 ∷ 59 ∷ 39 ∷ 39 ∷ 39 ∷ 32 ∷ 45 ∷ 45 ∷ 59 ∷ []

-- q'[;']'
abbrev in_q_quotes : List ℕ
in_q_quotes = 113 ∷ 39 ∷ 91 ∷ 59 ∷ 39 ∷ 93 ∷ 39 ∷ []

-- 'A';
abbrev behind_quotes : List ℕ
behind_quotes = 39 ∷ 65 ∷ 39 ∷ 59 ∷ []

quotes_accepted : reject_statement_terminators in_quotes ≡ ok tt
unfolding open_sql
quotes_accepted = refl

q_quotes_accepted : reject_statement_terminators in_q_quotes ≡ ok tt
unfolding open_sql
q_quotes_accepted = refl

terminator_refused : reject_statement_terminators behind_quotes ≡ err malformed
unfolding open_sql
terminator_refused = refl

reject_statement_terminators_iff_example :
    (reject_statement_terminators in_quotes ≡ ok tt) ↔ Lexemes in_quotes
reject_statement_terminators_iff_example = reject_statement_terminators_iff in_quotes

-- /**/ Select 1
abbrev commented : List ℕ
commented = 47 ∷ 42 ∷ 42 ∷ 47 ∷ 32 ∷ 83 ∷ 101 ∷ 108 ∷ 101 ∷ 99 ∷ 116 ∷ 32 ∷ 49 ∷ []

abbrev select_mixed : List ℕ
select_mixed = 83 ∷ 101 ∷ 108 ∷ 101 ∷ 99 ∷ 116 ∷ []

commented_query : classify_oracle_sql commented ≡ ok query
unfolding open_sql
commented_query = refl

no_keyword : classify_oracle_sql (32 ∷ 49 ∷ []) ≡ err malformed
unfolding open_sql
no_keyword = refl

commented-Word : Word select_mixed (32 ∷ 49 ∷ [])
unfolding open_sql
commented-Word = record {
  letters = (refl, (refl, (refl, (refl, (refl, (refl, tt))))));
  some_letter = λ e. absurd (omega arith);
  ends = refl;
}

no_zero : has_zero commented ≡ false
unfolding open_sql
no_zero = refl

classify-Trivia_example : classify_oracle_sql commented ≡ ok (kind_of (map to_upper select_mixed))
classify-Trivia_example =
    classify-Trivia commented select_mixed (32 ∷ 49 ∷ []) (omega arith) no_zero
      (block [] (32 ∷ select_mixed ++ (32 ∷ 49 ∷ [])) _ tt (space 32 _ _ refl (nothing _)))
      commented-Word

open_block : ℕ
unfolding skip_line find_after trivia skip_trivia take_word has_zero keyword_at first_keyword same
    trim drop_slash_line normalize_oracle_anonymous_block
open_block = 0

-- begin;
abbrev block_text : List ℕ
block_text = 98 ∷ 101 ∷ 103 ∷ 105 ∷ 110 ∷ 59 ∷ []

slash_dropped : normalize_oracle_anonymous_block (block_text ++ (10 ∷ 47 ∷ 32 ∷ [])) ≡ ok block_text
unfolding open_block
slash_dropped = refl

slash_kept : normalize_oracle_anonymous_block (block_text ++ (47 ∷ [])) ≡ err malformed
unfolding open_block
slash_kept = refl

-- ===== src/Sql/Block.antt =====
-- `NormalizeOracleAnonymousBlock` of src/sql_statement.cpp. The work is at the end of the text, which
-- stands here backwards, its last byte first.
use quack_oracle.Base.{
  ℕ, Bool, true, false, not, ◌&&◌, ◌||◌, List, [], ◌∷◌, ◌==◌, if◌then◌else◌, Result, ok, throw_if,
  ◌>>=◌, ◌>>◌, malformed,
}
use quack_oracle.Sql.{newline, carriage_return, slash, semicolon}
use quack_oracle.Sql.Keyword.{is_space, first_keyword, same, begin_word, declare_word}

abbrev pub backwards : List ℕ → List ℕ → List ℕ
backwards [] behind = behind
backwards (c ∷ text) behind = backwards text (c ∷ behind)

unfoldable pub trim : List ℕ → List ℕ
trim [] = []
trim (c ∷ text) = elim (is_space c) [ true ↦ trim text | false ↦ c ∷ text ]

-- A last line that is a slash, which stands right behind a line break, is taken off with the break.
unfoldable pub drop_slash_line : List ℕ → List ℕ
drop_slash_line [] = []
drop_slash_line (c ∷ []) = c ∷ []
drop_slash_line (c ∷ d ∷ text) =
    if c == slash && (d == newline || d == carriage_return) then trim text else c ∷ d ∷ text

abbrev pub ends_statement : List ℕ → Bool
ends_statement [] = false
ends_statement (c ∷ text) = c == semicolon

unfoldable pub normalize_oracle_anonymous_block : List ℕ → Result (List ℕ)
normalize_oracle_anonymous_block block = do
  keyword ← first_keyword block
  throw_if (not (same keyword begin_word) && not (same keyword declare_word)) malformed
  throw_if (not (ends_statement (drop_slash_line (trim (backwards block []))))) malformed
  ok (backwards (drop_slash_line (trim (backwards block []))) [])

-- ===== src/Sql/Lexemes.antt =====
-- What a text without a statement terminator is, told without a scanner: comments, quoted values and
-- plain characters, one behind the other.
use quack_oracle.Base.{ℕ, ◌≡◌, Bool, true, false, not, ◌&&◌, ◌||◌, List, [], ◌∷◌, ◌++◌, ◌==◌, All}
use quack_oracle.Sql.{
  newline, carriage_return, double_quote, single_quote, star, dash, slash, semicolon,
  q_quote_terminator, begins, begins_q_quote,
}

-- The two characters do not stand side by side.
abbrev pub Apart : ℕ → ℕ → List ℕ → Type 0
Apart a b [] = Unit {0}
Apart a b (c ∷ []) = Unit {0}
Apart a b (c ∷ d ∷ rest) = ((c == a && d == b) ≡ false) × Apart a b (d ∷ rest)

-- A value inside quotes: the quotes in it are doubled.
abbrev pub doubled : ℕ → List ℕ → List ℕ
doubled q [] = []
doubled q (c ∷ rest) = elim (c == q) [ true ↦ c ∷ c ∷ doubled q rest | false ↦ c ∷ doubled q rest ]

abbrev pub ends_line : ℕ → Bool
ends_line c = c == newline || c == carriage_return

abbrev pub AtLineEnd : List ℕ → Type 0
AtLineEnd [] = Unit {0}
AtLineEnd (c ∷ rest) = ends_line c ≡ true

-- A character that begins nothing and is no terminator.
abbrev pub is_plain : ℕ → List ℕ → Bool
is_plain c rest =
    not (c == dash && begins dash rest)
    && not (c == slash && begins star rest)
    && not (c == single_quote || c == double_quote)
    && not ((c == 113 || c == 81) && begins_q_quote rest)
    && not (c == semicolon)

pub data Lexemes : List ℕ → Type 0 where
  end : (text : List ℕ) → text ≡ [] → Lexemes text
  line_comment :
      (text body rest : List ℕ)
      → text ≡ dash ∷ dash ∷ body ++ rest
      → All (λ c. ends_line c ≡ false) body
      → AtLineEnd rest
      → Lexemes rest
      → Lexemes text
  block_comment :
      (text body rest : List ℕ)
      → text ≡ slash ∷ star ∷ body ++ (star ∷ slash ∷ rest)
      → Apart star slash (body ++ (star ∷ []))
      → Lexemes rest
      → Lexemes text
  quoted :
      (q : ℕ) (text body rest : List ℕ)
      → text ≡ q ∷ doubled q body ++ (q ∷ rest)
      → (q == single_quote || q == double_quote) ≡ true
      → begins q rest ≡ false
      → Lexemes rest
      → Lexemes text
  q_quoted :
      (q opener : ℕ) (text body rest : List ℕ)
      → text ≡ q ∷ single_quote ∷ opener ∷ body ++ (q_quote_terminator opener ∷ single_quote ∷ rest)
      → (q == 113 || q == 81) ≡ true
      → Apart (q_quote_terminator opener) single_quote (body ++ (q_quote_terminator opener ∷ []))
      → Lexemes rest
      → Lexemes text
  plain :
      (c : ℕ) (text rest : List ℕ)
      → text ≡ c ∷ rest
      → is_plain c rest ≡ true
      → Lexemes rest
      → Lexemes text

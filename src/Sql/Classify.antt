-- ===== src/Sql/Classify.antt =====
-- `ClassifyOracleSql` of src/sql_statement.cpp: it reads the first word behind spaces and comments,
-- whatever its case.
use quack_oracle.Base.{
  ℕ, zero, suc, ◌+◌, ◌≤◌, ◌<◌, ◌≡◌, ◌≢◌, refl, ap, ◌∙◌, true, false, ◌||◌, some, List, [], ◌∷◌,
  ◌++◌, ltb, ◌==◌, length, length-append, map, All, ok, arith,
}
use quack_oracle.Sql.{max_sql_bytes, star, dash, slash}
use quack_oracle.Sql.Lexemes.{Apart, ends_line, AtLineEnd}
use quack_oracle.Sql.Scan.{skip_line_complete, find_after_complete}
use quack_oracle.Sql.Keyword.{
  is_space, is_alpha, to_upper, trivia, skip_trivia, take_word, has_zero, keyword_at, first_keyword,
  kind_of, classify_oracle_sql,
}

-- Spaces and comments, and what stands behind them.
pub data Trivia : List ℕ → List ℕ → Type 0 where
  nothing : (text : List ℕ) → Trivia text text
  space :
      (c : ℕ) (rest left : List ℕ) → is_space c ≡ true → Trivia rest left → Trivia (c ∷ rest) left
  line :
      (body rest left : List ℕ)
      → All (λ c. ends_line c ≡ false) body
      → AtLineEnd rest
      → Trivia rest left
      → Trivia (dash ∷ dash ∷ (body ++ rest)) left
  block :
      (body rest left : List ℕ)
      → Apart star slash (body ++ (star ∷ []))
      → Trivia rest left
      → Trivia (slash ∷ star ∷ (body ++ (star ∷ slash ∷ rest))) left

-- A word in any case, with no letter behind it.
pub record Word (word rest : List ℕ) : Type 0 where
  pub letters : All (λ c. is_alpha c ≡ true) word
  pub some_letter : length word ≢ 0
  pub ends : length (take_word rest) ≡ 0

length_zero : (xs : List ℕ) → length xs ≡ 0 → xs ≡ []
length_zero [] e = refl
length_zero (x ∷ xs) e = absurd (omega arith)

take_word-append :
    (word rest : List ℕ)
    → All (λ c. is_alpha c ≡ true) word
    → length (take_word rest) ≡ 0
    → take_word (word ++ rest) ≡ word
unfolding take_word
take_word-append [] rest a e = length_zero (take_word rest) e
take_word-append (c ∷ word) rest a e = ground (arith, a.0, take_word-append word rest a.1 e)

skip_trivia_step :
    (fuel c : ℕ) (rest left : List ℕ)
    → trivia c rest ≡ some (ok left)
    → skip_trivia (suc fuel) (c ∷ rest) ≡ skip_trivia fuel left
unfolding skip_trivia
skip_trivia_step fuel c rest left e = rw (e, skip_trivia) refl

trivia-space : (c : ℕ) (rest : List ℕ) → is_space c ≡ true → trivia c rest ≡ some (ok rest)
unfolding trivia
trivia-space c rest s = ground (arith, s)

trivia-line :
    (body rest : List ℕ)
    → All (λ c. ends_line c ≡ false) body
    → AtLineEnd rest
    → trivia dash (dash ∷ (body ++ rest)) ≡ some (ok rest)
unfolding trivia
trivia-line body rest on at = ap (λ (t : List ℕ). some (ok t)) (skip_line_complete body rest on at)

trivia-block :
    (body rest : List ℕ)
    → Apart star slash (body ++ (star ∷ []))
    → trivia slash (star ∷ (body ++ (star ∷ slash ∷ rest))) ≡ some (ok rest)
unfolding trivia
trivia-block body rest apart = ap some (find_after_complete star slash body rest apart)

skip_trivia-Word :
    (word rest : List ℕ) (fuel : ℕ)
    → Word word rest
    → skip_trivia (suc fuel) (word ++ rest) ≡ ok (word ++ rest)
unfolding skip_trivia trivia
skip_trivia-Word [] rest fuel w = absurd (w.some_letter refl)
skip_trivia-Word (c ∷ word) rest fuel w = ground (arith, w.letters)

skip_trivia-Trivia :
    (text word rest : List ℕ) (fuel : ℕ)
    → Trivia text (word ++ rest)
    → Word word rest
    → length text < fuel
    → skip_trivia fuel text ≡ ok (word ++ rest)
skip_trivia-Trivia text word rest zero t w h = absurd (omega arith)
skip_trivia-Trivia text word rest (suc fuel) (nothing _) w h = skip_trivia-Word word rest fuel w
skip_trivia-Trivia text word rest (suc fuel) (space c behind _ s t) w h =
    skip_trivia_step fuel c behind behind (trivia-space c behind s)
    ∙ skip_trivia-Trivia behind word rest fuel t w (omega (arith, h))
skip_trivia-Trivia text word rest (suc fuel) (line body behind _ on at t) w h =
    skip_trivia_step fuel dash (dash ∷ (body ++ behind)) behind (trivia-line body behind on at)
    ∙ skip_trivia-Trivia behind word rest fuel t w (omega (arith, h, length-append body behind))
skip_trivia-Trivia text word rest (suc fuel) (block body behind _ apart t) w h =
    skip_trivia_step fuel slash (star ∷ (body ++ (star ∷ slash ∷ behind))) behind
      (trivia-block body behind apart)
    ∙ skip_trivia-Trivia behind word rest fuel t w
        (omega (arith, h, length-append body (star ∷ slash ∷ behind)))

keyword_at-Word :
    (word rest : List ℕ) → Word word rest → keyword_at (word ++ rest) ≡ ok (map to_upper word)
unfolding keyword_at
keyword_at-Word word rest w =
    let e = take_word-append word rest w.letters w.ends in
    let n : (length word == 0) ≡ false = ground (arith, w.some_letter) in rw (e, n) refl

Trivia-length : (text left : List ℕ) → Trivia text left → length left ≤ length text
Trivia-length text left (nothing _) = omega arith
Trivia-length text left (space c rest _ s t) = omega (arith, Trivia-length rest left t)
Trivia-length text left (line body rest _ on at t) =
    omega (arith, Trivia-length rest left t, length-append body rest)
Trivia-length text left (block body rest _ apart t) =
    omega (arith, Trivia-length rest left t, length-append body (star ∷ slash ∷ rest))

-- A statement within the size limit and without a zero byte that begins with spaces and comments and
-- then a word, in any case, has the kind of that word in capitals.
pub classify-Trivia :
    (sql word rest : List ℕ)
    → length sql ≤ max_sql_bytes
    → has_zero sql ≡ false
    → Trivia sql (word ++ rest)
    → Word word rest
    → classify_oracle_sql sql ≡ ok (kind_of (map to_upper word))
unfolding classify_oracle_sql first_keyword
classify-Trivia sql word rest size zeros t w =
    let bounds : (length sql == 0 || ltb max_sql_bytes (length sql) || has_zero sql) ≡ false =
      ground (
        arith,
        size,
        zeros,
        w.some_letter,
        Trivia-length sql (word ++ rest) t,
        length-append word rest,
      ) in
    rw
      (
        bounds,
        skip_trivia-Trivia sql word rest (length sql + 1) t w (omega arith),
        keyword_at-Word word rest w,
      )
      refl

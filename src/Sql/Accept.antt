-- ===== src/Sql/Accept.antt =====
-- `RejectStatementTerminators` of src/sql_statement.cpp: which texts it lets through.
use quack_oracle.Base.{
  ℕ, zero, suc, ◌+◌, ◌<◌, ◌≡◌, ◌≢◌, refl, sym, ap, subst, ◌∙◌, true, false, Bool-cases, inl, inr,
  ◌↔◌, ◌&&◌, ◌||◌, List, [], ◌∷◌, ◌++◌, ◌==◌, length, All, Result, ok, err, malformed, arith,
}
use quack_oracle.Sql.{
  double_quote, single_quote, star, dash, slash, semicolon, q_quote_terminator, skip_quoted,
  skip_line, begins, begins_q_quote, tail, skip_q_quoted, scan, scan_all,
  reject_statement_terminators,
}
use quack_oracle.Sql.Lexemes.{
  Apart, doubled, ends_line, AtLineEnd, is_plain, Lexemes, end, line_comment, block_comment, quoted,
  q_quoted, plain,
}
use quack_oracle.Sql.Stops.{Stops, scan-Stops, scan_all_step, scan_all_err}
use quack_oracle.Sql.Scan.{
  skip_line_sound, skip_line_complete, find_after_sound, find_after_complete, skip_quoted_sound,
  skip_quoted_complete,
}

two_characters :
    (c a b : ℕ) (rest behind : List ℕ)
    → (c == a && begins b rest) ≡ true
    → tail rest ≡ behind
    → c ∷ rest ≡ a ∷ b ∷ behind
two_characters c a b [] behind h e = absurd (ground (arith, h))
two_characters c a b (d ∷ rest) behind h e = ground (arith, h, e)

skip_q_quoted-Lexemes :
    (q : ℕ) (rest left : List ℕ)
    → (q == 113 || q == 81) ≡ true
    → begins_q_quote rest ≡ true
    → skip_q_quoted rest ≡ ok left
    → Lexemes left
    → Lexemes (q ∷ rest)
unfolding skip_q_quoted
skip_q_quoted-Lexemes q [] left h b e l = absurd (cc)
skip_q_quoted-Lexemes q (c ∷ []) left h b e l = absurd (cc)
skip_q_quoted-Lexemes q (c ∷ opener ∷ rest) left h b e l =
    let (body, same, apart) =
      find_after_sound (q_quote_terminator opener) single_quote rest left e in
    q_quoted q opener _ body left (ground (arith, b, same)) h apart l

scan-Lexemes :
    (c : ℕ) (rest left : List ℕ) → scan c rest ≡ ok left → Lexemes left → Lexemes (c ∷ rest)
unfolding scan
scan-Lexemes c rest left e l = elim (Bool-cases (c == dash && begins dash rest)) [
  | inl comment ↦
      let (body, same, on, at) = skip_line_sound (tail rest) in
      line_comment _ body (skip_line (tail rest)) (two_characters c dash dash rest _ comment same)
        on at (subst Lexemes (ground (arith, e, comment)) l)
  | inr not_line ↦ elim (Bool-cases (c == slash && begins star rest)) [
    | inl comment ↦
        let (body, same, apart) =
          find_after_sound star slash (tail rest) left (ground (arith, e, not_line, comment)) in
        block_comment _ body left (two_characters c slash star rest _ comment same) apart l
    | inr not_block ↦ elim (Bool-cases (c == single_quote || c == double_quote)) [
      | inl quotes ↦
          let (body, same, ends) =
            skip_quoted_sound c rest left (ground (arith, e, not_line, not_block, quotes)) in
          quoted c _ body left (ap (◌∷◌ c) same) quotes ends l
      | inr not_quoted ↦ elim (Bool-cases ((c == 113 || c == 81) && begins_q_quote rest)) [
        | inl q_quote ↦
            skip_q_quoted-Lexemes c rest left (ground (arith, q_quote)) (ground (arith, q_quote))
              (ground (arith, e, not_line, not_block, not_quoted, q_quote)) l
        | inr not_q ↦ elim (Bool-cases (c == semicolon)) [
          | inl terminator ↦
              absurd (ground (arith, e, not_line, not_block, not_quoted, not_q, terminator))
          | inr other ↦
              plain c _ rest refl (ground (arith, not_line, not_block, not_quoted, not_q, other))
                (subst Lexemes (ground (arith, e, not_line, not_block, not_quoted, not_q, other)) l)
        ]
      ]
    ]
  ]
]

err_not_ok : ◌≢◌ {A = Result (Unit {0})} (err malformed) (ok tt)
err_not_ok e = cc

scan_all-Lexemes : (fuel : ℕ) (text : List ℕ) → scan_all fuel text ≡ ok tt → Lexemes text
unfolding scan_all Stops
scan_all-Lexemes zero text e = absurd (cc)
scan_all-Lexemes (suc fuel) [] e = end [] refl
scan_all-Lexemes (suc fuel) (c ∷ rest) e = elim (scan-Stops c rest) [
  | inl (left, s, shorter) ↦
      scan-Lexemes c rest left s
        (scan_all-Lexemes fuel left (sym (scan_all_step fuel c rest left s) ∙ e))
  | inr s ↦ absurd (err_not_ok (sym (scan_all_err fuel c rest s) ∙ e))
]

-- A lexeme that the scan passes over.
lexeme_step :
    (text behind rest : List ℕ) (c fuel : ℕ)
    → text ≡ c ∷ behind
    → scan c behind ≡ ok rest
    → length text < fuel
    → ((more : ℕ) → length rest < more → scan_all more rest ≡ ok tt)
    → scan_all fuel text ≡ ok tt
unfolding Stops
lexeme_step text behind rest c zero e s h k = absurd (omega arith)
lexeme_step text behind rest c (suc fuel) e s h k =
    let size : length text ≡ suc (length behind) = ap length e in
    ap (scan_all (suc fuel)) e ∙ scan_all_step fuel c behind rest s ∙ elim (scan-Stops c behind) [
      | inl (left, f, shorter) ↦
          let same : left ≡ rest = cc in k fuel (rw⁻¹ same (omega (arith, shorter, size, h)))
      | inr f ↦ absurd (ground (arith, s, f))
    ]

scan-line_comment :
    (body rest : List ℕ)
    → All (λ c. ends_line c ≡ false) body
    → AtLineEnd rest
    → scan dash (dash ∷ body ++ rest) ≡ ok rest
unfolding scan
scan-line_comment body rest on at = ap ok (skip_line_complete body rest on at)

scan-block_comment :
    (body rest : List ℕ)
    → Apart star slash (body ++ (star ∷ []))
    → scan slash (star ∷ body ++ (star ∷ slash ∷ rest)) ≡ ok rest
unfolding scan
scan-block_comment body rest apart = find_after_complete star slash body rest apart

scan_quote :
    (q : ℕ) (text : List ℕ)
    → (q == single_quote || q == double_quote) ≡ true
    → scan q text ≡ skip_quoted q text
unfolding scan
scan_quote q text quotes = ground (arith, quotes)

scan_q_quote :
    (q : ℕ) (text : List ℕ)
    → (q == 113 || q == 81) ≡ true
    → begins_q_quote text ≡ true
    → scan q text ≡ skip_q_quoted text
unfolding scan
scan_q_quote q text h b = ground (arith, h, b)

scan-quoted :
    (q : ℕ) (body rest : List ℕ)
    → (q == single_quote || q == double_quote) ≡ true
    → begins q rest ≡ false
    → scan q (doubled q body ++ (q ∷ rest)) ≡ ok rest
scan-quoted q body rest quotes ends =
    scan_quote q (doubled q body ++ (q ∷ rest)) quotes ∙ skip_quoted_complete q body rest ends

scan-q_quoted :
    (q opener : ℕ) (body rest : List ℕ)
    → (q == 113 || q == 81) ≡ true
    → Apart (q_quote_terminator opener) single_quote (body ++ (q_quote_terminator opener ∷ []))
    → scan q (single_quote ∷ opener ∷ body ++ (q_quote_terminator opener ∷ single_quote ∷ rest))
      ≡ ok rest
unfolding skip_q_quoted
scan-q_quoted q opener body rest h apart =
    scan_q_quote q
      (single_quote ∷ opener ∷ body ++ (q_quote_terminator opener ∷ single_quote ∷ rest)) h refl
    ∙ find_after_complete (q_quote_terminator opener) single_quote body rest apart

scan-plain : (c : ℕ) (rest : List ℕ) → is_plain c rest ≡ true → scan c rest ≡ ok rest
unfolding scan
scan-plain c rest h = ground (arith, h)

Lexemes-scan_all :
    (text : List ℕ) → Lexemes text → (fuel : ℕ) → length text < fuel → scan_all fuel text ≡ ok tt
unfolding scan_all
Lexemes-scan_all text (end _ e) zero h = absurd (omega arith)
Lexemes-scan_all text (end _ e) (suc fuel) h = ap (scan_all (suc fuel)) e
Lexemes-scan_all text (line_comment _ body rest e on at l) fuel h =
    lexeme_step text _ rest dash fuel e (scan-line_comment body rest on at) h
      (Lexemes-scan_all rest l)
Lexemes-scan_all text (block_comment _ body rest e apart l) fuel h =
    lexeme_step text _ rest slash fuel e (scan-block_comment body rest apart) h
      (Lexemes-scan_all rest l)
Lexemes-scan_all text (quoted q _ body rest e quotes ends l) fuel h =
    lexeme_step text _ rest q fuel e (scan-quoted q body rest quotes ends) h
      (Lexemes-scan_all rest l)
Lexemes-scan_all text (q_quoted q opener _ body rest e starts apart l) fuel h =
    lexeme_step text _ rest q fuel e (scan-q_quoted q opener body rest starts apart) h
      (Lexemes-scan_all rest l)
Lexemes-scan_all text (plain c _ rest e p l) fuel h =
    lexeme_step text rest rest c fuel e (scan-plain c rest p) h (Lexemes-scan_all rest l)

-- RejectStatementTerminators lets a text through exactly when it is a sequence of comments, quoted
-- values and plain characters, none of them a semicolon: a semicolon stands only inside a comment or a
-- quoted value, and every such lexeme but a line comment has its end.
pub reject_statement_terminators_iff :
    (text : List ℕ) → (reject_statement_terminators text ≡ ok tt) ↔ Lexemes text
unfolding reject_statement_terminators
reject_statement_terminators_iff text = (
  scan_all-Lexemes (length text + 1) text,
  λ l. Lexemes-scan_all text l (length text + 1) (omega arith),
)

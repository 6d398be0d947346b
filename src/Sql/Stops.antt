-- ===== src/Sql/Stops.antt =====
-- The loop of `RejectStatementTerminators` in src/sql_statement.cpp comes to an end.
use quack_oracle.Base.{
  ℕ, zero, suc, ◌+◌, ◌≤◌, ◌<◌, ◌≡◌, refl, Bool-cases, inl, inr, ◌⊎◌, ◌&&◌, ◌||◌, List, [], ◌∷◌,
  ◌==◌, length, Result, ok, err, malformed, arith,
}
use quack_oracle.Sql.{
  double_quote, single_quote, star, dash, slash, semicolon, q_quote_terminator, skip_quoted,
  skip_line, find_after, begins, begins_q_quote, tail, skip_q_quoted, scan, scan_all,
  reject_statement_terminators,
}

-- What a scan leaves is shorter than what it began with.
pub skip_line-length : (text : List ℕ) → length (skip_line text) ≤ length text
unfolding skip_line
skip_line-length [] = omega arith
skip_line-length (c ∷ rest) = ground (arith, skip_line-length rest)

-- A scanner comes to the end of its lexeme, nearer the end of the text, or finds the text malformed.
unfoldable pub Stops : List ℕ → Result (List ℕ) → Type 0
Stops text r = ((left : List ℕ) × (r ≡ ok left) × (length left ≤ length text)) ⊎ (r ≡ err malformed)

pub find_after-Stops : (a b : ℕ) (text : List ℕ) → Stops text (find_after a b text)
unfolding find_after Stops
find_after-Stops a b [] = inr refl
find_after-Stops a b (c ∷ []) = inr refl
find_after-Stops a b (c ∷ d ∷ rest) = elim (Bool-cases (c == a && d == b)) [
  | inl found ↦ inl (rest, ground (arith, found), omega arith)
  | inr on ↦ elim (find_after-Stops a b (d ∷ rest)) [
    | inl (left, e, h) ↦ inl (left, ground (arith, on, e), omega (arith, h))
    | inr e ↦ inr (ground (arith, on, e))
  ]
]

pub skip_quoted-Stops : (q : ℕ) (text : List ℕ) → Stops text (skip_quoted q text)
unfolding skip_quoted Stops
skip_quoted-Stops q [] = inr refl
skip_quoted-Stops q (c ∷ []) = elim (Bool-cases (c == q)) [
  | inl same ↦ inl ([], ground (arith, same), omega arith)
  | inr other ↦ inr (ground (arith, other))
]
skip_quoted-Stops q (c ∷ d ∷ rest) = elim (Bool-cases (c == q)) [
  | inl same ↦ elim (Bool-cases (d == q)) [
    | inl twice ↦ elim (skip_quoted-Stops q rest) [
      | inl (left, e, h) ↦ inl (left, ground (arith, same, twice, e), omega (arith, h))
      | inr e ↦ inr (ground (arith, same, twice, e))
    ]
    | inr once ↦ inl (d ∷ rest, ground (arith, same, once), omega arith)
  ]
  | inr other ↦ elim (skip_quoted-Stops q (d ∷ rest)) [
    | inl (left, e, h) ↦ inl (left, ground (arith, other, e), omega (arith, h))
    | inr e ↦ inr (ground (arith, other, e))
  ]
]

pub skip_q_quoted-Stops : (text : List ℕ) → Stops text (skip_q_quoted text)
unfolding skip_q_quoted Stops
skip_q_quoted-Stops [] = inr refl
skip_q_quoted-Stops (c ∷ []) = inr refl
skip_q_quoted-Stops (c ∷ opener ∷ rest) =
    elim (find_after-Stops (q_quote_terminator opener) single_quote rest) [
      | inl (left, e, h) ↦ inl (left, e, omega (arith, h))
      | inr e ↦ inr e
    ]

pub Stops-tail : (rest : List ℕ) (r : Result (List ℕ)) → Stops (tail rest) r → Stops rest r
unfolding Stops
Stops-tail [] r s = s
Stops-tail (c ∷ rest) r (inl (left, e, h)) = inl (left, e, omega (arith, h))
Stops-tail (c ∷ rest) r (inr e) = inr e

pub scan-Stops : (c : ℕ) (rest : List ℕ) → Stops rest (scan c rest)
unfolding scan Stops
scan-Stops c rest = elim (Bool-cases (c == dash && begins dash rest)) [
  | inl comment ↦
      rw comment
        (Stops-tail rest _ (inl (skip_line (tail rest), refl, skip_line-length (tail rest))))
  | inr not_line ↦ elim (Bool-cases (c == slash && begins star rest)) [
    | inl comment ↦
        rw (not_line, comment) (Stops-tail rest _ (find_after-Stops star slash (tail rest)))
    | inr not_block ↦ elim (Bool-cases (c == single_quote || c == double_quote)) [
      | inl quotes ↦ rw (not_line, not_block, quotes) (skip_quoted-Stops c rest)
      | inr not_quoted ↦ elim (Bool-cases ((c == 113 || c == 81) && begins_q_quote rest)) [
        | inl q_quote ↦ rw (not_line, not_block, not_quoted, q_quote) (skip_q_quoted-Stops rest)
        | inr not_q ↦ elim (Bool-cases (c == semicolon)) [
          | inl terminator ↦ rw (not_line, not_block, not_quoted, not_q, terminator) (inr refl)
          | inr other ↦
              rw (not_line, not_block, not_quoted, not_q, other) (inl (rest, refl, omega arith))
        ]
      ]
    ]
  ]
]

pub scan_all_step :
    (fuel c : ℕ) (rest left : List ℕ)
    → scan c rest ≡ ok left
    → scan_all (suc fuel) (c ∷ rest) ≡ scan_all fuel left
unfolding scan_all
scan_all_step fuel c rest left e = rw (e, scan_all) refl

pub scan_all_err :
    (fuel c : ℕ) (rest : List ℕ)
    → scan c rest ≡ err malformed
    → scan_all (suc fuel) (c ∷ rest) ≡ err malformed
unfolding scan_all
scan_all_err fuel c rest e = rw (e, scan_all) refl

scan_all-total :
    (fuel : ℕ) (text : List ℕ)
    → length text < fuel
    → (scan_all fuel text ≡ ok tt) ⊎ (scan_all fuel text ≡ err malformed)
unfolding scan_all Stops
scan_all-total zero text h = absurd (omega arith)
scan_all-total (suc fuel) [] h = inl refl
scan_all-total (suc fuel) (c ∷ rest) h = elim (scan-Stops c rest) [
  | inl (left, e, shorter) ↦
      rw (scan_all_step fuel c rest left e) (scan_all-total fuel left (omega (arith, shorter)))
  | inr e ↦ inr (scan_all_err fuel c rest e)
]

-- On any text RejectStatementTerminators ends: it returns, or throws MALFORMED.
pub reject_statement_terminators_total :
    (text : List ℕ)
    → (reject_statement_terminators text ≡ ok tt)
      ⊎ (reject_statement_terminators text ≡ err malformed)
unfolding reject_statement_terminators
reject_statement_terminators_total text = scan_all-total (length text + 1) text (omega arith)

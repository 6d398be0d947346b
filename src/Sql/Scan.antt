-- ===== src/Sql/Scan.antt =====
-- Each scanner of src/sql_statement.cpp against the lexeme that it passes over.
use quack_oracle.Base.{
  ℕ, ◌≡◌, refl, ap, ◌∙◌, false, Bool-cases, inl, inr, ◌&&◌, List, [], ◌∷◌, ◌++◌, ◌==◌, All, ok,
  arith,
}
use quack_oracle.Sql.{skip_quoted, skip_line, find_after, begins}
use quack_oracle.Sql.Lexemes.{Apart, doubled, ends_line, AtLineEnd}

pub skip_line_sound :
    (text : List ℕ)
    → (body : List ℕ) × (text ≡ body ++ skip_line text)
      × All (λ c. ends_line c ≡ false) body
      × AtLineEnd (skip_line text)
unfolding skip_line
skip_line_sound [] = ([], refl, tt, tt)
skip_line_sound (c ∷ rest) = elim (Bool-cases (ends_line c)) [
  | inl stop ↦ ([], ground (arith, stop), tt, ground (arith, stop))
  | inr on ↦
      let (body, e, a, z) = skip_line_sound rest in
      (c ∷ body, ground (arith, on, e), (on, a), ground (arith, on, z))
]

pub skip_line_complete :
    (body rest : List ℕ)
    → All (λ c. ends_line c ≡ false) body
    → AtLineEnd rest
    → skip_line (body ++ rest) ≡ rest
unfolding skip_line
skip_line_complete [] [] a z = refl
skip_line_complete [] (c ∷ rest) a z = ground (arith, z)
skip_line_complete (c ∷ body) rest a z = ground (arith, a.0, skip_line_complete body rest a.1 z)

Apart-cons :
    (a b c d : ℕ) (rest body left : List ℕ)
    → ◌≡◌ {A = List ℕ} (d ∷ rest) (body ++ (a ∷ b ∷ left))
    → (c == a && d == b) ≡ false
    → Apart a b (body ++ (a ∷ []))
    → Apart a b (c ∷ (body ++ (a ∷ [])))
Apart-cons a b c d rest [] left e on h = (ground (arith, e, on), tt)
Apart-cons a b c d rest (x ∷ body) left e on h = (ground (arith, e, on), h)

pub find_after_sound :
    (a b : ℕ) (text left : List ℕ)
    → find_after a b text ≡ ok left
    → (body : List ℕ) × (text ≡ body ++ (a ∷ b ∷ left)) × Apart a b (body ++ (a ∷ []))
unfolding find_after
find_after_sound a b [] left e = absurd (cc)
find_after_sound a b (c ∷ []) left e = absurd (cc)
find_after_sound a b (c ∷ d ∷ rest) left e = elim (Bool-cases (c == a && d == b)) [
  | inl found ↦ ([], ground (arith, e, found), tt)
  | inr on ↦
      let (body, same, apart) = find_after_sound a b (d ∷ rest) left (ground (arith, e, on)) in
      (c ∷ body, ap (◌∷◌ c) same, Apart-cons a b c d rest body left same on apart)
]

pub find_after_complete :
    (a b : ℕ) (body left : List ℕ)
    → Apart a b (body ++ (a ∷ []))
    → find_after a b (body ++ (a ∷ b ∷ left)) ≡ ok left
unfolding find_after
find_after_complete a b [] left h = ground arith
find_after_complete a b (c ∷ []) left h = ground (arith, h.0)
find_after_complete a b (c ∷ d ∷ body) left h =
    ground (arith, h.0, find_after_complete a b (d ∷ body) left h.1)

skip_quoted_other :
    (q c : ℕ) (text : List ℕ) → (c == q) ≡ false → skip_quoted q (c ∷ text) ≡ skip_quoted q text
unfolding skip_quoted
skip_quoted_other q c [] other = ground (arith, other)
skip_quoted_other q c (d ∷ text) other = ground (arith, other)

doubled_other :
    (q c : ℕ) (body : List ℕ) → (c == q) ≡ false → doubled q (c ∷ body) ≡ c ∷ doubled q body
doubled_other q c body other = ground (arith, other)

pub skip_quoted_sound :
    (q : ℕ) (text left : List ℕ)
    → skip_quoted q text ≡ ok left
    → (body : List ℕ) × (text ≡ doubled q body ++ (q ∷ left)) × (begins q left ≡ false)
unfolding skip_quoted
skip_quoted_sound q [] left e = absurd (cc)
skip_quoted_sound q (c ∷ []) left e = elim (Bool-cases (c == q)) [
  | inl same ↦ ([], ground (arith, e, same), ground (arith, e, same))
  | inr other ↦ absurd (ground (arith, e, other))
]
skip_quoted_sound q (c ∷ d ∷ rest) left e = elim (Bool-cases (c == q)) [
  | inl same ↦ elim (Bool-cases (d == q)) [
    | inl twice ↦
        let (body, f, z) = skip_quoted_sound q rest left (ground (arith, e, same, twice)) in
        (q ∷ body, ground (arith, same, twice, f), z)
    | inr once ↦ ([], ground (arith, e, same, once), ground (arith, e, same, once))
  ]
  | inr other ↦
      let (body, f, z) = skip_quoted_sound q (d ∷ rest) left (ground (arith, e, other)) in
      (c ∷ body, ground (arith, other, f), z)
]

pub skip_quoted_complete :
    (q : ℕ) (body left : List ℕ)
    → begins q left ≡ false
    → skip_quoted q (doubled q body ++ (q ∷ left)) ≡ ok left
unfolding skip_quoted
skip_quoted_complete q [] [] h = ground arith
skip_quoted_complete q [] (c ∷ left) h = ground (arith, h)
skip_quoted_complete q (c ∷ body) left h = elim (Bool-cases (c == q)) [
  | inl same ↦ ground (arith, same, skip_quoted_complete q body left h)
  | inr other ↦
      ap (λ (t : List ℕ). skip_quoted q (t ++ (q ∷ left))) (doubled_other q c body other)
      ∙ (skip_quoted_other q c (doubled q body ++ (q ∷ left)) other
          ∙ skip_quoted_complete q body left h)
]

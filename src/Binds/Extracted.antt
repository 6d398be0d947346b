-- ===== src/Binds/Extracted.antt =====
-- The loop of `ExtractOracleBindPlaceholders` in src/sql_binds.cpp on any text.
use quack_oracle.Base.{
  ℕ, zero, suc, ◌+◌, ◌≤◌, ◌<◌, ◌≡◌, refl, Bool, true, false, not, ◌&&◌, ◌||◌, Bool-cases, List, [],
  ◌∷◌, ◌++◌, ◌==◌, length, Result, ok, err, stuck, ◌>>=◌, Ends, returns, throws, Ends-bind,
  Ends-guard, inl, inr, arith, malformed,
}
use quack_oracle.Sql.{dash, slash, star, single_quote, double_quote, begins, tail, begins_q_quote}
use quack_oracle.Sql.Keyword.{same}
use quack_oracle.Sql.Stops.{
  Stops, skip_line-length, find_after-Stops, skip_quoted-Stops, skip_q_quoted-Stops, Stops-tail,
}
use quack_oracle.Binds.{canonical_bind_name, has_name}
use quack_oracle.Binds.Placeholders.{
  colon, begins_bind, drop_name, Piece, plain, placeholder, skipped, piece, add_name, extract,
  extract_placeholders,
}
use quack_oracle.Binds.Matched.{canonical_ends, known}

abbrev left_of : Piece → List ℕ
left_of (plain left) = left
left_of (placeholder name left) = left

skipped-Ends :
    (rest : List ℕ) (r : Result (List ℕ))
    → Stops rest r
    → Ends (λ p. length (left_of p) ≤ length rest) (skipped r)
unfolding Stops
skipped-Ends rest r (inl (left, e, h)) = rw e (returns h)
skipped-Ends rest r (inr e) = rw e throws

drop_name-length : (cs : List ℕ) → length (drop_name cs) ≤ length cs
unfolding drop_name
drop_name-length [] = omega arith
drop_name-length (c ∷ cs) = ground (arith, drop_name-length cs)

length-tail : (rest : List ℕ) → length (tail rest) ≤ length rest
length-tail [] = omega arith
length-tail (c ∷ rest) = omega arith

piece-Ends : (c : ℕ) (rest : List ℕ) → Ends (λ p. length (left_of p) ≤ length rest) (piece c rest)
unfolding piece
piece-Ends c rest = elim (Bool-cases (c == dash && begins dash rest)) [
  | inl a ↦ rw a (returns (omega (arith, skip_line-length (tail rest), length-tail rest)))
  | inr a ↦ rw a (elim (Bool-cases (c == slash && begins star rest)) [
    | inl b ↦
        rw b (skipped-Ends rest _ (Stops-tail rest _ (find_after-Stops star slash (tail rest))))
    | inr b ↦ rw b (elim (Bool-cases (c == single_quote || c == double_quote)) [
      | inl d ↦ rw d (skipped-Ends rest _ (skip_quoted-Stops c rest))
      | inr d ↦ rw d (elim (Bool-cases ((c == 113 || c == 81) && begins_q_quote rest)) [
        | inl q ↦ rw q (skipped-Ends rest _ (skip_q_quoted-Stops rest))
        | inr q ↦ rw q (elim (Bool-cases (c == colon && begins_bind rest)) [
          | inl p ↦ rw p (returns (drop_name-length rest))
          | inr p ↦ rw p (returns (omega arith))
        ])
      ])
    ])
  ])
]

-- No name stands twice.
unfoldable pub distinct_names : List (List ℕ) → Bool
distinct_names [] = true
distinct_names (n ∷ ns) = not (has_name n ns) && distinct_names ns

same_comm : (xs ys : List ℕ) → same xs ys ≡ same ys xs
unfolding same
same_comm [] [] = refl
same_comm [] (y ∷ ys) = refl
same_comm (x ∷ xs) [] = refl
same_comm (x ∷ xs) (y ∷ ys) = ground (arith, same_comm xs ys)

has_name-snoc :
    (n m : List ℕ) (ns : List (List ℕ)) → has_name n (ns ++ m ∷ []) ≡ (has_name n ns || same n m)
unfolding has_name
has_name-snoc n m [] = ground arith
has_name-snoc n m (x ∷ ns) = ground (arith, has_name-snoc n m ns)

distinct-snoc :
    (m : List ℕ) (ns : List (List ℕ))
    → distinct_names ns ≡ true
    → has_name m ns ≡ false
    → distinct_names (ns ++ m ∷ []) ≡ true
unfolding distinct_names has_name
distinct-snoc m [] d h = refl
distinct-snoc m (n ∷ ns) d h =
    let rest = distinct-snoc m ns (ground (arith, d)) (ground (arith, h)) in
    ground (arith, rest, d, h, has_name-snoc n m ns, same_comm n m)

add_name-distinct :
    (names : List (List ℕ)) (n : List ℕ)
    → distinct_names names ≡ true
    → distinct_names (add_name names n) ≡ true
unfolding add_name
add_name-distinct names n d = elim (Bool-cases (has_name n names)) [
  | inl e ↦ rw e d
  | inr e ↦ rw e (distinct-snoc n names d e)
]

abbrev Distinct : List (List ℕ) → Type 0
Distinct names = distinct_names names ≡ true

-- What a round found, taken by the rest of the loop.
found-Ends :
    (fuel : ℕ) (names : List (List ℕ)) (rest : List ℕ) (p : Piece)
    → Distinct names
    → length (left_of p) ≤ length rest
    → ((ns : List (List ℕ)) (left : List ℕ)
        → Distinct ns
        → length left ≤ length rest
        → Ends Distinct (extract fuel ns left))
    → Ends Distinct (elim p as (λ x. Result (List (List ℕ))) [
      | plain left ↦ extract fuel names left
      | placeholder name left ↦
          canonical_bind_name name >>= λ n. extract fuel (add_name names n) left
    ])
found-Ends fuel names rest (plain left) d h k = k names left d h
found-Ends fuel names rest (placeholder name left) d h k =
    Ends-bind _ (known (canonical_bind_name name) (canonical_ends name))
      (λ n e. k (add_name names n) left (add_name-distinct names n d) h)

round-Ends :
    (fuel : ℕ) (names : List (List ℕ)) (rest : List ℕ) (r : Result Piece)
    → Distinct names
    → Ends (λ p. length (left_of p) ≤ length rest) r
    → ((ns : List (List ℕ)) (left : List ℕ)
        → Distinct ns
        → length left ≤ length rest
        → Ends Distinct (extract fuel ns left))
    → Ends Distinct (elim r as (λ x. Result (List (List ℕ))) [
      | ok p ↦ elim p [
        | plain left ↦ extract fuel names left
        | placeholder name left ↦
            canonical_bind_name name >>= λ n. extract fuel (add_name names n) left
      ]
      | err e ↦ err e
      | stuck ↦ stuck
    ])
round-Ends fuel names rest (ok p) d (returns h) k = found-Ends fuel names rest p d h k
round-Ends fuel names rest (err x) d throws k = throws
round-Ends fuel names rest stuck d e k = elim e [ ]

extract-Ends :
    (fuel : ℕ) (names : List (List ℕ)) (text : List ℕ)
    → Distinct names
    → length text < fuel
    → Ends Distinct (extract fuel names text)
unfolding extract
extract-Ends zero names text d h = absurd (omega arith)
extract-Ends (suc fuel) names [] d h = returns d
extract-Ends (suc fuel) names (c ∷ rest) d h =
    round-Ends fuel names rest (piece c rest) d (piece-Ends c rest)
      (λ ns left e l. extract-Ends fuel ns left e (omega arith))

-- On any text ExtractOracleBindPlaceholders ends: it throws, or it returns names of which no two are
-- the same.
pub extract_placeholders-Ends :
    (sql : List ℕ) → Ends (λ names. distinct_names names ≡ true) (extract_placeholders sql)
unfolding extract_placeholders distinct_names
extract_placeholders-Ends sql =
    Ends-guard _ malformed (extract (length sql + 1) [] sql)
      (λ _. extract-Ends (length sql + 1) [] sql refl (omega arith))

-- ===== src/Callable/Components.antt =====
-- The two functions of src/call_builder.cpp that read a callable name.
use quack_oracle.Base.{
  ℕ, zero, suc, ◌+◌, ◌≤◌, ◌<◌, ◌≡◌, refl, Bool, true, false, List, [], ◌∷◌, ◌++◌, ltb, ◌==◌, ◌||◌,
  if◌then◌else◌, length, Result, ok, err, stuck, throw_if, ◌>>=◌, ◌>>◌, Ends, returns, throws,
  Ends-bind, Ends-guard, ProtocolErrorKind, Bool-cases, length-append, arith, inl, inr,
  limit_exceeded, malformed,
}
use quack_oracle.Binds.{is_identifier_start}
use quack_oracle.Callable.{
  behind, quote, dot, Component, quoted_component, any_component, parse_component, skip_separator,
  parse_loop, split_loop, stored_name, parse_oracle_callable_name, split_oracle_callable_name,
}

-- Two chains with the same first step.
same_step :
    {A B C : Type 0} (m : Result A) (f : A → Result C) (g : A → Result B) (h : B → Result C)
    → ((a : A) → f a ≡ (g a >>= h))
    → (m >>= f) ≡ (m >>= g >>= h)
same_step (ok a) f g h e = e a
same_step (err k) f g h e = refl
same_step stuck f g h e = refl

same_guard :
    {B C : Type 0} (b c : Bool) (k : ProtocolErrorKind) (r : Result C) (s : Result B)
    (h : B → Result C)
    → b ≡ c
    → (b ≡ false → r ≡ (s >>= h))
    → (throw_if b k >> r) ≡ (throw_if c k >> s >>= h)
same_guard true true k r s h e f = refl
same_guard false false k r s h e f = f refl
same_guard true false k r s h e f = absurd cc
same_guard false true k r s h e f = absurd cc

abbrev is_read : List (List ℕ) → Result (Unit {0})
is_read components = ok tt

parse-split_loop :
    (fuel n : ℕ) (components : List (List ℕ)) (rest : List ℕ)
    → n ≡ length components
    → n ≤ 3
    → parse_loop fuel n rest ≡ (split_loop fuel components rest >>= is_read)
unfolding parse_loop split_loop
parse-split_loop zero n components rest e l = refl
parse-split_loop (suc fuel) n components [] e l = refl
parse-split_loop (suc fuel) n components (c ∷ rest) e l =
    same_step (parse_component (c ∷ rest)) _ _ is_read (λ component.
      same_guard (ltb 3 (n + 1)) (length components == 3) limit_exceeded _ _ is_read
        (ground (arith, e))
        (λ b. same_step (skip_separator component.1) _ _ is_read (λ left.
          parse-split_loop fuel (n + 1) (components ++ stored_name component.0 ∷ []) left
            (omega (arith, e, length-append components (stored_name component.0 ∷ [])))
            (ground (arith, b, e, length-append components (stored_name component.0 ∷ []))))))

if-Ends :
    (b : Bool) {r s : Result Component}
    → Ends (λ c. Unit {0}) r
    → Ends (λ c. Unit {0}) s
    → Ends (λ c. Unit {0}) (if b then r else s)
if-Ends true r s = r
if-Ends false r s = s

either-Ends :
    (b : Bool) {r s : Result Component}
    → Ends (λ c. Unit {0}) r
    → Ends (λ c. Unit {0}) s
    → Ends (λ c. Unit {0}) (elim b [ true ↦ r | false ↦ s ])
either-Ends true r s = r
either-Ends false r s = s

behind-Ends :
    (text : List ℕ) {r : Result Component}
    → Ends (λ c. Unit {0}) r
    → Ends (λ c. Unit {0}) (behind text r)
behind-Ends text (returns u) = returns tt
behind-Ends text throws = throws

quoted_component-Ends :
    (first : Bool) (value : List ℕ) → Ends (λ c. Unit {0}) (quoted_component first value)
unfolding quoted_component
quoted_component-Ends first [] = throws
quoted_component-Ends first (c ∷ []) =
    if-Ends (c == quote) (if-Ends first throws (returns tt)) throws
quoted_component-Ends first (c ∷ d ∷ rest) =
    either-Ends (c == quote)
      (either-Ends (d == quote) (behind-Ends (c ∷ d ∷ []) (quoted_component-Ends false rest))
        (if-Ends first throws (returns tt)))
      (either-Ends (ltb c 32 || c == 127) throws
        (behind-Ends (c ∷ []) (quoted_component-Ends false (d ∷ rest))))

any_component-Ends : (value : List ℕ) → Ends (λ c. Unit {0}) (any_component value)
unfolding any_component
any_component-Ends [] = throws
any_component-Ends (c ∷ rest) =
    either-Ends (c == quote) (behind-Ends (c ∷ []) (quoted_component-Ends true rest))
      (if-Ends (is_identifier_start c) (returns tt) throws)

parse_component-Ends : (value : List ℕ) → Ends (λ c. Unit {0}) (parse_component value)
unfolding parse_component
parse_component-Ends value =
    Ends-bind _ (any_component-Ends value)
      (λ c u. Ends-guard (ltb 128 (length c.0)) limit_exceeded (ok c) (λ b. returns tt))

skip_separator-Ends : (value : List ℕ) → Ends (λ c. Unit {0}) (skip_separator value)
unfolding skip_separator
skip_separator-Ends [] = returns tt
skip_separator-Ends (c ∷ rest) = elim (Bool-cases (c == dot)) [
  | inl e ↦ rw e (returns tt)
  | inr e ↦ rw e throws
]

-- One to three components.
abbrev pub Few : List (List ℕ) → Type 0
Few components = (0 < length components) × (length components ≤ 3)

split_loop-Ends :
    (fuel : ℕ) (components : List (List ℕ)) (rest : List ℕ)
    → 3 < length components + fuel
    → length components ≤ 3
    → 0 < length components + length rest
    → Ends Few (split_loop fuel components rest)
unfolding split_loop
split_loop-Ends zero components rest f l n = absurd (omega arith)
split_loop-Ends (suc fuel) components [] f l n = returns (omega arith, l)
split_loop-Ends (suc fuel) components (c ∷ rest) f l n =
    Ends-bind _ (parse_component-Ends (c ∷ rest)) (λ component u.
      Ends-guard (length components == 3) limit_exceeded _ (λ b.
        Ends-bind _ (skip_separator-Ends component.1) (λ left v.
          let more : length (components ++ stored_name component.0 ∷ []) ≡ length components + 1 =
            length-append components (stored_name component.0 ∷ []) in
          split_loop-Ends fuel (components ++ stored_name component.0 ∷ []) left
            (omega (arith, more)) (ground (arith, more, b)) (omega (arith, more)))))

not_empty : (c : ℕ) (rest : List ℕ) → (length (c ∷ rest) == 0) ≡ false
not_empty c rest = ground arith

read_value :
    (value : List ℕ) (r : Result (List (List ℕ)))
    → (r >>= is_read >>= λ u. ok value) ≡ (r >>= λ components. ok value)
read_value value (ok components) = refl
read_value value (err k) = refl
read_value value stuck = refl

-- On any text both functions end, and with the same error or none: `ParseOracleCallableName` returns
-- the text exactly when `SplitOracleCallableName` returns components, which are one to three.
pub parse-split :
    (value : List ℕ)
    → (parse_oracle_callable_name value
        ≡ (split_oracle_callable_name value >>= λ components. ok value))
      × Ends Few (split_oracle_callable_name value)
unfolding parse_oracle_callable_name split_oracle_callable_name
parse-split [] = (refl, throws)
parse-split (c ∷ rest) = (
  rw (not_empty c rest, parse-split_loop 4 0 [] (c ∷ rest) refl (omega arith))
      (read_value (c ∷ rest) (split_loop 4 [] (c ∷ rest))),
  Ends-guard (length (c ∷ rest) == 0) malformed (split_loop 4 [] (c ∷ rest))
      (λ b. split_loop-Ends 4 [] (c ∷ rest) (omega arith) (omega arith) (omega arith)),
)

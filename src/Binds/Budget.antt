-- ===== src/Binds/Budget.antt =====
-- What the checks of src/bind_validation.cpp bound.
use quack_oracle.Base.{
  ℕ, ◌+◌, ◌-◌, ◌≤◌, ◌≡◌, not, ◌&&◌, ◌||◌, Bool-cases, Option-cases, none, some, List, [], ◌∷◌, ◌==◌,
  ltb, if◌then◌else◌, length, ok, ◌>>=◌, Ends, returns, throws, Ends-bind, Ends-guard, Ends-map,
  inl, inr, arith, malformed, limit_exceeded,
}
use quack_oracle.Binds.{
  OracleBind, OracleBindUse, max_bind_value_bytes, max_bind_count, temp_lob_threshold_bytes,
  temp_lob_maximum_bytes, add_value, add_lob, add_content, validate_bind_value, canonical_bind_name,
  has_name, validate_each, validate_oracle_binds, is_call, is_in,
}
use quack_oracle.Binds.Matched.{known, canonical_ends}

-- The bytes of a bind that travel in the statement itself: not those of a large LOB.
unfoldable pub inline_bytes : OracleBind → ℕ
inline_bytes bind = elim bind.content [
  | none ↦ 0
  | some value ↦
      if not (bind.lob_content == 0) && ltb temp_lob_threshold_bytes (length value)
      then 0
      else length value
]

unfoldable pub all_inline_bytes : List OracleBind → ℕ
all_inline_bytes [] = 0
all_inline_bytes (bind ∷ binds) = inline_bytes bind + all_inline_bytes binds

abbrev Adds : ℕ → ℕ → ℕ → Type 0
Adds total size t = (t ≡ total + size) × (t ≤ max_bind_value_bytes)

add_value-Adds : (size total : ℕ) → Ends (Adds total size) (add_value size total)
unfolding add_value
add_value-Adds size total =
    elim (Bool-cases (ltb max_bind_value_bytes size || ltb (max_bind_value_bytes - size) total)) [
      | inl e ↦ rw e throws
      | inr e ↦ rw e (returns (ground (arith, e)))
    ]

add_content-Adds :
    (bind : OracleBind) (total : ℕ)
    → total ≤ max_bind_value_bytes
    → Ends (Adds total (inline_bytes bind)) (add_content bind total)
unfolding add_content add_lob inline_bytes
add_content-Adds bind total h = elim (Option-cases bind.content) [
  | inl e ↦ rw e (returns (omega arith, h))
  | inr (value, e) ↦ rw e (elim (Bool-cases (bind.lob_content == 0)) [
    | inl z ↦ rw z (add_value-Adds (length value) total)
    | inr z ↦ rw z (elim (Bool-cases (ltb temp_lob_maximum_bytes (length value))) [
      | inl l ↦ rw l throws
      | inr l ↦ rw l (elim (Bool-cases (ltb temp_lob_threshold_bytes (length value))) [
        | inl t ↦ rw t (returns (omega arith, h))
        | inr t ↦ rw t (add_value-Adds (length value) total)
      ])
    ])
  ])
]

validate_bind_value-Adds :
    (bind : OracleBind) (use_of : OracleBindUse) (total : ℕ)
    → total ≤ max_bind_value_bytes
    → Ends (Adds total (inline_bytes bind)) (validate_bind_value bind use_of total)
unfolding validate_bind_value
validate_bind_value-Adds bind use_of total h =
    elim (Bool-cases (not (is_call use_of) && not (is_in bind.direction))) [
      | inl e ↦ rw e throws
      | inr e ↦
          rw e
            (elim (Bool-cases
              (is_call use_of && not (is_in bind.direction) && bind.oracle_type == 0)) [
                | inl f ↦ rw f throws
                | inr f ↦ rw f (elim (Bool-cases (ltb max_bind_value_bytes bind.maximum_bytes)) [
                  | inl g ↦ rw g throws
                  | inr g ↦ rw g (add_content-Adds bind total h)
                ])
              ])
    ]

validate_each-Adds :
    (binds : List OracleBind) (use_of : OracleBindUse) (names : List (List ℕ)) (total : ℕ)
    → total ≤ max_bind_value_bytes
    → Ends (Adds total (all_inline_bytes binds)) (validate_each binds use_of names total)
unfolding validate_each all_inline_bytes
validate_each-Adds [] use_of names total h = returns (omega arith, h)
validate_each-Adds (bind ∷ binds) use_of names total h =
    Ends-bind _ (known (canonical_bind_name bind.name) (canonical_ends bind.name)) λ name _.
      Ends-guard (has_name name names) malformed
        (validate_bind_value bind use_of total >>= λ t. validate_each binds use_of (name ∷ names) t)
        λ _. Ends-bind _ (validate_bind_value-Adds bind use_of total h) λ t a.
          Ends-map (validate_each-Adds binds use_of (name ∷ names) t a.1)
            (λ u b. (omega (arith, a, b), b.1))

-- On any binds ValidateOracleBinds ends: it throws, or there are at most 65535 binds and the bytes of
-- their values, those of large LOBs apart, are together at most 16 MiB, so that no sum of sizes wraps.
pub validate_oracle_binds-Ends :
    (binds : List OracleBind) (use_of : OracleBindUse)
    → Ends
        (λ (u : Unit {0}).
          (length binds ≤ max_bind_count) × (all_inline_bytes binds ≤ max_bind_value_bytes))
        (validate_oracle_binds binds use_of)
unfolding validate_oracle_binds
validate_oracle_binds-Ends binds use_of =
    Ends-guard (ltb max_bind_count (length binds)) limit_exceeded
      (validate_each binds use_of [] 0 >>= λ _. ok tt)
      λ small.
        Ends-bind _ (validate_each-Adds binds use_of [] 0 (omega arith))
          λ t a. returns (ground (arith, small), omega (arith, a))

-- ===== src/TransactionPool/Acquire.antt =====
-- One call of `Acquire` of src/transaction_session_pool.cpp from its first round to its end, with what
-- other threads do to the pool between its locked sections.
use quack_oracle.Base.{
  ℕ, zero, suc, ◌+◌, ◌≤◌, ◌≡◌, true, ◌⊎◌, List, [], ◌∷◌, length, Result, ok, err, ProtocolErrorKind,
  invalid_state,
}
use quack_oracle.Base.Counts.{count}
use quack_oracle.SessionPool.{FactoryOutcome, made, made_null, threw}
use quack_oracle.TransactionPool.{TransactionPool, Surroundings, yes, throws, sessions}

-- The sum over `rounds` rounds from one on.
unfoldable pub sum_of : (ℕ → ℕ) → ℕ → ℕ → ℕ
sum_of f round zero = 0
sum_of f round (suc rounds) = f round + sum_of f (round + 1) rounds

-- What the other threads take out of the idle sessions and put into them, by the round.
pub record Others (s : Surroundings) (takes gives : ℕ → ℕ → ℕ) (returned : ℕ → ℕ) : Type 0 where
  pub moved :
      (round x : ℕ) (p : TransactionPool)
      → count x (sessions (s.others round p).idle) + takes x round
        ≡ count x (sessions p.idle) + gives x round
  pub total :
      (round : ℕ) (p : TransactionPool)
      → length (s.others round p).idle ≤ length p.idle + returned round

-- `here` counts a session where the call left it: idle, closed or with the caller. Over the call's
-- rounds nothing is lost but what other threads took, and nothing added but what they gave.
abbrev pub Conserved :
    (ℕ → ℕ → ℕ) → (ℕ → ℕ → ℕ) → ℕ → ℕ → (ℕ → ℕ) → TransactionPool → List ℕ → Type 0
Conserved takes gives round rounds here p closes =
    (x : ℕ)
    → here x + sum_of (takes x) round rounds
      ≡ count x (sessions p.idle) + count x closes + sum_of (gives x) round rounds

module _ (s : Surroundings) (opener : FactoryOutcome) (takes gives : ℕ → ℕ → ℕ) where
  -- What a call can end with: the result, the sessions that it closed, and the pool.
  pub data Leased (round : ℕ) (p : TransactionPool) (closes : List ℕ)
      : Result ℕ × List ℕ × TransactionPool → Type 0 where
    -- An idle session that proved itself.
    reused :
        (rounds session : ℕ) (all : List ℕ) (q : TransactionPool)
        → s.binds session ≡ yes
        → s.answers_probe session ≡ true
        → s.ready session ≡ yes
        → Conserved takes gives round rounds
            (λ x. count x (sessions q.idle) + count x (session ∷ []) + count x all)
            p
            closes
        → Leased round p closes (ok session, all, q)
    -- A candidate threw: it is neither idle nor closed.
    broke :
        (rounds session : ℕ) (e : ProtocolErrorKind) (all : List ℕ) (q : TransactionPool)
        → (s.binds session ≡ throws e) ⊎ (s.ready session ≡ throws e)
        → Conserved takes gives round rounds
            (λ x. count x (sessions q.idle) + count x (session ∷ []) + count x all)
            p
            closes
        → Leased round p closes (err e, all, q)
    -- No idle session was left, and a new one was opened.
    opened :
        (rounds last session : ℕ) (all : List ℕ) (seen q : TransactionPool)
        → last ≡ round + rounds
        → opener ≡ made session
        → seen.idle ≡ []
        → q.idle ≡ (s.others last seen).idle
        → Conserved takes gives round
            (suc rounds)
            (λ x. count x (sessions q.idle) + count x all)
            p
            closes
        → Leased round p closes (ok session, all, q)
    -- Nor could one be opened.
    failed :
        (rounds last : ℕ) (e : ProtocolErrorKind) (all : List ℕ) (seen q : TransactionPool)
        → last ≡ round + rounds
        → (opener ≡ threw e) ⊎ ((opener ≡ made_null) × (e ≡ invalid_state))
        → seen.idle ≡ []
        → q.idle ≡ (s.others last seen).idle
        → Conserved takes gives round
            (suc rounds)
            (λ x. count x (sessions q.idle) + count x all)
            p
            closes
        → Leased round p closes (err e, all, q)

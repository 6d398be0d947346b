-- ===== src/SessionPool/Sequential.antt =====
-- One thread on the pool of src/session_pool.cpp: what `Acquire`, `Release` and a lease do together.
use quack_oracle.Base.{
  ℕ, ◌+◌, ◌-◌, ◌≡◌, ◌≢◌, refl, ◌∙◌, sym, subst, false, Bool-cases, none, List, [], ◌∷◌, ◌==◌,
  if◌then◌else◌, Result, ok, err, ProtocolErrorKind, invalid_state, limit_exceeded, arith, ◌⊎◌, inl,
  inr,
}
use quack_oracle.SessionPool.{
  OracleSessionPool, take_or_reserve, FactoryOutcome, made, made_null, threw, give_up_place,
  finish_open, acquire, OracleSessionLease, release_lease, move_lease, assign_lease,
}

-- What one call of `Acquire` can do to a pool.
pub data Acquired (outcome : FactoryOutcome) (p : OracleSessionPool)
    : Result ℕ → OracleSessionPool → Type 0 where
  reused :
      (session : ℕ) (rest : List ℕ)
      → p.idle ≡ session ∷ rest
      → Acquired outcome p (ok session) (record p { idle = rest })
  exhausted_pool :
      p.idle ≡ [] → p.live_sessions ≡ p.maximum_sessions → Acquired outcome p (err limit_exceeded) p
  opened :
      (session : ℕ)
      → p.idle ≡ []
      → p.live_sessions ≢ p.maximum_sessions
      → outcome ≡ made session
      → Acquired outcome p (ok session) (record p { live_sessions = p.live_sessions + 1 })
  not_opened :
      (e : ProtocolErrorKind) (q : OracleSessionPool)
      → q ≡ p
      → p.idle ≡ []
      → p.live_sessions ≢ p.maximum_sessions
      → (outcome ≡ threw e) ⊎ ((outcome ≡ made_null) × (e ≡ invalid_state))
      → Acquired outcome p (err e) q

place_lem :
    (p : OracleSessionPool)
    → ◌≡◌ {A = OracleSessionPool}
        (give_up_place (record p { live_sessions = p.live_sessions + 1 }))
        p
unfolding give_up_place
place_lem p = let e : p.live_sessions + 1 - 1 ≡ p.live_sessions = omega arith in rw e refl

-- The call on a pool without an idle session, by the test of its count.
acquire_empty-Acquired :
    (outcome : FactoryOutcome) (p : OracleSessionPool)
    → p.idle ≡ []
    → p.live_sessions ≢ p.maximum_sessions
    → Acquired outcome p
        (finish_open outcome (record p { live_sessions = p.live_sessions + 1 })).0
        (finish_open outcome (record p { live_sessions = p.live_sessions + 1 })).1
unfolding finish_open
acquire_empty-Acquired (made session) p e n = opened session e n refl
acquire_empty-Acquired made_null p e n =
    not_opened invalid_state _ (place_lem p) e n (inr (refl, refl))
acquire_empty-Acquired (threw k) p e n = not_opened k _ (place_lem p) e n (inl refl)

acquired_at :
    (outcome : FactoryOutcome) (p : OracleSessionPool) (out : Result ℕ × OracleSessionPool)
    → acquire outcome p ≡ out
    → Acquired outcome p out.0 out.1
    → Acquired outcome p (acquire outcome p).0 (acquire outcome p).1
acquired_at outcome p out e t = subst (λ x. Acquired outcome p x.0 x.1) (sym e) t

abbrev without_idle : ℕ → ℕ → OracleSessionPool
without_idle maximum live = record { maximum_sessions = maximum; live_sessions = live; idle = [] }

take_or_reserve_empty :
    (maximum live : ℕ)
    → take_or_reserve (without_idle maximum live) ≡ (
        if live == maximum
        then (err limit_exceeded, without_idle maximum live)
        else (ok none, without_idle maximum (live + 1)))
unfolding take_or_reserve
take_or_reserve_empty maximum live = refl

acquire-without_idle :
    (outcome : FactoryOutcome) (maximum live : ℕ)
    → acquire outcome (without_idle maximum live) ≡ (
        if live == maximum
        then (err limit_exceeded, without_idle maximum live)
        else finish_open outcome (without_idle maximum (live + 1)))
unfolding acquire
acquire-without_idle outcome maximum live = elim (Bool-cases (live == maximum)) [
  | inl full ↦ rw (take_or_reserve_empty maximum live, full) refl
  | inr room ↦ rw (take_or_reserve_empty maximum live, room) refl
]

acquire_fields-Acquired :
    (outcome : FactoryOutcome) (maximum live : ℕ) (idle : List ℕ)
    → let p : OracleSessionPool = record {
      maximum_sessions = maximum;
      live_sessions = live;
      idle = idle;
    } in
      Acquired outcome p (acquire outcome p).0 (acquire outcome p).1
unfolding acquire take_or_reserve
acquire_fields-Acquired outcome maximum live (session ∷ rest) = reused session rest refl
acquire_fields-Acquired outcome maximum live [] = elim (Bool-cases (live == maximum)) [
  | inl full ↦
      acquired_at outcome (without_idle maximum live)
        (err limit_exceeded, without_idle maximum live)
        (acquire-without_idle outcome maximum live ∙ rw full refl)
        (exhausted_pool refl (ground arith))
  | inr room ↦
      acquired_at outcome (without_idle maximum live)
        (finish_open outcome (without_idle maximum (live + 1)))
        (acquire-without_idle outcome maximum live ∙ rw room refl)
        (acquire_empty-Acquired outcome (without_idle maximum live) refl (ground arith))
]

-- `Acquire` hands out the session that was given back last, or refuses with LIMIT_EXCEEDED when no
-- session is idle and the count is at its maximum, or returns the factory's session and counts it; when
-- the factory throws, or returns null, the call throws and the pool is as it was.
pub acquire-Acquired :
    (outcome : FactoryOutcome) (p : OracleSessionPool)
    → Acquired outcome p (acquire outcome p).0 (acquire outcome p).1
acquire-Acquired outcome p =
    acquire_fields-Acquired outcome p.maximum_sessions p.live_sessions p.idle

-- A lease gives its session to the pool at most once: after `Release`, after a move away, and after
-- the assignment of another lease, a second release changes no pool, and what the assigned lease then
-- gives back is the session of the other one.
pub release_lease_once :
    (l other : OracleSessionLease) (p q : OracleSessionPool)
    → (release_lease (release_lease l p).0 q).1 ≡ q
      × (release_lease (move_lease l).1 q).1 ≡ q
      × (let (target, left, after) = assign_lease false l other p in
          (after ≡ (release_lease l p).1)
          × (release_lease target q ≡ release_lease other q)
          × ((release_lease left q).1 ≡ q))
unfolding release_lease move_lease assign_lease
release_lease_once l other p q = (
  elim (Bool-cases l.has_pool) [
    | inl e ↦ rw (e, release_lease) refl
    | inr e ↦ rw (e, release_lease) refl
  ],
  refl,
  (refl, refl, refl),
)

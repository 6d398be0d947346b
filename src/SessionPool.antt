-- ===== src/SessionPool.antt =====
-- src/session_pool.cpp: sessions leased from a pool of bounded size. A session is a number. The vector
-- `idle` stands here with its back first, since the source pushes to and pops from the back. Each
-- locked section is a function of its own; the calls between them (the factory, `Close` of a session)
-- run outside the lock, so other threads may run sections in between.
pub mod Threads
pub mod Sequential
mod Tests
use quack_oracle.Base.{
  ℕ, zero, suc, ◌+◌, ◌-◌, Bool, true, false, Option, none, some, List, [], ◌∷◌, ◌==◌, if◌then◌else◌,
  length, Result, ok, err, stuck, ProtocolErrorKind, malformed, invalid_state, limit_exceeded,
}

pub record OracleSessionPool : Type 0 where
  pub maximum_sessions : ℕ
  pub live_sessions : ℕ
  pub idle : List ℕ

-- The constructor, and whether its factory is set.
unfoldable pub new_pool : ℕ → Bool → Result OracleSessionPool
new_pool maximum has_factory =
    if maximum == 0
    then err malformed
    else if has_factory
    then ok (record { maximum_sessions = maximum; live_sessions = 0; idle = [] })
    else err malformed

-- The first locked section of `Acquire`: an idle session, or a place for a new one, or
-- `OracleSessionPoolExhausted`, whose kind is LIMIT_EXCEEDED.
unfoldable pub take_or_reserve : OracleSessionPool → Result (Option ℕ) × OracleSessionPool
take_or_reserve p = elim p.idle [
  | session ∷ rest ↦ (ok (some session), record p { idle = rest })
  | [] ↦
      if p.live_sessions == p.maximum_sessions
      then (err limit_exceeded, p)
      else (ok none, record p { live_sessions = p.live_sessions + 1 })
]

-- What the factory did: it returned a session or null, or it threw.
pub data FactoryOutcome : Type 0 where
  made : ℕ → FactoryOutcome
  made_null : FactoryOutcome
  threw : ProtocolErrorKind → FactoryOutcome

-- `live_sessions--`
unfoldable pub give_up_place : OracleSessionPool → OracleSessionPool
give_up_place p = record p { live_sessions = p.live_sessions - 1 }

-- What `Acquire` does after the factory.
unfoldable pub finish_open : FactoryOutcome → OracleSessionPool → Result ℕ × OracleSessionPool
unfolding give_up_place
finish_open (made session) p = (ok session, p)
finish_open made_null p = (err invalid_state, give_up_place p)
finish_open (threw e) p = (err e, give_up_place p)

unfoldable pub after_take :
    FactoryOutcome → Result (Option ℕ) × OracleSessionPool → Result ℕ × OracleSessionPool
after_take outcome (ok (some session), p) = (ok session, p)
after_take outcome (ok none, p) = finish_open outcome p
after_take outcome (err e, p) = (err e, p)
after_take outcome (stuck, p) = (stuck, p)

-- `Acquire` with no other thread in between.
unfoldable pub acquire : FactoryOutcome → OracleSessionPool → Result ℕ × OracleSessionPool
unfolding after_take
acquire outcome p = after_take outcome (take_or_reserve p)

-- The locked section of `Release`. A poisoned session is closed before it.
unfoldable pub release : Option ℕ → Bool → OracleSessionPool → OracleSessionPool
unfolding give_up_place
release none poisoned p = p
release (some session) true p = give_up_place p
release (some session) false p = record p { idle = session ∷ p.idle }

-- The destructor: the sessions that it closes, and the pool behind them.
unfoldable pub destroy : OracleSessionPool → List ℕ × OracleSessionPool
destroy p = (p.idle, record p { idle = []; live_sessions = p.live_sessions - length p.idle })

pub record OracleSessionLease : Type 0 where
  pub has_pool : Bool
  pub session : Option ℕ
  pub poisoned : Bool

abbrev pub empty_lease : OracleSessionLease
empty_lease = record { has_pool = false; session = none; poisoned = false }

unfoldable pub get_session : OracleSessionLease → Result ℕ
get_session l = elim l.session [ none ↦ err invalid_state | some s ↦ ok s ]

unfoldable pub poison : OracleSessionLease → OracleSessionLease
poison l = record l { poisoned = true }

-- `OracleSessionLease::Release` through the pool that the lease points to. The session moves to the
-- pool; without a pool it stays in the lease.
unfoldable pub release_lease :
    OracleSessionLease → OracleSessionPool → OracleSessionLease × OracleSessionPool
unfolding release
release_lease l p =
    if l.has_pool
    then (
      record { has_pool = false; session = none; poisoned = false },
      release l.session l.poisoned p,
    )
    else (record l { has_pool = false; poisoned = false }, p)

-- The move constructor: the new lease, and what is left of the old one.
unfoldable pub move_lease : OracleSessionLease → OracleSessionLease × OracleSessionLease
move_lease other = (other, empty_lease)

-- Move assignment between two leases of one pool; `same` is self-assignment.
unfoldable pub assign_lease :
    Bool
    → OracleSessionLease
    → OracleSessionLease
    → OracleSessionPool
    → OracleSessionLease × OracleSessionLease × OracleSessionPool
unfolding release_lease
assign_lease true target other p = (target, other, p)
assign_lease false target other p = (let (l, q) = release_lease target p in (other, empty_lease, q))

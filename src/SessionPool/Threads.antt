-- ===== src/SessionPool/Threads.antt =====
-- Any number of threads on one pool of src/session_pool.cpp: every interleaving of the locked sections
-- of `Acquire` and `Release` with the factory calls and session closes between them.
use quack_oracle.Base.{
  ℕ, ◌+◌, ◌-◌, ◌≤◌, ◌<◌, ◌≡◌, ◌≢◌, refl, true, false, none, some, List, ◌∷◌, length, ok, err,
  ProtocolErrorKind, arith,
}
use quack_oracle.Base.Counts.{count, remove, length-remove, count-remove}
use quack_oracle.SessionPool.{
  OracleSessionPool, take_or_reserve, FactoryOutcome, made, made_null, threw, finish_open, release,
}

-- `opening` threads stand between a reservation and the end of their factory call, `leased` are the
-- sessions that callers hold, and `closing` threads close a poisoned session that is still counted.
pub record World : Type 0 where
  pub pool : OracleSessionPool
  pub opening : ℕ
  pub leased : List ℕ
  pub closing : ℕ

pub data Step (w : World) : World → Type 0 where
  -- The first section of `Acquire` hands an idle session over.
  takes :
      (session : ℕ) (p : OracleSessionPool)
      → take_or_reserve w.pool ≡ (ok (some session), p)
      → Step w (record w { pool = p; leased = session ∷ w.leased })
  -- It reserves a place.
  reserves :
      (p : OracleSessionPool)
      → take_or_reserve w.pool ≡ (ok none, p)
      → Step w (record w { pool = p; opening = w.opening + 1 })
  -- It finds the pool exhausted.
  refuses :
      (e : ProtocolErrorKind) (p : OracleSessionPool)
      → take_or_reserve w.pool ≡ (err e, p)
      → Step w (record w { pool = p })
  -- A factory call ends with a session that nobody has yet.
  opens :
      (session : ℕ)
      → 0 < w.opening
      → count session w.pool.idle ≡ 0
      → count session w.leased ≡ 0
      → Step w (record w {
        pool = (finish_open (made session) w.pool).1;
        opening = w.opening - 1;
        leased = session ∷ w.leased;
      })
  -- A factory call ends without one.
  fails :
      (outcome : FactoryOutcome)
      → 0 < w.opening
      → ((session : ℕ) → outcome ≢ made session)
      → Step w (record w { pool = (finish_open outcome w.pool).1; opening = w.opening - 1 })
  -- A lease ends and its session goes back.
  returns :
      (session : ℕ)
      → 0 < count session w.leased
      → Step w (record w {
        pool = release (some session) false w.pool;
        leased = remove session w.leased;
      })
  -- A poisoned lease ends: the session is closed first.
  starts_close :
      (session : ℕ)
      → 0 < count session w.leased
      → Step w (record w { leased = remove session w.leased; closing = w.closing + 1 })
  -- Then its place is given up.
  ends_close :
      (session : ℕ)
      → 0 < w.closing
      → Step w (record w { pool = release (some session) true w.pool; closing = w.closing - 1 })

pub data Reach (w : World) : World → Type 0 where
  here : Reach w w
  next : {u v : World} → Reach w u → Step u v → Reach w v

-- Every place that the pool counts is an idle session, a leased one, or one being opened or closed.
pub record Accounted (w : World) : Type 0 where
  pub total : w.pool.live_sessions ≡ length w.pool.idle + length w.leased + w.opening + w.closing
  pub bounded : w.pool.live_sessions ≤ w.pool.maximum_sessions

Step-Accounted : {w v : World} → Step w v → Accounted w → Accounted v
unfolding take_or_reserve finish_open release
Step-Accounted (takes session p e) a = ground arith
Step-Accounted (reserves p e) a = ground arith
Step-Accounted (refuses e p q) a = ground arith
Step-Accounted (opens session h i l) a = ground arith
Step-Accounted (fails (made s) h n) a = absurd (n s refl)
Step-Accounted (fails made_null h n) a = ground arith
Step-Accounted (fails (threw e) h n) a = ground arith
Step-Accounted {w} (returns session h) a = ground (arith, length-remove session w.leased h)
Step-Accounted {w} (starts_close session h) a = ground (arith, length-remove session w.leased h)
Step-Accounted (ends_close session h) a = ground arith

Step-maximum : {w v : World} → Step w v → v.pool.maximum_sessions ≡ w.pool.maximum_sessions
unfolding take_or_reserve finish_open release
Step-maximum (takes session p e) = ground arith
Step-maximum (reserves p e) = ground arith
Step-maximum (refuses e p q) = ground arith
Step-maximum (opens session h i l) = refl
Step-maximum (fails (made s) h n) = absurd (n s refl)
Step-maximum (fails made_null h n) = refl
Step-maximum (fails (threw e) h n) = refl
Step-maximum (returns session h) = refl
Step-maximum (starts_close session h) = refl
Step-maximum (ends_close session h) = refl

Reach-maximum : {w v : World} → Reach w v → v.pool.maximum_sessions ≡ w.pool.maximum_sessions
Reach-maximum here = refl
Reach-maximum (next r s) = omega (arith, Step-maximum s, Reach-maximum r)

Reach_step-Accounted : {w v : World} → Reach w v → Accounted w → Accounted v
Reach_step-Accounted here a = a
Reach_step-Accounted (next r s) a = Step-Accounted s (Reach_step-Accounted r a)

-- From a pool whose live count is the number of its sessions that are idle, leased, being opened or
-- being closed, and at most its maximum, every interleaving keeps both, and the sum of the four is at
-- most the maximum that the pool began with.
pub Reach-Accounted :
    {w v : World}
    → Reach w v
    → Accounted w
    → Accounted v
      × (length v.pool.idle + length v.leased + v.opening + v.closing ≤ w.pool.maximum_sessions)
Reach-Accounted r a =
    let c = Reach_step-Accounted r a in (c, omega (arith, c.total, c.bounded, Reach-maximum r))

-- Where a session is.
abbrev pub Single : ℕ → World → Type 0
Single s w = count s w.pool.idle + count s w.leased ≤ 1

Step-Single : {w v : World} (s : ℕ) → Step w v → Single s w → Single s v
unfolding take_or_reserve finish_open release count
Step-Single s (takes session p e) h = ground arith
Step-Single s (reserves p e) h = ground arith
Step-Single s (refuses e p q) h = ground arith
Step-Single s (opens session o i l) h = ground arith
Step-Single s (fails (made t) o n) h = absurd (n t refl)
Step-Single s (fails made_null o n) h = h
Step-Single s (fails (threw e) o n) h = h
Step-Single {w} s (returns session o) h = ground (arith, count-remove session s w.leased o)
Step-Single {w} s (starts_close session o) h = ground (arith, count-remove session s w.leased o)
Step-Single s (ends_close session o) h = h

-- A session that is at most once idle or leased stays so under any interleaving: it is never leased
-- twice, or idle while it is leased.
pub Reach-Single : {w v : World} (s : ℕ) → Reach w v → Single s w → Single s v
Reach-Single s here h = h
Reach-Single s (next r t) h = Step-Single s t (Reach-Single s r h)

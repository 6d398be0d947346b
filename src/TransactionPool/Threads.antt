-- ===== src/TransactionPool/Threads.antt =====
-- Any number of threads on one pool of src/transaction_session_pool.cpp: every interleaving of the locked
-- sections of its methods with the probes, opens and closes between them.
use quack_oracle.Base.{
  ℕ, ◌+◌, ◌≤◌, ◌<◌, ◌≡◌, refl, sym, ◌∙◌, Bool, true, some, List, ◌∷◌, length, arith,
}
use quack_oracle.Base.Counts.{count, remove, length-remove, count-remove}
use quack_oracle.TransactionPool.{
  TransactionPool, sessions, take_expired, take_candidate, count_reused, count_dropped,
  count_opened, keep_or_close, release, discard, close,
}
use quack_oracle.TransactionPool.Expiry.{
  length-expired_kept, count-expired_kept, listed_onto, length-listed_onto, count-listed_onto,
  take_candidate-Taken,
}

-- `probing` are the candidates of the threads between two sections of `Acquire`, and those that a
-- throw left there, `leased` the sessions of the transactions.
pub record World : Type 0 where
  pub pool : TransactionPool
  pub probing : List ℕ
  pub leased : List ℕ

pub data Step (w : World) : World → Type 0 where
  -- A round of `Acquire` takes what it finds.
  takes :
      (now : ℕ)
      → Step w (record w {
        pool = (take_candidate now w.pool).2;
        probing = listed_onto (take_candidate now w.pool).1 w.probing;
      })
  reuses :
      (session : ℕ)
      → 0 < count session w.probing
      → Step w (record {
        pool = count_reused w.pool;
        probing = remove session w.probing;
        leased = session ∷ w.leased;
      })
  drops :
      (session : ℕ)
      → 0 < count session w.probing
      → Step w (record w { pool = count_dropped w.pool; probing = remove session w.probing })
  -- The opener returned a session that nobody has yet.
  opens :
      (session : ℕ)
      → count session (sessions w.pool.idle) ≡ 0
      → count session w.probing ≡ 0
      → count session w.leased ≡ 0
      → Step w (record w { pool = count_opened w.pool; leased = session ∷ w.leased })
  releases :
      (session : ℕ) (clean : Bool) (now later : ℕ)
      → 0 < count session w.leased
      → Step w (record w {
        pool = (release (some session) clean now later w.pool).2;
        leased = remove session w.leased;
      })
  discards :
      (session : ℕ)
      → 0 < count session w.leased
      → Step w
          (record w { pool = (discard (some session) w.pool).1; leased = remove session w.leased })
  closes : Step w (record w { pool = (close w.pool).1 })

pub data Reach (w : World) : World → Type 0 where
  here : Reach w w
  next : {u v : World} → Reach w u → Step u v → Reach w v

-- The counters tell the truth, the idle sessions are within the limit, and a closed pool has none.
pub record Truthful (w : World) : Type 0 where
  pub idle : w.pool.counters.idle ≡ length w.pool.idle
  pub leased : w.pool.counters.leased ≡ length w.leased
  pub opened :
      w.pool.counters.opened
      ≡ length w.pool.idle + length w.probing + length w.leased + w.pool.counters.closed
  pub bounded : length w.pool.idle ≤ w.pool.maximum_idle
  pub none_idle : w.pool.is_closed ≡ true → length w.pool.idle ≡ 0

Step-Truthful : {w v : World} → Step w v → Truthful w → Truthful v
unfolding count_reused count_dropped count_opened keep_or_close release discard close take_expired
Step-Truthful {w} (takes now) a =
    let t = take_candidate-Taken now w.pool in
    record {
      idle = t.idle;
      leased = omega (arith, t.leased, a.leased);
      opened = omega (
        arith,
        t.opened,
        t.closed,
        t.total,
        a.opened,
        length-listed_onto (take_candidate now w.pool).1 w.probing,
      );
      bounded = omega (arith, t.total, t.maximum_idle, a.bounded);
      none_idle = λ h. omega (arith, t.total, a.none_idle (sym t.is_closed ∙ h));
    }
Step-Truthful {w} (reuses session h) a =
    ground
      (arith, a.idle, a.leased, a.opened, a.bounded, a.none_idle, length-remove session w.probing h)
Step-Truthful {w} (drops session h) a =
    ground
      (arith, a.idle, a.leased, a.opened, a.bounded, a.none_idle, length-remove session w.probing h)
Step-Truthful {w} (opens session i p l) a =
    ground (arith, a.idle, a.leased, a.opened, a.bounded, a.none_idle)
Step-Truthful {w} (releases session clean now later h) a = ground (
  arith,
  a.idle,
  a.leased,
  a.opened,
  a.bounded,
  a.none_idle,
  length-remove session w.leased h,
  length-expired_kept now w.pool.maximum_idle_time w.pool.idle,
)
Step-Truthful {w} (discards session h) a =
    ground
      (arith, a.idle, a.leased, a.opened, a.bounded, a.none_idle, length-remove session w.leased h)
Step-Truthful {w} (closes) a = ground (arith, a.idle, a.leased, a.opened, a.bounded, a.none_idle)

-- From a pool whose counters tell the truth, every interleaving keeps them so: `idle` and `leased` are
-- the sessions in those places, `opened` is all sessions that are idle, probed, leased or closed, the
-- idle ones are within the limit, and a closed pool has none.
pub Reach-Truthful : {w v : World} → Reach w v → Truthful w → Truthful v
Reach-Truthful here a = a
Reach-Truthful (next r s) a = Step-Truthful s (Reach-Truthful r a)

-- How often a session is idle, probed or leased.
abbrev pub places : ℕ → World → ℕ
places s w = count s (sessions w.pool.idle) + count s w.probing + count s w.leased

Step-places : {w v : World} (s : ℕ) → Step w v → places s w ≤ 1 → places s v ≤ 1
unfolding count_reused count_dropped count_opened keep_or_close release discard close take_expired
    count
Step-places {w} s (takes now) h = omega (
  arith,
  (take_candidate-Taken now w.pool).each s,
  count-listed_onto s (take_candidate now w.pool).1 w.probing,
)
Step-places {w} s (reuses session o) h = ground (arith, count-remove session s w.probing o)
Step-places {w} s (drops session o) h = ground (arith, count-remove session s w.probing o)
Step-places {w} s (opens session i p l) h = ground arith
Step-places {w} s (releases session clean now later o) h = ground (
  arith,
  count-remove session s w.leased o,
  count-expired_kept now w.pool.maximum_idle_time s w.pool.idle,
)
Step-places {w} s (discards session o) h = ground (arith, count-remove session s w.leased o)
Step-places {w} s (closes) h = ground arith

-- Under any interleaving a session is in one place at most: it is never with two transactions, nor
-- idle while one has it.
pub Reach-places : {w v : World} (s : ℕ) → Reach w v → places s w ≤ 1 → places s v ≤ 1
Reach-places s here h = h
Reach-places s (next r t) h = Step-places s t (Reach-places s r h)

Step-is_closed : {w v : World} → Step w v → w.pool.is_closed ≡ true → v.pool.is_closed ≡ true
unfolding count_reused count_dropped count_opened keep_or_close release discard close take_expired
Step-is_closed {w} (takes now) h = (take_candidate-Taken now w.pool).is_closed ∙ h
Step-is_closed (reuses session o) h = h
Step-is_closed (drops session o) h = h
Step-is_closed (opens session i p l) h = h
Step-is_closed {w} (releases session clean now later o) h = ground arith
Step-is_closed (discards session o) h = h
Step-is_closed (closes) h = refl

Reach-is_closed : {w v : World} → Reach w v → w.pool.is_closed ≡ true → v.pool.is_closed ≡ true
Reach-is_closed here h = h
Reach-is_closed (next r s) h = Step-is_closed s (Reach-is_closed r h)

-- After `Close`, whatever the threads do, no session is ever idle in the pool again.
pub close-never_idle :
    {w v : World}
    → Truthful w
    → Reach (record w { pool = (close w.pool).1 }) v
    → length v.pool.idle ≡ 0
unfolding close
close-never_idle a r =
    (Reach-Truthful r (Step-Truthful closes a)).none_idle (Reach-is_closed r refl)

-- ===== src/TransactionPool/Tests.antt =====
-- A pool of two idle sessions, and the theorems about the transaction pool at it.
use quack_oracle.Base.{
  ℕ, zero, suc, truncated, ◌+◌, ◌≤◌, ◌<◌, ◌≡◌, refl, true, false, not, ◌↔◌, some, [], ◌∷◌, ◌==◌,
  if◌then◌else◌, length, arith, ok, err, invalid_state,
}
use quack_oracle.Base.Counts.{count, remove}
use quack_oracle.SessionPool.{made}
use quack_oracle.TransactionPool.{
  TransactionPool, Counters, Surroundings, yes, throws, is_usable, sessions, new_pool,
  expired_sessions, kept_entries, take_expired, pop_back, take_candidate, count_reused,
  count_dropped, count_opened, open_fresh, acquire_loop, acquire, is_clean, keep_or_close, release,
  discard, close,
}
use quack_oracle.TransactionPool.Threads.{
  World, Step, opens, releases, Reach, here, next, Truthful, Reach-Truthful, places, Reach-places,
  close-never_idle,
}
use quack_oracle.TransactionPool.Release.{release-Released}

open_pool : ℕ
unfolding new_pool expired_sessions kept_entries take_expired pop_back take_candidate count_reused
    count_dropped count_opened open_fresh is_usable acquire_loop acquire is_clean keep_or_close
    release discard close count remove
open_pool = 0

abbrev no_counts : Counters
no_counts = record {
  opened = 0;
  reused = 0;
  returned = 0;
  closed = 0;
  probe_failures = 0;
  idle = 0;
  leased = 0;
}

abbrev empty_pool : TransactionPool
empty_pool = record {
  maximum_idle = 2;
  maximum_idle_time = 300;
  is_closed = false;
  idle = [];
  counters = no_counts;
}

abbrev full_pool : TransactionPool
full_pool = record empty_pool {
  idle = (record { session = 5; since = 900 }) ∷ (record { session = 4; since = 400 }) ∷ [];
  counters = record no_counts { opened = 2; idle = 2 };
}

-- The session 5 does not answer, and the session 4 has waited for too long.
abbrev around : Surroundings
around = record {
  clock = λ round. 1000 + round;
  others = λ round p. p;
  binds = λ s. yes;
  answers_probe = λ s. not (s == 5);
  ready = λ s. yes;
}

-- Another thread returns the session 9 during the first round.
abbrev returning : ℕ → TransactionPool → TransactionPool
returning zero p = record p { idle = (record { session = 9; since = 1000 }) ∷ p.idle }
returning (suc round) p = p

abbrev returned : ℕ → ℕ
returned zero = 1
returned (suc round) = 0

abbrev takes_none : ℕ → ℕ → ℕ
takes_none x round = 0

abbrev gives_9 : ℕ → ℕ → ℕ
gives_9 x zero = count x (9 ∷ [])
gives_9 x (suc round) = 0

abbrev shared : Surroundings
shared = record around { others = returning }

reused_9 : (acquire shared (made 6) 4 full_pool).0 ≡ ok 9
unfolding open_pool
reused_9 = refl

broken :
    (acquire (record around { binds = λ s. throws truncated }) (made 6) 4 full_pool).0
    ≡ err truncated
unfolding open_pool
broken = refl

acquired : acquire around (made 6) 3 full_pool ≡ (
  ok 6,
  5 ∷ 4 ∷ [],
  record empty_pool {
    counters = record {
      opened = 3;
      reused = 0;
      returned = 0;
      closed = 2;
      probe_failures = 1;
      idle = 0;
      leased = 1;
    };
  },
)
unfolding open_pool
acquired = refl

no_opener : new_pool 2 300 false ≡ err invalid_state
unfolding open_pool
no_opener = refl

release-Released_example :
    let (kept, closes, q) = release (some 6) true 1000 1001 full_pool in
    let left = kept_entries 1000 300 full_pool.idle in
    ((kept ≡ true)
      ↔ ((true ≡ true) × (full_pool.is_closed ≡ false) × (length left < full_pool.maximum_idle)))
    × (q.idle ≡ (if kept then (record { session = 6; since = 1001 }) ∷ left else left))
    × ((x : ℕ)
        → count x (sessions q.idle) + count x closes
          ≡ count x (sessions full_pool.idle) + count x (6 ∷ []))
release-Released_example = release-Released 6 true 1000 1001 full_pool

kept_6 : (release (some 6) true 1000 1001 full_pool).0 ≡ true
unfolding open_pool
kept_6 = refl

candidate_5 : (take_candidate 1000 full_pool).1 ≡ some 5
unfolding open_pool
candidate_5 = refl

abbrev start : World
start = record { pool = empty_pool; probing = []; leased = [] }

start-Truthful : Truthful start
start-Truthful = record {
  idle = refl;
  leased = refl;
  opened = refl;
  bounded = omega arith;
  none_idle = λ e. refl;
}

abbrev opened_world : World
opened_world = record { pool = count_opened empty_pool; probing = []; leased = 7 ∷ [] }

first-Step : Step start opened_world
unfolding open_pool
first-Step = opens 7 refl refl refl

abbrev returned_world : World
returned_world = record {
  pool = (release (some 7) true 10 10 (count_opened empty_pool)).2;
  probing = [];
  leased = [];
}

second-Step : Step opened_world returned_world
unfolding open_pool
second-Step = releases 7 true 10 10 (omega arith)

abbrev schedule : Reach start returned_world
schedule = next (next here first-Step) second-Step

Reach-Truthful_example : Truthful returned_world
Reach-Truthful_example = Reach-Truthful schedule start-Truthful

start-places : places 7 start ≤ 1
unfolding open_pool
start-places = omega arith

Reach-places_example : places 7 returned_world ≤ 1
Reach-places_example = Reach-places 7 schedule start-places

close-never_idle_example : length (close empty_pool).1.idle ≡ 0
close-never_idle_example = close-never_idle start-Truthful here

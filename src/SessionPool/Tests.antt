-- ===== src/SessionPool/Tests.antt =====
-- A pool of two sessions, and the theorems about the pool at it.
use quack_oracle.Base.{
  ℕ, ◌≤◌, ◌≡◌, refl, true, false, some, [], ◌∷◌, arith, err, malformed, invalid_state,
  limit_exceeded,
}
use quack_oracle.Base.Counts.{count, remove}
use quack_oracle.SessionPool.{
  OracleSessionPool, new_pool, take_or_reserve, made, made_null, give_up_place, finish_open,
  acquire, release, destroy, OracleSessionLease, get_session, release_lease, move_lease,
  assign_lease,
}
use quack_oracle.SessionPool.Threads.{
  World, Step, reserves, opens, returns, Reach, here, next, Accounted, Reach-Accounted, Single,
}

open_pool : ℕ
unfolding new_pool take_or_reserve give_up_place finish_open acquire release destroy get_session
    release_lease move_lease assign_lease count remove
open_pool = 0

abbrev empty_pool : OracleSessionPool
empty_pool = record { maximum_sessions = 2; live_sessions = 0; idle = [] }

abbrev idle_pool : OracleSessionPool
idle_pool = record { maximum_sessions = 2; live_sessions = 2; idle = 8 ∷ 7 ∷ [] }

no_places : new_pool 0 true ≡ err malformed
unfolding open_pool
no_places = refl

null_factory : acquire made_null empty_pool ≡ (err invalid_state, empty_pool)
unfolding open_pool
null_factory = refl

full_pool : (acquire (made 3) (record idle_pool { idle = [] })).0 ≡ err limit_exceeded
unfolding open_pool
full_pool = refl

destroyed : destroy idle_pool ≡ (8 ∷ 7 ∷ [], record idle_pool { idle = []; live_sessions = 0 })
unfolding open_pool
destroyed = refl

abbrev lease_7 : OracleSessionLease
lease_7 = record { has_pool = true; session = some 7; poisoned = false }

abbrev lease_8 : OracleSessionLease
lease_8 = record { has_pool = true; session = some 8; poisoned = true }

abbrev leased_pool : OracleSessionPool
leased_pool = record { maximum_sessions = 2; live_sessions = 2; idle = [] }

abbrev start : World
start = record { pool = empty_pool; opening = 0; leased = []; closing = 0 }

abbrev one_place : OracleSessionPool
one_place = record { maximum_sessions = 2; live_sessions = 1; idle = [] }

abbrev opening_world : World
opening_world = record { pool = one_place; opening = 1; leased = []; closing = 0 }

abbrev leased_world : World
leased_world = record { pool = one_place; opening = 0; leased = 7 ∷ []; closing = 0 }

abbrev idle_world : World
idle_world = record {
  pool = record one_place { idle = 7 ∷ [] };
  opening = 0;
  leased = [];
  closing = 0;
}

first-Step : Step start opening_world
unfolding open_pool
first-Step = reserves one_place refl

second-Step : Step opening_world leased_world
unfolding open_pool
second-Step = opens 7 (omega arith) refl refl

third-Step : Step leased_world idle_world
unfolding open_pool
third-Step = returns 7 (omega arith)

abbrev schedule : Reach start idle_world
schedule = next (next (next here first-Step) second-Step) third-Step

Reach-Accounted_example : Accounted idle_world × (1 ≤ 2)
Reach-Accounted_example = Reach-Accounted schedule (record { total = refl; bounded = omega arith })

start-Single : Single 7 start
unfolding open_pool
start-Single = omega arith

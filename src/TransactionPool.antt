-- ===== src/TransactionPool.antt =====
-- src/transaction_session_pool.cpp: sessions kept idle between the transactions of one catalog. A
-- session is a number and a time a count of clock ticks. The vector `idle` stands here with its back
-- first. Each locked section is a function of its own, since the probe, the opener and the closes run
-- outside the lock. What a session answers is a parameter. A list of closed sessions has the last one
-- first.
pub mod Expiry
pub mod Threads
pub mod Acquire
pub mod Release
mod Tests
use quack_oracle.Base.{
  ℕ, zero, suc, ◌+◌, ◌-◌, Bool, true, false, not, ◌&&◌, Option, none, some, List, [], ◌∷◌, ◌++◌,
  ltb, if◌then◌else◌, length, map, Result, ok, err, stuck, ProtocolErrorKind, invalid_state,
}
use quack_oracle.SessionPool.{FactoryOutcome, made, made_null, threw}

pub record Idle : Type 0 where
  pub session : ℕ
  pub since : ℕ

pub record Counters : Type 0 where
  pub opened : ℕ
  pub reused : ℕ
  pub returned : ℕ
  pub closed : ℕ
  pub probe_failures : ℕ
  pub idle : ℕ
  pub leased : ℕ

pub record TransactionPool : Type 0 where
  pub maximum_idle : ℕ
  pub maximum_idle_time : ℕ
  pub is_closed : Bool
  pub idle : List Idle
  pub counters : Counters

-- The constructor; `callable` says whether opener, probe and clock are all set.
unfoldable pub new_pool : ℕ → ℕ → Bool → Result TransactionPool
new_pool maximum_idle maximum_idle_time callable =
    if callable
    then ok (record {
      maximum_idle = maximum_idle;
      maximum_idle_time = maximum_idle_time;
      is_closed = false;
      idle = [];
      counters = record {
        opened = 0;
        reused = 0;
        returned = 0;
        closed = 0;
        probe_failures = 0;
        idle = 0;
        leased = 0;
      };
    })
    else err invalid_state

-- `now - entry->since > maximum_idle_time`
abbrev pub is_expired : ℕ → ℕ → Idle → Bool
is_expired now limit entry = ltb limit (now - entry.since)

abbrev pub sessions : List Idle → List ℕ
sessions [] = []
sessions (entry ∷ rest) = entry.session ∷ sessions rest

-- The sessions that leave and the entries that stay.
unfoldable pub expired_sessions : ℕ → ℕ → List Idle → List ℕ
expired_sessions now limit [] = []
expired_sessions now limit (entry ∷ rest) =
    let others = expired_sessions now limit rest in
    if is_expired now limit entry then entry.session ∷ others else others

unfoldable pub kept_entries : ℕ → ℕ → List Idle → List Idle
kept_entries now limit [] = []
kept_entries now limit (entry ∷ rest) =
    let others = kept_entries now limit rest in
    if is_expired now limit entry then others else entry ∷ others

-- `TakeExpiredLocked` at the time `now`.
unfoldable pub take_expired : ℕ → TransactionPool → List ℕ × TransactionPool
take_expired now p =
    let gone = expired_sessions now p.maximum_idle_time p.idle in
    let kept = kept_entries now p.maximum_idle_time p.idle in
    (
      gone,
      record p {
        idle = kept;
        counters = record p.counters {
          closed = p.counters.closed + length gone;
          idle = length kept;
        };
      },
    )

-- The entry at the back of the vector, if there is one.
unfoldable pub pop_back : TransactionPool → Option ℕ × TransactionPool
pop_back p = elim p.idle [
  | [] ↦ (none, p)
  | entry ∷ rest ↦ (
    some entry.session,
    record p { idle = rest; counters = record p.counters { idle = length rest } },
  )
]

-- The first locked section of a round of `Acquire`: the expired sessions, and the candidate.
unfoldable pub take_candidate : ℕ → TransactionPool → List ℕ × Option ℕ × TransactionPool
take_candidate now p =
    (let (gone, q) = take_expired now p in let (candidate, r) = pop_back q in (gone, candidate, r))

unfoldable pub count_reused : TransactionPool → TransactionPool
count_reused p = record p {
  counters = record p.counters { reused = p.counters.reused + 1; leased = p.counters.leased + 1 };
}

unfoldable pub count_dropped : TransactionPool → TransactionPool
count_dropped p = record p {
  counters = record p.counters {
    probe_failures = p.counters.probe_failures + 1;
    closed = p.counters.closed + 1;
  };
}

unfoldable pub count_opened : TransactionPool → TransactionPool
count_opened p = record p {
  counters = record p.counters { opened = p.counters.opened + 1; leased = p.counters.leased + 1 };
}

-- What a session answers to a question, which may throw.
pub data Answer : Type 0 where
  yes no : Answer
  throws : ProtocolErrorKind → Answer

-- What is around the pool during one `Acquire`, by its rounds: the clock, and what the other threads
-- do to the pool while the round is outside its first locked section. For each session, whether it
-- takes the caller's deadline, or throws, whether it answers the probe, where a throw counts as no,
-- and whether it is ready then, or throws.
pub record Surroundings : Type 0 where
  pub clock : ℕ → ℕ
  pub others : ℕ → TransactionPool → TransactionPool
  pub binds : ℕ → Answer
  pub answers_probe : ℕ → Bool
  pub ready : ℕ → Answer

unfoldable pub is_usable : Surroundings → ℕ → Answer
is_usable s session = elim (s.binds session) [
  | yes ↦ elim (s.answers_probe session) [ true ↦ s.ready session | false ↦ no ]
  | no ↦ no
  | throws e ↦ throws e
]

-- `Acquire` behind its loop.
unfoldable pub open_fresh :
    FactoryOutcome → List ℕ → TransactionPool → Result ℕ × List ℕ × TransactionPool
unfolding count_opened
open_fresh (made session) closes p = (ok session, closes, count_opened p)
open_fresh made_null closes p = (err invalid_state, closes, p)
open_fresh (threw e) closes p = (err e, closes, p)

-- The loop of `Acquire`. `closes` are the sessions closed so far. A candidate that throws is neither
-- closed nor counted.
unfoldable pub acquire_loop :
    Surroundings
    → FactoryOutcome
    → ℕ
    → ℕ
    → List ℕ
    → TransactionPool
    → Result ℕ × List ℕ × TransactionPool
acquire_loop s opener round zero closes p = (stuck, closes, p)
acquire_loop s opener round (suc fuel) closes p =
    (let (gone, candidate, taken) = take_candidate (s.clock round) p in
      let q = s.others round taken in
      elim candidate [
        | none ↦ open_fresh opener (gone ++ closes) q
        | some session ↦ elim (is_usable s session) [
          | yes ↦ (ok session, gone ++ closes, count_reused q)
          | no ↦ acquire_loop s opener (round + 1) fuel (session ∷ gone ++ closes) (count_dropped q)
          | throws e ↦ (err e, gone ++ closes, q)
        ]
      ])

-- `Acquire` with a number of rounds that it may take.
unfoldable pub acquire :
    Surroundings → FactoryOutcome → ℕ → TransactionPool → Result ℕ × List ℕ × TransactionPool
unfolding acquire_loop
acquire s opener rounds p = acquire_loop s opener 0 rounds [] p

-- `Release` asks the session, before it locks, whether it is clean: that it has no other holder, is
-- ready, and lets go of its deadline. A throw counts as no.
unfoldable pub is_clean : Bool → Result Bool → Result Bool → Bool
is_clean true (ok true) (ok true) = true
is_clean sole ready unbinds = false

abbrev pub end_lease : TransactionPool → TransactionPool
end_lease p = record p { counters = record p.counters { leased = p.counters.leased - 1 } }

abbrev pub count_closed : TransactionPool → TransactionPool
count_closed p = record p { counters = record p.counters { closed = p.counters.closed + 1 } }

-- The rest of the locked section of `Release`, at the time `later`.
unfoldable pub keep_or_close : ℕ → Bool → ℕ → TransactionPool → Bool × TransactionPool
keep_or_close session clean later p =
    if clean && not p.is_closed && ltb (length p.idle) p.maximum_idle
    then (
      true,
      record p {
        idle = (record { session = session; since = later }) ∷ p.idle;
        counters = record p.counters {
          returned = p.counters.returned + 1;
          idle = length p.idle + 1;
        };
      },
    )
    else (false, count_closed p)

-- Whether the session was kept, the sessions that are closed, and the pool.
unfoldable pub release : Option ℕ → Bool → ℕ → ℕ → TransactionPool → Bool × List ℕ × TransactionPool
release none clean now later p = (false, [], p)
release (some session) clean now later p =
    (let (gone, q) = take_expired now (end_lease p) in
      let (kept, r) = keep_or_close session clean later q in
      (kept, (if kept then gone else session ∷ gone), r))

unfoldable pub discard : Option ℕ → TransactionPool → List ℕ × TransactionPool
discard none p = ([], p)
discard (some session) p = (session ∷ [], count_closed (end_lease p))

unfoldable pub close : TransactionPool → List ℕ × TransactionPool
close p = (
  sessions p.idle,
  record p {
    is_closed = true;
    idle = [];
    counters = record p.counters { closed = p.counters.closed + length p.idle; idle = 0 };
  },
)

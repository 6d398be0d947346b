-- ===== src/TransactionPool/Expiry.antt =====
-- `TakeExpiredLocked` of src/transaction_session_pool.cpp: what leaves and what stays.
use quack_oracle.Base.{
  ℕ, ◌+◌, ◌-◌, ◌≤◌, ◌≡◌, refl, Bool, Option, none, some, List, [], ◌∷◌, All, length, arith,
}
use quack_oracle.Base.Counts.{count}
use quack_oracle.TransactionPool.{
  Idle, TransactionPool, Counters, sessions, expired_sessions, kept_entries, take_expired, pop_back,
  take_candidate,
}

module _ (now limit : ℕ) where
  pub length-expired_kept :
      (entries : List Idle)
      → length (expired_sessions now limit entries) + length (kept_entries now limit entries)
        ≡ length entries
  unfolding expired_sessions kept_entries
  length-expired_kept [] = omega arith
  length-expired_kept (e ∷ rest) = ground (arith, length-expired_kept rest)

  pub count-expired_kept :
      (x : ℕ) (entries : List Idle)
      → count x (expired_sessions now limit entries)
          + count x (sessions (kept_entries now limit entries))
        ≡ count x (sessions entries)
  unfolding expired_sessions kept_entries count
  count-expired_kept x [] = omega arith
  count-expired_kept x (e ∷ rest) = ground (arith, count-expired_kept x rest)

  -- Every entry that stays was idle for no longer than the limit.
  pub kept_entries-fresh :
      (entries : List Idle) → All (λ e. now - e.since ≤ limit) (kept_entries now limit entries)
  unfolding kept_entries
  kept_entries-fresh [] = tt
  kept_entries-fresh (e ∷ rest) = ground (arith, kept_entries-fresh rest)

pub length-sessions : (entries : List Idle) → length (sessions entries) ≡ length entries
length-sessions [] = refl
length-sessions (e ∷ rest) = omega (arith, length-sessions rest)

abbrev pub listed : Option ℕ → List ℕ
listed none = []
listed (some session) = session ∷ []

abbrev pub listed_onto : Option ℕ → List ℕ → List ℕ
listed_onto none xs = xs
listed_onto (some session) xs = session ∷ xs

pub length-listed_onto :
    (o : Option ℕ) (xs : List ℕ) → length (listed_onto o xs) ≡ length (listed o) + length xs
length-listed_onto none xs = omega arith
length-listed_onto (some session) xs = omega arith

pub count-listed_onto :
    (x : ℕ) (o : Option ℕ) (xs : List ℕ)
    → count x (listed_onto o xs) ≡ count x (listed o) + count x xs
unfolding count
count-listed_onto x none xs = omega arith
count-listed_onto x (some session) xs = ground arith

-- What the first section of a round of `Acquire` does to the pool.
pub record Taken (p : TransactionPool) (gone : List ℕ) (candidate : Option ℕ) (q : TransactionPool)
    : Type 0 where
  pub maximum_idle : q.maximum_idle ≡ p.maximum_idle
  pub is_closed : q.is_closed ≡ p.is_closed
  pub total : length q.idle + length (listed candidate) + length gone ≡ length p.idle
  pub each :
      (x : ℕ)
      → count x (sessions q.idle) + count x (listed candidate) + count x gone
        ≡ count x (sessions p.idle)
  pub idle : q.counters.idle ≡ length q.idle
  pub opened : q.counters.opened ≡ p.counters.opened
  pub leased : q.counters.leased ≡ p.counters.leased
  pub closed : q.counters.closed ≡ p.counters.closed + length gone
  pub last : candidate ≡ none → q.idle ≡ []

pop_back_fields-Taken :
    (maximum_idle maximum_idle_time : ℕ) (is_closed : Bool) (entries : List Idle) (c : Counters)
    → c.idle ≡ length entries
    → let p : TransactionPool = record {
      maximum_idle = maximum_idle;
      maximum_idle_time = maximum_idle_time;
      is_closed = is_closed;
      idle = entries;
      counters = c;
    } in
      Taken p [] (pop_back p).0 (pop_back p).1
unfolding pop_back count
pop_back_fields-Taken m t b [] c e = record {
  maximum_idle = refl;
  is_closed = refl;
  total = omega arith;
  each = λ x. omega arith;
  idle = e;
  opened = refl;
  leased = refl;
  closed = omega arith;
  last = λ h. refl;
}
pop_back_fields-Taken m t b (entry ∷ rest) c e = record {
  maximum_idle = refl;
  is_closed = refl;
  total = omega arith;
  each = λ x. ground arith;
  idle = refl;
  opened = refl;
  leased = refl;
  closed = omega arith;
  last = λ h. cc;
}

pub take_candidate-Taken :
    (now : ℕ) (p : TransactionPool)
    → Taken p (take_candidate now p).0 (take_candidate now p).1 (take_candidate now p).2
unfolding take_candidate take_expired count
take_candidate-Taken now p =
    let q = (take_expired now p).1 in
    let t =
      pop_back_fields-Taken q.maximum_idle q.maximum_idle_time q.is_closed q.idle q.counters refl in
    record {
      maximum_idle = t.maximum_idle;
      is_closed = t.is_closed;
      total = omega (arith, t.total, length-expired_kept now p.maximum_idle_time p.idle);
      each = λ x. omega (arith, t.each x, count-expired_kept now p.maximum_idle_time x p.idle);
      idle = t.idle;
      opened = t.opened;
      leased = t.leased;
      closed = omega (arith, t.closed);
      last = t.last;
    }

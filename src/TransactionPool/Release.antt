-- ===== src/TransactionPool/Release.antt =====
-- `Release` of src/transaction_session_pool.cpp on every branch, and what the next `Acquire` finds.
use quack_oracle.Base.{
  ℕ, ◌+◌, ◌-◌, ◌≤◌, ◌<◌, ◌≡◌, refl, sym, ap, ◌∙◌, Bool-cases, List-cases, Bool, true, false, inl,
  inr, ◌↔◌, Option, none, some, List, [], ◌∷◌, ◌++◌, All, if◌then◌else◌, length, arith, Result, ok,
}
use quack_oracle.Base.Counts.{count}
use quack_oracle.TransactionPool.{
  Idle, TransactionPool, is_expired, sessions, expired_sessions, kept_entries, take_expired,
  pop_back, take_candidate, is_clean, end_lease, keep_or_close, release,
}
use quack_oracle.TransactionPool.Expiry.{count-expired_kept}

-- A session is clean when nobody else holds it, it is ready, and it lets go of its deadline.
is_clean_iff :
    (sole : Bool) (ready unbinds : Result Bool)
    → (is_clean sole ready unbinds ≡ true)
      ↔ ((sole ≡ true) × (ready ≡ ok true) × (unbinds ≡ ok true))
unfolding is_clean
is_clean_iff sole ready unbinds = ground arith

keep_or_close_iff :
    (session : ℕ) (clean : Bool) (later : ℕ) (q : TransactionPool)
    → ((keep_or_close session clean later q).0 ≡ true)
      ↔ ((clean ≡ true) × (q.is_closed ≡ false) × (length q.idle < q.maximum_idle))
unfolding keep_or_close
keep_or_close_iff session clean later q = ground arith

keep_or_close-idle :
    (session : ℕ) (clean : Bool) (later : ℕ) (q : TransactionPool)
    → (keep_or_close session clean later q).1.idle ≡ (
        if (keep_or_close session clean later q).0
        then (record { session = session; since = later }) ∷ q.idle
        else q.idle)
unfolding keep_or_close
keep_or_close-idle session clean later q = ground arith

-- `Release` keeps a session exactly when it is clean, the pool is open, and there is room after the
-- expired sessions left; it then stands at the back with the time of its return. Otherwise it is closed
-- with them. Either way every session is kept or closed, once each.
pub release-Released :
    (session : ℕ) (clean : Bool) (now later : ℕ) (p : TransactionPool)
    → let (kept, closes, q) = release (some session) clean now later p in
      let left = kept_entries now p.maximum_idle_time p.idle in
      ((kept ≡ true) ↔ ((clean ≡ true) × (p.is_closed ≡ false) × (length left < p.maximum_idle)))
      × (q.idle ≡ (if kept then (record { session = session; since = later }) ∷ left else left))
      × ((x : ℕ)
          → count x (sessions q.idle) + count x closes
            ≡ count x (sessions p.idle) + count x (session ∷ []))
unfolding release take_expired keep_or_close count
release-Released session clean now later p =
    let gone = expired_sessions now p.maximum_idle_time p.idle in
    let q = (take_expired now (end_lease p)).1 in
    (
      keep_or_close_iff session clean later q,
      keep_or_close-idle session clean later q,
      (λ x. ground (
        arith,
        count-expired_kept now p.maximum_idle_time x p.idle,
        keep_or_close-idle session clean later q,
      )),
    )

keep_or_close-limit :
    (session : ℕ) (clean : Bool) (later : ℕ) (q : TransactionPool)
    → (keep_or_close session clean later q).1.maximum_idle_time ≡ q.maximum_idle_time
unfolding keep_or_close
keep_or_close-limit session clean later q = ground arith

abbrev front : List Idle → Option ℕ
front [] = none
front (entry ∷ rest) = some entry.session

pop_back-front : (q : TransactionPool) → (pop_back q).0 ≡ front q.idle
unfolding pop_back
pop_back-front q = elim (List-cases q.idle) [
  | inl e ↦ ground (arith, e)
  | inr (x, rest, e) ↦ ground (arith, e)
]

take_candidate-front :
    (now : ℕ) (p : TransactionPool)
    → (take_candidate now p).1 ≡ front (kept_entries now p.maximum_idle_time p.idle)
unfolding take_candidate take_expired
take_candidate-front now p = pop_back-front (take_expired now p).1

kept_entries-front :
    (now limit : ℕ) (entry : Idle) (rest : List Idle)
    → now - entry.since ≤ limit
    → front (kept_entries now limit (entry ∷ rest)) ≡ some entry.session
unfolding kept_entries
kept_entries-front now limit entry rest h = ground arith

-- A session that `Release` kept is the candidate of the next `Acquire`, while it has not expired.
pub take_candidate-release :
    (session : ℕ) (clean : Bool) (now later next : ℕ) (p : TransactionPool)
    → (release (some session) clean now later p).0 ≡ true
    → next - later ≤ p.maximum_idle_time
    → (take_candidate next (release (some session) clean now later p).2).1 ≡ some session
unfolding release take_expired
take_candidate-release session clean now later next p k h =
    let q = (take_expired now (end_lease p)).1 in
    take_candidate-front next (keep_or_close session clean later q).1
    ∙ rw (keep_or_close-limit session clean later q, keep_or_close-idle session clean later q, k)
        (kept_entries-front next p.maximum_idle_time (record { session = session; since = later })
          q.idle h)

-- The first entry that stays, between those that it passes over and the rest.
abbrev pub Candidate : ℕ → ℕ → ℕ → List Idle → Type 0
Candidate now limit session entries =
    (before : List Idle) × (entry : Idle) × (after : List Idle) × (entries
      ≡ before ++ (entry ∷ after))
    × All (λ e. limit < now - e.since) before
    × (now - entry.since ≤ limit)
    × (entry.session ≡ session)

front_kept-Candidate :
    (now limit session : ℕ) (entries : List Idle)
    → front (kept_entries now limit entries) ≡ some session
    → Candidate now limit session entries
unfolding kept_entries
front_kept-Candidate now limit session [] e = absurd (cc)
front_kept-Candidate now limit session (x ∷ rest) e = elim (Bool-cases (is_expired now limit x)) [
  | inl old ↦
      let (before, entry, after, split, passed, fresh, named) =
        front_kept-Candidate now limit session rest (ground (arith, e, old)) in
      (x ∷ before, entry, after, ap (◌∷◌ x) split, (ground (arith, old), passed), fresh, named)
  | inr young ↦ ([], x, rest, refl, tt, ground (arith, young), ground (arith, e, young))
]

-- The candidate of `Acquire` is the session of the idle entry that was returned last among those that
-- were idle for no longer than the limit.
pub take_candidate-Candidate :
    (now session : ℕ) (p : TransactionPool)
    → (take_candidate now p).1 ≡ some session
    → Candidate now p.maximum_idle_time session p.idle
take_candidate-Candidate now session p e =
    front_kept-Candidate now p.maximum_idle_time session p.idle
      (sym (take_candidate-front now p) ∙ e)

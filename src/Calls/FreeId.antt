-- ===== src/Calls/FreeId.antt =====
-- The search of `Register` in src/call_registry.cpp for a call id that no call has.
use Prim.Native.Nat.{◌^◌}
use quack_oracle.Base.{
  ℕ, zero, suc, ◌+◌, ◌%◌, ◌≤◌, ◌<◌, ◌≡◌, ◌≢◌, refl, sym, subst, Bool, true, false, ◌||◌, Bool-cases,
  List, [], ◌∷◌, length, ◌==◌, ok, arith, inl, inr,
}
use quack_oracle.Base.Assoc.{Map, find}
use quack_oracle.Base.Counts.{count, remove, length-remove, count-remove}
use quack_oracle.Calls.{is_used, free_call_id}

abbrev ids : ℕ
ids = 2 ^ 64

abbrev pub taken : Map (Map ℕ) → ℕ → Bool
taken calls id = id == 0 || is_used (find id calls)

-- The ids of the calls, and 0.
keys : Map (Map ℕ) → List ℕ
keys [] = 0 ∷ []
keys ((id, cursors) ∷ calls) = id ∷ keys calls

length-keys : (calls : Map (Map ℕ)) → length (keys calls) ≡ length calls + 1
unfolding keys
length-keys [] = omega arith
length-keys ((id, cursors) ∷ calls) = omega (arith, length-keys calls)

taken-keys : (calls : Map (Map ℕ)) (id : ℕ) → taken calls id ≡ true → 0 < count id (keys calls)
unfolding keys find count
taken-keys [] id h = ground (arith, h)
taken-keys ((k, cursors) ∷ calls) id h = ground (arith, h, taken-keys calls id)

next_id : (id j : ℕ) → ((id + 1) % ids + j) % ids ≡ (id + suc j) % ids
next_id id j = omega arith

later_id : (id j : ℕ) → id < ids → suc j < ids → (id + suc j) % ids ≢ id
later_id id j h l = ground arith

same_id : (id : ℕ) → id < ids → (id + 0) % ids ≡ id
same_id id h = omega arith

count-remove_other :
    (s t : ℕ) (xs : List ℕ) → 0 < count s xs → t ≢ s → 0 < count t xs → 0 < count t (remove s xs)
count-remove_other s t xs h n c = ground (arith, count-remove s t xs h)

-- What the rest of the search may meet, once the id it stands at is taken out.
window :
    (fuel : ℕ) (calls : Map (Map ℕ)) (bad : List ℕ) (id : ℕ)
    → id < ids
    → suc fuel ≤ ids
    → 0 < count id bad
    → ((j : ℕ)
        → j < suc fuel
        → taken calls ((id + j) % ids) ≡ true
        → 0 < count ((id + j) % ids) bad)
    → (j : ℕ) → j < fuel
    → taken calls (((id + 1) % ids + j) % ids) ≡ true
    → 0 < count (((id + 1) % ids + j) % ids) (remove id bad)
window fuel calls bad id i f c h j l t =
    subst (λ n. 0 < count n (remove id bad)) (sym (next_id id j))
      (count-remove_other id ((id + suc j) % ids) bad c (later_id id j i (omega arith))
        (h (suc j) (omega arith) (subst (λ n. taken calls n ≡ true) (next_id id j) t)))

free_call_id-again :
    (fuel : ℕ) (calls : Map (Map ℕ)) (id : ℕ)
    → taken calls id ≡ true
    → free_call_id (suc fuel) calls id ≡ free_call_id fuel calls ((id + 1) % ids)
unfolding free_call_id
free_call_id-again fuel calls id h = rw (h, free_call_id) refl

free_call_id-found :
    (fuel : ℕ) (calls : Map (Map ℕ)) (id : ℕ)
    → taken calls id ≡ false
    → free_call_id (suc fuel) calls id ≡ ok id
unfolding free_call_id
free_call_id-found fuel calls id h = rw (h, free_call_id) refl

-- The ids to come that are taken are all in `bad`, which the search outlasts.
search_ends :
    (fuel : ℕ) (calls : Map (Map ℕ)) (bad : List ℕ) (id : ℕ)
    → id < ids
    → fuel ≤ ids
    → ((j : ℕ) → j < fuel → taken calls ((id + j) % ids) ≡ true → 0 < count ((id + j) % ids) bad)
    → length bad < fuel
    → (k : ℕ) × (free_call_id fuel calls id ≡ ok k) × (taken calls k ≡ false)
search_ends zero calls bad id i f h l = absurd (omega arith)
search_ends (suc fuel) calls bad id i f h l = elim (Bool-cases (taken calls id)) [
  | inr e ↦ (id, free_call_id-found fuel calls id e, e)
  | inl e ↦
      let here : 0 < count id bad =
        subst (λ n. 0 < count n bad) (same_id id i)
          (h 0 (omega arith) (subst (λ n. taken calls n ≡ true) (sym (same_id id i)) e)) in
      rw (free_call_id-again fuel calls id e) (
        search_ends fuel calls (remove id bad) ((id + 1) % ids) (omega arith) (omega arith)
          (window fuel calls bad id i f here h) (omega (arith, length-remove id bad here)))
]

-- The search for a free call id, with two steps more than the registry has calls,
-- ends with an id that is not 0 and that no call has.
pub free_call_id-ends :
    (calls : Map (Map ℕ)) (id : ℕ)
    → id < 2 ^ 64
    → length calls + 2 ≤ 2 ^ 64
    → (k : ℕ) × (free_call_id (length calls + 2) calls id ≡ ok k) × (taken calls k ≡ false)
free_call_id-ends calls id i f =
    search_ends (length calls + 2) calls (keys calls) id i f
      (λ j l t. taken-keys calls ((id + j) % ids) t) (omega (arith, length-keys calls))

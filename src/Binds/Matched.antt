-- ===== src/Binds/Matched.antt =====
-- The order that src/sql_binds.cpp puts binds in is that of the placeholders.
use quack_oracle.Base.{
  ℕ, suc, ◌≡◌, ◌≢◌, refl, true, Bool-cases, List, [], ◌∷◌, Result, ok, err, stuck, Ends, returns,
  throws, Ends-bind, inl, inr, arith,
}
use quack_oracle.Sql.Keyword.{same}
use quack_oracle.Binds.{OracleBind, canonical_bind_name, has_name}
use quack_oracle.Binds.Order.{canonical_names, includes, index_of, indexes_of, bind_at, binds_at}

pub same-eq : (xs ys : List ℕ) → same xs ys ≡ true → xs ≡ ys
unfolding same
same-eq [] [] h = refl
same-eq [] (y ∷ ys) h = absurd (ground (arith, h))
same-eq (x ∷ xs) [] h = absurd (ground (arith, h))
same-eq (x ∷ xs) (y ∷ ys) h =
    let e : x ≡ y = ground (arith, h) in
    let f : same xs ys ≡ true = ground (arith, h) in rw (e, same-eq xs ys f) refl

pub same_refl : (xs : List ℕ) → same xs xs ≡ true
unfolding same
same_refl [] = refl
same_refl (x ∷ xs) = ground (arith, same_refl xs)

-- Each bind has the canonical name that stands in its place.
pub data Named : List OracleBind → List (List ℕ) → Type 0 where
  nil : Named [] []
  cons :
      {b : OracleBind} {binds : List OracleBind} {n : List ℕ} {ns : List (List ℕ)}
      → canonical_bind_name b.name ≡ ok n
      → Named binds ns
      → Named (b ∷ binds) (n ∷ ns)

-- A step that returned something has its value beside the equation.
pub known : {A : Type 0} (r : Result A) → (r ≢ stuck) → Ends (λ a. r ≡ ok a) r
known (ok a) h = returns refl
known (err e) h = throws
known stuck h = absurd (h refl)

pub canonical_ends : (name : List ℕ) → canonical_bind_name name ≢ stuck
unfolding canonical_bind_name
canonical_ends name = ground arith

pub canonical_names-Named : (binds : List OracleBind) → Ends (Named binds) (canonical_names binds)
unfolding canonical_names
canonical_names-Named [] = returns nil
canonical_names-Named (b ∷ binds) =
    Ends-bind _ (known (canonical_bind_name b.name) (canonical_ends b.name))
      λ n e. Ends-bind _ (canonical_names-Named binds) λ ns h. returns (cons e h)

-- A bind with the name, found by its index.
Found : List OracleBind → List ℕ → ℕ → Type 0
Found binds name i =
    (b : OracleBind) × (bind_at binds i ≡ ok b) × (canonical_bind_name b.name ≡ ok name)

index_of-Found :
    {binds : List OracleBind} {names : List (List ℕ)} (name : List ℕ)
    → Named binds names
    → has_name name names ≡ true
    → (i : ℕ) × (index_of name names ≡ ok i) × Found binds name i
unfolding index_of has_name bind_at Found
index_of-Found name nil p = absurd (ground (arith, p))
index_of-Found name (cons {b} {binds} {n} {ns} e h) p = elim (Bool-cases (same name n)) [
  | inl s ↦ (0, rw s refl, (b, refl, rw (same-eq name n s) e))
  | inr s ↦
      let (i, at, found) = index_of-Found name h (rw s at p) in (suc i, rw (s, at) refl, found)
]

-- The binds in the order found, with the names asked for.
unfoldable pub Ordered : List OracleBind → List (List ℕ) → List ℕ → Type 0
Ordered binds asked order =
    (ordered : List OracleBind) × (binds_at binds order ≡ ok ordered) × Named ordered asked

pub indexes_of-Ordered :
    {binds : List OracleBind} {names : List (List ℕ)} (asked : List (List ℕ))
    → Named binds names
    → includes names asked ≡ true
    → (order : List ℕ) × (indexes_of names asked ≡ ok order) × Ordered binds asked order
unfolding indexes_of includes binds_at Ordered Found
indexes_of-Ordered [] h p = ([], refl, ([], refl, nil))
indexes_of-Ordered (a ∷ asked) h p =
    let (i, e, (b, f, g)) = index_of-Found a h (ground (arith, p)) in
    let (order, e', (ordered, f', g')) = indexes_of-Ordered asked h (ground (arith, p)) in
    (i ∷ order, rw (e, e') refl, (b ∷ ordered, rw (f, f') refl, cons g g'))

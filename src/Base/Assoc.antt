-- ===== src/Base/Assoc.antt =====
-- std::map with integer keys, as a list of entries. The source never depends on the order of a map.
use Prim.Native.Nat.{ℕ, ◌+◌, ◌≤◌, ◌<◌}
use mathlib.Core.Path.{◌≡◌, refl}
use mathlib.Core.Option.{Option, none, some}
use mathlib.Core.List.{List, [], ◌∷◌}
use native.Mathlib.Omega.{arith}
use quack_oracle.Base.Tests.{◌==◌, if◌then◌else◌}
use quack_oracle.Base.Lists.{length}

abbrev pub Map : Type 0 → Type 0
Map V = List (ℕ × V)

module _ {V : Type 0} where
  -- `find(k)`
  unfoldable pub find : ℕ → Map V → Option V
  find k [] = none
  find k ((j, v) ∷ m) = if j == k then some v else find k m

  -- `emplace(k, v)`, which leaves an entry that is there.
  unfoldable pub emplace : ℕ → V → Map V → Map V
  emplace k v m = elim (find k m) [ none ↦ (k, v) ∷ m | some w ↦ m ]

  -- A write through the entry that `find(k)` returned.
  unfoldable pub assign : ℕ → V → Map V → Map V
  assign k v [] = []
  assign k v ((j, w) ∷ m) = if j == k then (j, v) ∷ m else (j, w) ∷ assign k v m

  -- `erase(k)`
  unfoldable pub erase : ℕ → Map V → Map V
  erase k [] = []
  erase k ((j, v) ∷ m) = if j == k then m else (j, v) ∷ erase k m

  -- Every key is below a bound, and no key occurs twice: keys fall along the list.
  abbrev pub Falling : ℕ → Map V → Type 0
  Falling n [] = Unit
  Falling n ((j, v) ∷ m) = (j < n) × Falling j m

  Falling-mono : {i n : ℕ} (m : Map V) → i ≤ n → Falling i m → Falling n m
  Falling-mono [] h f = tt
  Falling-mono ((j, v) ∷ m) h f = (omega arith, f.1)

  pub Falling-up : (i n : ℕ) (m : Map V) → i ≤ n → Falling i m → Falling n m
  Falling-up i n m h f = Falling-mono {i = i} {n = n} m h f

  pub find-above : (k n : ℕ) (m : Map V) → Falling n m → n ≤ k → find k m ≡ none
  unfolding find
  find-above k n [] f h = refl
  find-above k n ((j, v) ∷ m) f h = ground (arith, find-above k j m f.1)

  pub find-assign :
      (k j : ℕ) (v w : V) (m : Map V)
      → find k m ≡ some w
      → find j (assign k v m) ≡ (if k == j then some v else find j m)
  unfolding find assign
  find-assign k j v w [] e = cc
  find-assign k j v w ((i, u) ∷ m) e = ground (arith, find-assign k j v w m)

  -- A write adds no key.
  pub find-assign_missing :
      (k j : ℕ) (v : V) (m : Map V) → find j m ≡ none → find j (assign k v m) ≡ none
  unfolding find assign
  find-assign_missing k j v [] e = refl
  find-assign_missing k j v ((i, u) ∷ m) e = ground (arith, find-assign_missing k j v m)

  pub find-erase :
      (k j n : ℕ) (m : Map V)
      → Falling n m
      → find j (erase k m) ≡ (if k == j then none else find j m)
  unfolding find erase
  find-erase k j n [] f = ground arith
  find-erase k j n ((i, u) ∷ m) f = ground (arith, find-erase k j i m f.1, find-above j i m f.1)

  pub erase-Falling : (k n : ℕ) (m : Map V) → Falling n m → Falling n (erase k m)
  unfolding erase
  erase-Falling k n [] f = tt
  erase-Falling k n ((j, v) ∷ m) f = ground (arith, erase-Falling k j m f.1, Falling-up j n m)

  pub assign-Falling : (k n : ℕ) (v : V) (m : Map V) → Falling n m → Falling n (assign k v m)
  unfolding assign
  assign-Falling k n v [] f = tt
  assign-Falling k n v ((j, w) ∷ m) f = ground (arith, assign-Falling k j v m f.1)

  pub length-assign : (k : ℕ) (v : V) (m : Map V) → length (assign k v m) ≡ length m
  unfolding assign
  length-assign k v [] = refl
  length-assign k v ((j, w) ∷ m) = ground (arith, length-assign k v m)

  pub length-erase :
      (k : ℕ) (m : Map V) (v : V) → find k m ≡ some v → length (erase k m) + 1 ≡ length m
  unfolding find erase
  length-erase k [] v e = cc
  length-erase k ((j, w) ∷ m) v e = ground (arith, length-erase k m v)

  pub erase-missing : (k : ℕ) (m : Map V) → find k m ≡ none → erase k m ≡ m
  unfolding find erase
  erase-missing k [] e = refl
  erase-missing k ((j, w) ∷ m) e = ground (arith, erase-missing k m)

  -- No key occurs twice.
  abbrev pub Distinct : Map V → Type 0
  Distinct [] = Unit {0}
  Distinct ((j, v) ∷ m) = (find j m ≡ none) × Distinct m

  pub find-erase_same : (k : ℕ) (m : Map V) → Distinct m → find k (erase k m) ≡ none
  unfolding find erase
  find-erase_same k [] d = refl
  find-erase_same k ((j, v) ∷ m) d = ground (arith, d.0, find-erase_same k m d.1)

-- ===== src/Base/Counts.antt =====
-- How often a number stands in a list, and taking one occurrence out.
use Prim.Native.Nat.{ℕ, ◌+◌, ◌≤◌, ◌<◌}
use mathlib.Core.Path.{◌≡◌}
use mathlib.Core.List.{List, [], ◌∷◌, ◌++◌}
use native.Mathlib.Omega.{arith}
use quack_oracle.Base.Tests.{◌==◌, if◌then◌else◌}
use quack_oracle.Base.Lists.{length}

unfoldable pub count : ℕ → List ℕ → ℕ
count s [] = 0
count s (x ∷ xs) = if x == s then count s xs + 1 else count s xs

unfoldable pub remove : ℕ → List ℕ → List ℕ
remove s [] = []
remove s (x ∷ xs) = if x == s then xs else x ∷ remove s xs

pub length-remove : (s : ℕ) (xs : List ℕ) → 0 < count s xs → length (remove s xs) + 1 ≡ length xs
unfolding count remove
length-remove s [] h = absurd (omega arith)
length-remove s (x ∷ xs) h = ground (arith, length-remove s xs)

pub count-remove :
    (s t : ℕ) (xs : List ℕ)
    → 0 < count s xs
    → count t (remove s xs) + (if s == t then 1 else 0) ≡ count t xs
unfolding count remove
count-remove s t [] h = absurd (omega arith)
count-remove s t (x ∷ xs) h = ground (arith, count-remove s t xs)

pub count-append : (s : ℕ) (xs ys : List ℕ) → count s (xs ++ ys) ≡ count s xs + count s ys
unfolding count
count-append s [] ys = omega arith
count-append s (x ∷ xs) ys = ground (arith, count-append s xs ys)

pub count-le-length : (s : ℕ) (xs : List ℕ) → count s xs ≤ length xs
unfolding count
count-le-length s [] = omega arith
count-le-length s (x ∷ xs) = ground (arith, count-le-length s xs)

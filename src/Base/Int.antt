-- ===== src/Base/Int.antt =====
-- The signed integers of the source (int, int16_t, int32_t, int64_t) over the native numbers. The
-- operations are those on unbounded integers; a cast to a width is written out where one stands.
use Prim.Native.Nat.{ℕ, suc, ◌+◌, ◌-◌, ◌*◌, ◌/◌, ◌%◌, ◌≤◌, ◌<◌}
use mathlib.Core.Path.{◌≡◌, ap}
use mathlib.Core.Bool.{Bool}
use native.Mathlib.Omega.{arith}
use native.Mathlib.Nat.{mod-eq_of_lt}
use quack_oracle.Base.Tests.{ltb, leb, if◌then◌else◌}

-- `negsuc n` stands for -(n + 1).
pub data ℤ : Type 0 where
  pos : ℕ → ℤ
  negsuc : ℕ → ℤ

abbrev pub pos_part : ℤ → ℕ
pos_part (pos n) = n
pos_part (negsuc n) = 0

abbrev pub neg_part : ℤ → ℕ
neg_part (pos n) = 0
neg_part (negsuc n) = suc n

-- `a - b`.
unfoldable pub minus : ℕ → ℕ → ℤ
minus a b = if leb b a then pos (a - b) else negsuc (b - a - 1)

infixl 65 ◌+ℤ◌ ◌-ℤ◌
infixl 70 ◌*ℤ◌ ◌/ℤ◌
infix 50 ◌≤ℤ◌ ◌<ℤ◌
abbrev pub ◌+ℤ◌ : ℤ → ℤ → ℤ
a +ℤ b = minus (pos_part a + pos_part b) (neg_part a + neg_part b)

abbrev pub ◌-ℤ◌ : ℤ → ℤ → ℤ
a -ℤ b = minus (pos_part a + neg_part b) (neg_part a + pos_part b)

-- An integer times a constant, the only products of the source.
abbrev pub ◌*ℤ◌ : ℤ → ℕ → ℤ
a *ℤ k = minus (pos_part a * k) (neg_part a * k)

-- C++ division by a positive constant rounds towards zero.
abbrev pub ◌/ℤ◌ : ℤ → ℕ → ℤ
a /ℤ k = minus (pos_part a / k) (neg_part a / k)

abbrev pub ◌≤ℤ◌ : ℤ → ℤ → Type 0
a ≤ℤ b = pos_part a + neg_part b ≤ pos_part b + neg_part a

abbrev pub ◌<ℤ◌ : ℤ → ℤ → Type 0
a <ℤ b = pos_part a + neg_part b < pos_part b + neg_part a

abbrev pub ltb_ℤ : ℤ → ℤ → Bool
ltb_ℤ a b = ltb (pos_part a + neg_part b) (pos_part b + neg_part a)

abbrev pub -ℤ_of : ℕ → ℤ
-ℤ_of n = minus 0 n

-- static_cast to an unsigned type with `m` values.
unfoldable pub wrap : ℕ → ℤ → ℕ
wrap m (pos n) = n % m
wrap m (negsuc n) = m - 1 - n % m

pub ℤ-ext : (a b : ℤ) → pos_part a + neg_part b ≡ pos_part b + neg_part a → a ≡ b
ℤ-ext a b h = ground arith

pub minus_parts : (a b : ℕ) → (pos_part (minus a b) ≡ a - b) × (neg_part (minus a b) ≡ b - a)
unfolding minus
minus_parts a b = ground arith

pub minus_zero : (a b : ℕ) → b ≤ a → minus a b ≡ pos (a - b)
unfolding minus
minus_zero a b h = ground arith

-- A value that fits goes through a cast unchanged.
pub pos-wrap : (m : ℕ) (z : ℤ) → neg_part z ≡ 0 → pos_part z < m → pos (wrap m z) ≡ z
unfolding wrap
pos-wrap m (pos n) e h = ap pos (mod-eq_of_lt h)
pos-wrap m (negsuc n) e h = absurd (omega arith)

pub wrap-IsByte : (z : ℤ) → wrap 256 z < 256
unfolding wrap
wrap-IsByte (pos n) = omega arith
wrap-IsByte (negsuc n) = omega arith

pub +ℤ_parts :
    (a b : ℤ)
    → (pos_part (a +ℤ b) ≡ (pos_part a + pos_part b) - (neg_part a + neg_part b))
      × (neg_part (a +ℤ b) ≡ (neg_part a + neg_part b) - (pos_part a + pos_part b))
+ℤ_parts a b = minus_parts _ _

pub -ℤ_parts :
    (a b : ℤ)
    → (pos_part (a -ℤ b) ≡ (pos_part a + neg_part b) - (neg_part a + pos_part b))
      × (neg_part (a -ℤ b) ≡ (neg_part a + pos_part b) - (pos_part a + neg_part b))
-ℤ_parts a b = minus_parts _ _

pub *ℤ_parts :
    (a : ℤ) (k : ℕ) → (pos_part (a *ℤ k) ≡ pos_part a * k) × (neg_part (a *ℤ k) ≡ neg_part a * k)
*ℤ_parts (pos n) k = grind (arith, minus_parts (n * k) (0 * k))
*ℤ_parts (negsuc n) k = grind (arith, minus_parts (0 * k) (suc n * k))

pub /ℤ_parts :
    (a : ℤ) (k : ℕ) → (pos_part (a /ℤ k) ≡ pos_part a / k) × (neg_part (a /ℤ k) ≡ neg_part a / k)
/ℤ_parts (pos n) k = grind (arith, minus_parts (n / k) (0 / k))
/ℤ_parts (negsuc n) k = grind (arith, minus_parts (0 / k) (suc n / k))

pub add-sub : (c : ℤ) (k : ℕ) → c +ℤ pos k -ℤ pos k ≡ c
add-sub c k = ℤ-ext _ _ (omega (arith, +ℤ_parts c (pos k), -ℤ_parts (c +ℤ pos k) (pos k)))

-- A quotient and the rest behind it, the rest with an offset that is taken off again.
pub split_back : (c y : ℤ) (m k : ℕ) → c *ℤ m +ℤ (y -ℤ c *ℤ m +ℤ pos k) -ℤ pos k ≡ y
split_back c y m k =
    let t = c *ℤ m in
    ℤ-ext _ _ (
      omega (
        arith,
        -ℤ_parts y (c *ℤ m),
        +ℤ_parts (y -ℤ c *ℤ m) (pos k),
        +ℤ_parts (c *ℤ m) (y -ℤ c *ℤ m +ℤ pos k),
        -ℤ_parts (c *ℤ m +ℤ (y -ℤ c *ℤ m +ℤ pos k)) (pos k),
      ))

pub add-sub_assoc : (a b c : ℤ) → a +ℤ (b -ℤ c) ≡ a +ℤ b -ℤ c
add-sub_assoc a b c =
    ℤ-ext _ _ (omega (arith, -ℤ_parts b c, +ℤ_parts a (b -ℤ c), +ℤ_parts a b, -ℤ_parts (a +ℤ b) c))

-- ===== src/Base/Arith.antt =====
-- Powers of 256: the places of a number's bytes.
use Prim.Native.Nat.{ℕ, suc, ◌+◌, ◌*◌, ◌/◌, ◌%◌, ◌^◌, ◌≤◌, ◌<◌}
use mathlib.Core.Path.{◌≡◌, ap, ◌∙◌}
use native.Mathlib.Omega.{arith}
use native.Mathlib.Nat.{
  pow-suc, div-add-mod, mod-lt, one-le-pow, mod-eq_of_lt, mul-add-mod_self_left,
}

pub pow-pos : (n : ℕ) → 0 < 256 ^ n
pow-pos n = one-le-pow n 256 (omega arith)

small_lem : (P c r : ℕ) → c ≤ 255 → r < P → P * c + r < P * 256
small_lem P c r hc hr = grind arith

-- A number modulo 256 * P, by the byte above P and what stands below.
pub split_at : (P v : ℕ) → 0 < P → v % (P * 256) ≡ P * (v / P % 256) + v % P
split_at P v h =
    let whole : v ≡ P * 256 * (v / P / 256) + (P * (v / P % 256) + v % P) =
      omega (arith, div-add-mod v P, ap (λ (t : ℕ). P * t) (div-add-mod (v / P) 256)) in
    let below : v % P < P = mod-lt v h in
    let small : P * (v / P % 256) + v % P < P * 256 =
      small_lem P (v / P % 256) (v % P) (omega arith) below in
    ap (λ (t : ℕ). t % (P * 256)) whole
    ∙ mul-add-mod_self_left (P * 256) (v / P / 256) _
    ∙ mod-eq_of_lt small

pub split_byte : (n v : ℕ) → v % 256 ^ suc n ≡ 256 ^ n * (v / 256 ^ n % 256) + v % 256 ^ n
split_byte n v = rw pow-suc (split_at (256 ^ n) v (pow-pos n))

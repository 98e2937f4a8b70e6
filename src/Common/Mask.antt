-- ===== src/Common/Mask.antt =====
-- `x & (2 ^ k - 1)` is the remainder by `2 ^ k`.
use Prim.Native.Nat.{
  ℕ, zero, suc, ◌+◌, ◌*◌, ◌/◌, ◌%◌, ◌^◌, ◌≤◌, ◌<◌, min, bit_and, digits, bit_and-bitwise,
}
use mathlib.Core.Path.{◌≡◌, ap, ◌∙◌}
use native.Mathlib.Nat.{
  pow-suc, one-le-pow, add-mul-mod_self_left, mod-eq_of_lt, mod-lt, div-add-mod,
}
use native.Mathlib.Omega.{arith}

-- The lowest digit, split off a remainder by an even number.
mod-double : (a m : ℕ) → 0 < m → a % (m * 2) ≡ a / 2 % m * 2 + a % 2
mod-double a m h =
    ap (λ (t : ℕ). t % (m * 2)) parts
    ∙ add-mul-mod_self_left low (m * 2) (a / 2 / m)
    ∙ mod-eq_of_lt (omega (arith, mod-lt (a / 2) h))
  where
    low : ℕ
    low = a / 2 % m * 2 + a % 2

    parts : a ≡ low + m * 2 * (a / 2 / m)
    parts = omega (arith, div-add-mod (a / 2) m)

mask_digits : (n a k m : ℕ) → a ≤ n → m + 1 ≡ 2 ^ k → digits (λ b. zero) min n a m ≡ a % 2 ^ k
mask_digits zero zero k m h e = omega arith
mask_digits zero (suc a) k m h e = absurd (omega arith)
mask_digits (suc n) zero k m h e = omega arith
mask_digits (suc n) (suc a) zero m h e =
    omega (arith, mask_digits n (suc a / 2) zero (m / 2) (omega arith) (omega arith))
mask_digits (suc n) (suc a) (suc k) m h e = rw (pow-suc 2 k) (
    omega (
      arith,
      one-le-pow k 2 (omega arith),
      mod-double (suc a) (2 ^ k) (one-le-pow k 2 (omega arith)),
      pow-suc 2 k,
      mask_digits n (suc a / 2) k (m / 2) (omega arith) (omega (arith, pow-suc 2 k)),
    ))

pub bit_and_mask : (a k m : ℕ) → m + 1 ≡ 2 ^ k → bit_and a m ≡ a % 2 ^ k
bit_and_mask a k m e = bit_and-bitwise a m ∙ mask_digits a a k m (omega arith) e

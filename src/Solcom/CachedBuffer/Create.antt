-- ===== src/Solcom/CachedBuffer/Create.antt =====
-- The capacity that the constructor of CachedBuffer arrives at.
use native.Mathlib.Nat.{pow-suc, pow-le-pow_right}
use native.Mathlib.Decide.{dec_lt}
use cpp_linux_learn.Common.{
  ℕ, zero, suc, ◌+◌, ◌-◌, ◌*◌, ◌/◌, ◌^◌, ◌≤◌, ◌<◌, ◌≡◌, refl, false, none, some, arith, ◌==◌, inl,
  inr, Bool-cases, max, replicate, ◌≢◌,
}
use cpp_linux_learn.Solcom.CachedBuffer.{CachedBuffer, count_bits, round_capacity, create}

-- `k` is the number of bits of `cap`.
abbrev IsBits : ℕ → ℕ → Type 0
IsBits c k = (c < 2 ^ k) × (2 ^ k ≤ max 1 (c * 2))

IsBits-double : (c k : ℕ) → c ≢ 0 → IsBits (c / 2) k → IsBits c (suc k)
IsBits-double c k h b = omega (arith, pow-suc 2 k)

-- With fuel for its bits, the loop shifts `cap` out and counts its bits.
count_bits_lem :
    (fuel n c : ℕ) → c < 2 ^ fuel → (k : ℕ) × (count_bits fuel n c ≡ (n + k, 0)) × IsBits c k
unfolding count_bits
count_bits_lem zero n c h = (0, ground arith, omega arith)
count_bits_lem (suc fuel) n c h = elim (Bool-cases (c == 0)) [
  | inl z ↦ (0, ground arith, ground arith)
  | inr nz ↦ finish nz (count_bits_lem fuel (n + 1) (c / 2) (omega (arith, pow-suc 2 fuel)))
]
  where
    finish :
        (c == 0) ≡ false
        → (k : ℕ) × (count_bits fuel (n + 1) (c / 2) ≡ (n + 1 + k, 0)) × IsBits (c / 2) k
        → (k : ℕ) × (count_bits (suc fuel) n c ≡ (n + k, 0)) × IsBits c k
    finish nz (k, e, b) = (suc k, ground arith, IsBits-double c k (ground arith) b)

exponent-le : (k c : ℕ) → 2 ^ k ≤ c → c < 2 ^ 31 → k ≤ 30
exponent-le k c lo hi = elim (dec_lt 30 k) [
  | yes big ↦ absurd (omega (arith, pow-le-pow_right {n = 2} (omega arith) {i = 31} {j = k} big))
  | no small ↦ omega arith
]

-- With the loop's `cap` at 0 the doubling never happens.
round_capacity_lem : (k n : ℕ) → n ≡ suc k → round_capacity n 0 ≡ some (2 ^ k)
unfolding round_capacity
round_capacity_lem k n e = let e' : n - 1 ≡ k = omega arith in rw e' (ground arith)

module _ {ℓ} {A : Type ℓ} where
  -- For a positive `cap` below 2 ^ 31 the constructor makes a buffer whose capacity is the largest
  -- power of two that is not above `cap`, with as many elements; the shift is then in range.
  pub create_lem :
      (d : A) (c : ℕ)
      → 0 < c
      → c < 2 ^ 31
      → (k : ℕ) × (b : CachedBuffer A) × (create d c ≡ some b)
        × (b.capacity ≡ 2 ^ k)
        × (k ≤ 30)
        × (2 ^ k ≤ c)
        × (c < 2 ^ k * 2)
        × (b.elements ≡ replicate (2 ^ k) d)
  unfolding create
  create_lem d c h small = finish (count_bits_lem 32 0 c (omega arith))
    where
      finish :
          (k : ℕ) × (count_bits 32 0 c ≡ (0 + k, 0)) × IsBits c k
          → (k : ℕ) × (b : CachedBuffer A) × (create d c ≡ some b)
            × (b.capacity ≡ 2 ^ k)
            × (k ≤ 30)
            × (2 ^ k ≤ c)
            × (c < 2 ^ k * 2)
            × (b.elements ≡ replicate (2 ^ k) d)
      finish (zero, e, b) = absurd (omega arith)
      finish (suc k, e, b) = (
        k,
        record {
          elements = replicate (2 ^ k) d;
          capacity = 2 ^ k;
          head = 0;
          current = 0;
          tail = 2 ^ 64 - 1;
        },
        rw (e, create) (rw (round_capacity_lem k (0 + suc k) (omega arith), create)),
        refl,
        exponent-le k c (omega (arith, pow-suc 2 k)) small,
        omega (arith, pow-suc 2 k),
        omega (arith, pow-suc 2 k),
        refl,
      )

  -- A `cap` of 0 makes the constructor shift by -1.
  pub create-zero : (d : A) → create d 0 ≡ none
  unfolding create count_bits round_capacity
  create-zero d = refl

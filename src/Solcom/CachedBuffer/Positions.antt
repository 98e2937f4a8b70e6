-- ===== src/Solcom/CachedBuffer/Positions.antt =====
-- What the tests of CachedBuffer say of its positions, which wrap at 2 ^ 64.
use native.Mathlib.Nat.{
  pow-suc, pow-le-pow_right, one-le-pow, dvd_refl, dvd-mul_right_of_dvd, mod-mod_of_dvd,
}
use Prim.Native.Nat.{◌∣◌}
use native.Mathlib.Decide.{dec_lt}
use cpp_linux_learn.Common.{
  ℕ, zero, suc, ◌-◌, ◌%◌, ◌^◌, ◌≤◌, ◌<◌, ◌≡◌, ap, sym, ◌∙◌, arith, length, bit_and_mask, ◌==◌,
  add64, sub64,
}
use cpp_linux_learn.Solcom.CachedBuffer.{CachedBuffer, is_empty, is_full, slot}

pow-dvd-pow : (k j : ℕ) → k ≤ j → 2 ^ k ∣ 2 ^ j
pow-dvd-pow k zero h = let e : k ≡ 0 = omega arith in rw e (dvd_refl 1)
pow-dvd-pow k (suc j) h = elim (dec_lt j k) [
  | yes top ↦ let e : k ≡ suc j = omega arith in rw e (dvd_refl (2 ^ suc j))
  | no below ↦ rw (pow-suc 2 j) (dvd-mul_right_of_dvd (2 ^ k) (pow-dvd-pow k j (omega arith)) 2)
]

module _ {ℓ} {A : Type ℓ} where
  -- The number of elements between head and tail.
  abbrev pub used : CachedBuffer A → ℕ
  used b = sub64 (add64 b.tail 1) b.head

  pub record IsValid (b : CachedBuffer A) : Type ℓ where
    pub power : (k : ℕ) × (b.capacity ≡ 2 ^ k) × (k ≤ 30)
    pub sized : length b.elements ≡ b.capacity
    pub fits : used b ≤ b.capacity
    pub head_u64 : b.head < 2 ^ 64
    pub tail_u64 : b.tail < 2 ^ 64

  pub capacity_bounds : {b : CachedBuffer A} → IsValid b → (1 ≤ b.capacity) × (b.capacity ≤ 2 ^ 30)
  capacity_bounds v =
      let (k, e, h) = v.power in
      omega (arith, one-le-pow k 2, pow-le-pow_right {n = 2} (omega arith) {i = k} {j = 30} h)

  -- Masking a position is taking its remainder by the capacity.
  pub slot_lem : {b : CachedBuffer A} → IsValid b → (p : ℕ) → slot b p ≡ p % b.capacity
  slot_lem {b} v p =
      let (k, e, h) = v.power in
      bit_and_mask p k (b.capacity - 1) (omega (arith, capacity_bounds v))
      ∙ ap (λ (t : ℕ). p % t) (sym e)

  -- The wrap-around of a position does not change its slot.
  pub wrap_slot :
      {b : CachedBuffer A} → IsValid b → (p : ℕ) → p % 2 ^ 64 % b.capacity ≡ p % b.capacity
  wrap_slot {b} v p =
      let (k, e, h) = v.power in rw e (mod-mod_of_dvd (2 ^ k) p (pow-dvd-pow k 64 (omega arith)))

  -- `isEmpty` and `isFull` compare positions that wrap, and still tell how many elements there are.
  pub is_empty_lem : {b : CachedBuffer A} → IsValid b → is_empty b ≡ (used b == 0)
  unfolding is_empty
  is_empty_lem v = ground (arith, v.head_u64, v.tail_u64)

  pub is_full_lem : {b : CachedBuffer A} → IsValid b → is_full b ≡ (used b == b.capacity)
  unfolding is_full
  is_full_lem v = ground (arith, v.head_u64, v.tail_u64, capacity_bounds v)

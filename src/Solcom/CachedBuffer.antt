-- ===== src/Solcom/CachedBuffer.antt =====
-- solcomapi/src/CachedBuffer.h: the ring of send buffers between the threads that post messages
-- and the loop thread that writes them.
-- The positions are `uint64_t` and count on for ever; a slot is a position masked by the capacity
-- less one. A pointer into `elements` is the index of the slot, and `nullptr` is `none`.
pub mod Create
pub mod Window
pub mod Positions
pub mod Fifo
pub mod Refine
pub mod Current
use cpp_linux_learn.Common.{
  ℕ, zero, suc, ◌+◌, ◌-◌, ◌*◌, ◌/◌, ◌^◌, Bool, true, false, Option, none, some, List, replicate,
  set, bit_and, ltb, ◌==◌, add64, sub64, if◌then◌else◌,
}

pub record CachedBuffer {ℓ} (A : Type ℓ) : Type ℓ where
  pub elements : List A
  pub capacity : ℕ
  pub head : ℕ
  pub current : ℕ
  pub tail : ℕ

-- `while (cap) { n++; cap >>= 1; }` of the constructor: the final `n` and `cap`.
unfoldable pub count_bits : ℕ → ℕ → ℕ → ℕ × ℕ
count_bits zero n cap = (n, cap)
count_bits (suc fuel) n cap = elim (cap == 0) [
  | true ↦ (n, cap)
  | false ↦ count_bits fuel (n + 1) (cap / 2)
]

-- `1 << (n - 1)`, doubled where that is less than what the loop has left of `cap`. A shift by -1
-- is undefined.
unfoldable pub round_capacity : ℕ → ℕ → Option ℕ
round_capacity n cap =
    if n == 0
    then none
    else if ltb (2 ^ (n - 1)) cap
    then some (2 ^ (n - 1) * 2)
    else some (2 ^ (n - 1))

module _ {ℓ} {A : Type ℓ} where
  -- The constructor, for a `cap` that an `int` holds; `d` is the default-constructed `T`.
  unfoldable pub create : A → ℕ → Option (CachedBuffer A)
  create d cap =
      let (n, left) = count_bits 32 0 cap in
      elim (round_capacity n left) [
        | none ↦ none
        | some c ↦ some (record {
          elements = replicate c d;
          capacity = c;
          head = 0;
          current = 0;
          tail = 2 ^ 64 - 1;
        })
      ]

  unfoldable pub is_empty : CachedBuffer A → Bool
  is_empty b = add64 b.tail 1 == b.head

  unfoldable pub is_full : CachedBuffer A → Bool
  is_full b = sub64 (add64 b.tail 1) b.capacity == b.head

  -- `&elements[p & (capacity - 1)]`.
  abbrev pub slot : CachedBuffer A → ℕ → ℕ
  slot b p = bit_and p (b.capacity - 1)

  unfoldable pub allocate : CachedBuffer A → Option ℕ
  allocate b = if is_full b then none else some (slot b (add64 b.tail 1))

  unfoldable pub head_forward : CachedBuffer A → CachedBuffer A × Bool
  head_forward b = if is_empty b then (b, false) else (
    record b {
      head = add64 b.head 1;
      current = if ltb b.current (add64 b.head 1) then add64 b.head 1 else b.current;
    },
    true,
  )

  unfoldable pub current_forward : CachedBuffer A → CachedBuffer A × Bool
  current_forward b =
      if ltb b.tail b.current then (b, false) else (record b { current = add64 b.current 1 }, true)

  unfoldable pub tail_forward : CachedBuffer A → CachedBuffer A × Bool
  tail_forward b = if is_full b then (b, false) else (record b { tail = add64 b.tail 1 }, true)

  unfoldable pub front : CachedBuffer A → Option ℕ
  front b = if is_empty b then none else some (slot b b.head)

  unfoldable pub current_slot : CachedBuffer A → Option ℕ
  current_slot b = if is_empty b then none else some (slot b b.current)

  unfoldable pub back : CachedBuffer A → Option ℕ
  back b = if is_empty b then none else some (slot b b.tail)

  -- A write through a pointer that `allocate` returned.
  abbrev pub store : CachedBuffer A → ℕ → A → CachedBuffer A
  store b i x = record b { elements = set b.elements i x }

-- ===== src/Solcom/CachedBuffer/Current.antt =====
-- The third position of CachedBuffer, `nCurrent`.
use cpp_linux_learn.Common.{◌+◌, ◌-◌, ◌^◌, ◌≤◌, ◌<◌, ◌≡◌, true, arith}
use cpp_linux_learn.Solcom.CachedBuffer.{
  CachedBuffer, head_forward, tail_forward, current_forward, current_slot, front, is_empty,
}

module _ {ℓ} {A : Type ℓ} where
  -- A buffer whose current position is its head keeps it there through `headForward` and
  -- `tailForward`, up to the wrap of the positions, and then `current` is `front`.
  pub current_at_head :
      (b : CachedBuffer A)
      → b.current ≡ b.head
      → b.head + 1 < 2 ^ 64
      → ((head_forward b).0.current ≡ (head_forward b).0.head)
        × ((tail_forward b).0.current ≡ (tail_forward b).0.head)
        × (current_slot b ≡ front b)
  unfolding head_forward tail_forward current_slot front
  current_at_head b e small = ground arith

  -- `headForward` never leaves the current position behind the head, up to the wrap.
  pub head-le-current :
      (b : CachedBuffer A)
      → b.head ≤ b.current
      → b.head + 1 < 2 ^ 64
      → (head_forward b).0.head ≤ (head_forward b).0.current
  unfolding head_forward
  head-le-current b le small = ground arith

  -- Before the first `tailForward` the tail is the largest number, so `currentForward` moves on
  -- although the buffer is empty and there is nothing to move over.
  pub current_forward_fresh :
      (b : CachedBuffer A)
      → b.tail ≡ 2 ^ 64 - 1
      → b.head ≡ 0
      → b.current < 2 ^ 64 - 1
      → (is_empty b ≡ true)
        × ((current_forward b).1 ≡ true)
        × ((current_forward b).0.current ≡ b.current + 1)
  unfolding current_forward is_empty
  current_forward_fresh b t h c = ground arith

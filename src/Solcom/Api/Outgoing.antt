-- ===== src/Solcom/Api/Outgoing.antt =====
-- What the idle callback of SolcomApi writes, and what becomes of it at the other end.
use native.Mathlib.Nat.{mod-lt}
use cpp_linux_learn.Common.{
  ◌>>=◌, ℕ, ◌-◌, ◌<◌, ◌≤◌, ◌+◌, ◌≡◌, refl, ap, ap₂, sym, ◌∙◌, true, false, some, List, [], ◌∷◌,
  arith, inl, inr, Option-cases, length, get_or, get_elem?, get_elem?-lt, get_or-get_elem?,
  copy_out, copy_out-fits, take, drop,
}
use cpp_linux_learn.Solcom.ByteArray.{ByteArray, IsValid, contents}
use cpp_linux_learn.Solcom.CachedBuffer.{slot, is_empty, front, current_slot, head_forward}
use cpp_linux_learn.Solcom.CachedBuffer.Positions
use cpp_linux_learn.Solcom.CachedBuffer.Positions.{used, capacity_bounds, slot_lem}
use cpp_linux_learn.Solcom.CachedBuffer.Fifo
use cpp_linux_learn.Solcom.CachedBuffer.Fifo.{dequeue, take_front, take_front_refines}
use cpp_linux_learn.Solcom.Api.{Api, uv_write, idle_write, idle_keep_alive, idle_cb, write_done}
use cpp_linux_learn.Solcom.Api.Sending.{no_slot, queue}

-- `front` points to the first of the messages that wait.
front_lem :
    (a : Api) (s : ByteArray) (rest : List ByteArray)
    → Positions.IsValid a.send_cache
    → queue a ≡ s ∷ rest
    → (i : ℕ) × (front a.send_cache ≡ some i)
      × (get_elem? a.send_cache.elements i ≡ some s)
      × (Fifo.contents no_slot (head_forward a.send_cache).0 ≡ rest)
unfolding take_front dequeue front
front_lem a s rest v e =
    let taken = take_front_refines no_slot v ∙ ap dequeue e in
    let positive : 0 < a.send_cache.capacity = omega (arith, capacity_bounds v) in
    let in_range : slot a.send_cache a.send_cache.head < length a.send_cache.elements =
      omega (arith, slot_lem v a.send_cache.head, mod-lt a.send_cache.head positive, v.sized) in
    elim (Option-cases (front a.send_cache)) [
      | inl f ↦ absurd (ground (arith, f, taken))
      | inr (i, f) ↦
          let parts : (get_or a.send_cache.elements i no_slot ≡ s)
              × (Fifo.contents no_slot (head_forward a.send_cache).0 ≡ rest) =
            ground (arith, f, taken) in
          let (x, g) = get_elem?-lt a.send_cache.elements i (ground (arith, f, in_range)) in
          (
            i,
            f,
            g ∙ ap some (sym (get_or-get_elem? a.send_cache.elements i x no_slot g) ∙ parts.0),
            parts.1,
          )
    ]

-- The first part of the idle callback, where its guards hold.
idle_write-write_done :
    (a : Api) (s : ByteArray) (rest : List ByteArray) (now : ℕ)
    → Positions.IsValid a.send_cache
    → a.send_cache.current ≡ a.send_cache.head
    → a.req_busy ≡ false
    → queue a ≡ s ∷ rest
    → IsValid s
    → s.left ≡ 0
    → (b : Api) × (idle_write a ≡ some (b, uv_write (contents s) ∷ []))
      × (queue b ≡ s ∷ rest)
      × (queue (write_done now b) ≡ rest)
      × (b ≡ record a { req_busy = true })
unfolding idle_write write_done current_slot front
idle_write-write_done a s rest now v cur busy e w l =
    let (i, f, g, left) = front_lem a s rest v e in
    let size : s.right ≡ s.right - s.left = omega (arith, l) in
    let out : copy_out s.chars 0 s.right ≡ some (contents s) =
      copy_out-fits s.chars 0 s.right (omega (arith, w))
      ∙ ap₂ (λ m n. some (take n (drop m s.chars))) (sym l) size in
    let current : current_slot a.send_cache ≡ some i = ground (arith, cur, f) in
    (
      record a { req_busy = true },
      rw (busy, current) (rw (g, ◌>>=◌) (rw (out, ◌>>=◌) refl)),
      e,
      left,
      refl,
    )

-- The idle callback of a connected client whose write is not busy and whose last write is at most three
-- seconds old, so that no heart beat is due, does one thing when messages wait: it writes the bytes of the
-- first one, from its first byte to its last; and when they are written exactly that message is gone. The
-- ring's current position is its first one, as the program always has it.
pub idle_cb-write_done :
    (junk : ℕ → ℕ) (a : Api) (s : ByteArray) (rest : List ByteArray) (now later : ℕ)
    → Positions.IsValid a.send_cache
    → a.send_cache.current ≡ a.send_cache.head
    → a.connected ≡ true
    → a.req_busy ≡ false
    → now ≤ a.last_write + 3
    → queue a ≡ s ∷ rest
    → IsValid s
    → s.left ≡ 0
    → (b : Api) × (idle_cb junk now a ≡ some (b, uv_write (contents s) ∷ []))
      × (queue b ≡ s ∷ rest)
      × (queue (write_done later b) ≡ rest)
      × (b ≡ record a { req_busy = true })
unfolding idle_cb idle_keep_alive front
idle_cb-write_done junk a s rest now later v cur conn busy recent e w l =
    let (b, writes, same, gone, only) = idle_write-write_done a s rest later v cur busy e w l in
    let (i, f, _, _) = front_lem a s rest v e in
    let waits : is_empty a.send_cache ≡ false = ground (arith, f) in
    let kept : idle_keep_alive junk now b ≡ some (b, []) = ground (arith, only, recent) in
    (b, ground (arith, conn, waits, writes, kept), same, gone, only)

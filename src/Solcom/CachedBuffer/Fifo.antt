-- ===== src/Solcom/CachedBuffer/Fifo.antt =====
-- A CachedBuffer is a queue of at most `capacity` elements, also where its positions go round.
use native.Mathlib.Decide.{dec_lt}
use mathlib.Core.Option
use cpp_linux_learn.Common.{
  ℕ, suc, ◌+◌, ◌%◌, ◌<◌, ◌≡◌, refl, ap, ap₂, sym, subst, ◌∙◌, true, false, Option, none, some, List,
  [], ◌∷◌, ◌++◌, arith, length, get_or, set, length-set, ◌==◌, add64, if◌then◌else◌,
}
use cpp_linux_learn.Solcom.CachedBuffer.{
  CachedBuffer, is_full, slot, allocate, store, head_forward, tail_forward, front,
}
use cpp_linux_learn.Solcom.CachedBuffer.Window.{window, window_mod, length-window, window-set}
use cpp_linux_learn.Solcom.CachedBuffer.Positions.{
  used, IsValid, capacity_bounds, slot_lem, wrap_slot, is_empty_lem, is_full_lem,
}

-- A queue that holds at most `limit` elements, oldest first.
module _ {ℓ} {A : Type ℓ} where
  unfoldable pub enqueue : ℕ → A → List A → Option (List A)
  enqueue limit x q = if length q == limit then none else some (q ++ x ∷ [])

  unfoldable pub dequeue : List A → Option (A × List A)
  dequeue [] = none
  dequeue (x ∷ q) = some (x, q)

-- The slot that is free next.
module _ {ℓ} {A : Type ℓ} where
  pub allocate-room :
      {b : CachedBuffer A}
      → IsValid b
      → used b < b.capacity
      → allocate b ≡ some ((b.head + used b) % b.capacity)
  unfolding allocate
  allocate-room {b} v room = ground (arith, is_full_lem v, slot_lem v (add64 b.tail 1), same_slot)
    where
      same_slot : add64 b.tail 1 % b.capacity ≡ (b.head + used b) % b.capacity
      same_slot =
          ap (λ (t : ℕ). t % b.capacity) (omega (arith, v.head_u64, v.tail_u64))
          ∙ wrap_slot v (b.head + used b)

  -- The buffer with `x` posted.
  abbrev pub posted : CachedBuffer A → A → CachedBuffer A
  posted b x = record b {
    elements = set b.elements ((b.head + used b) % b.capacity) x;
    tail = add64 b.tail 1;
  }

  pub tail_forward-store :
      {b : CachedBuffer A} (x : A)
      → IsValid b
      → used b < b.capacity
      → (tail_forward (store b ((b.head + used b) % b.capacity) x)).0 ≡ posted b x
  unfolding tail_forward is_full
  tail_forward-store x v room = ground (arith, is_full_lem v)

  pub allocate-full : {b : CachedBuffer A} → IsValid b → used b ≡ b.capacity → allocate b ≡ none
  unfolding allocate
  allocate-full v e = ground (arith, is_full_lem v)

module _ {ℓ} {A : Type ℓ} (d : A) where
  -- What waits in the buffer, oldest first.
  abbrev pub contents : CachedBuffer A → List A
  contents b = window d b.elements b.capacity b.head (used b)

  -- The way SolcomApi posts: take the slot that `allocate` offers, fill it, move the tail on.
  unfoldable pub post : A → CachedBuffer A → Option (CachedBuffer A)
  post x b = elim (allocate b) [ none ↦ none | some i ↦ some (tail_forward (store b i x)).0 ]

  -- The way the loop thread takes: read the front, move the head on.
  unfoldable pub take_front : CachedBuffer A → Option (A × CachedBuffer A)
  take_front b = elim (front b) [
    | none ↦ none
    | some i ↦ some (get_or b.elements i d, (head_forward b).0)
  ]

  post-full : {b : CachedBuffer A} (x : A) → IsValid b → used b ≡ b.capacity → post x b ≡ none
  unfolding post
  post-full {b} x v e = ground (arith, allocate-full v e)

  post-room :
      {b : CachedBuffer A} (x : A) → IsValid b → used b < b.capacity → post x b ≡ some (posted b x)
  unfolding post
  post-room {b} x v room = ground (arith, allocate-room v room, tail_forward-store x v room)

  used-posted :
      {b : CachedBuffer A} (x : A)
      → IsValid b
      → used b < b.capacity
      → used (posted b x) ≡ suc (used b)
  used-posted x v room = omega (arith, v.head_u64, v.tail_u64, capacity_bounds v)

  pub posted-IsValid :
      {b : CachedBuffer A} (x : A) → IsValid b → used b < b.capacity → IsValid (posted b x)
  posted-IsValid {b} x v room = record {
    power = v.power;
    sized = length-set b.elements _ x ∙ v.sized;
    fits = omega (arith, used-posted x v room);
    head_u64 = v.head_u64;
    tail_u64 = omega arith;
  }

  pub contents-posted :
      {b : CachedBuffer A} (x : A)
      → IsValid b
      → used b < b.capacity
      → contents (posted b x) ≡ contents b ++ x ∷ []
  contents-posted {b} x v room =
      ap (window d (posted b x).elements b.capacity b.head) (used-posted x v room)
      ∙ window-set d b.elements b.capacity x (used b) b.head _ v.sized room refl

  -- Posting is `enqueue`: it fails exactly when `capacity` elements wait, and otherwise the new
  -- element is the last.
  pub post_refines :
      {b : CachedBuffer A} (x : A)
      → IsValid b
      → Option.map contents (post x b) ≡ enqueue b.capacity x (contents b)
  unfolding enqueue
  post_refines {b} x v = elim (dec_lt (used b) b.capacity) [
    | yes room ↦ rw (post-room x v room) (rw (not_full room) (ap some (contents-posted x v room)))
    | no full ↦
        let e : used b ≡ b.capacity = omega (arith, v.fits) in
        rw (post-full x v e) (rw (is_at_limit e))
  ]
    where
      count : length (contents b) ≡ used b
      count = length-window d b.elements b.capacity b.head (used b)

      not_full : used b < b.capacity → (length (contents b) == b.capacity) ≡ false
      not_full room = ground (arith, count)

      is_at_limit : used b ≡ b.capacity → (length (contents b) == b.capacity) ≡ true
      is_at_limit e = ground (arith, count)

  -- A buffer that was posted to is valid, and has the same capacity.
  pub post-IsValid :
      {b c : CachedBuffer A} (x : A)
      → IsValid b
      → post x b ≡ some c
      → IsValid c × (c.capacity ≡ b.capacity)
  post-IsValid {b} {c} x v e = elim (dec_lt (used b) b.capacity) [
    | yes room ↦
        let same : posted b x ≡ c = cc (post-room x v room) in
        (subst IsValid same (posted-IsValid x v room), sym (ap (λ b. b.capacity) same))
    | no full ↦ absurd (cc (post-full x v (omega (arith, v.fits))))
  ]

  -- The buffer behind its first element.
  abbrev taken : CachedBuffer A → CachedBuffer A
  taken b = (head_forward b).0

  taken_fields :
      {b : CachedBuffer A}
      → IsValid b
      → 0 < used b
      → ((taken b).head ≡ add64 b.head 1)
        × ((taken b).tail ≡ b.tail)
        × ((taken b).elements ≡ b.elements)
        × ((taken b).capacity ≡ b.capacity)
  unfolding head_forward
  taken_fields v some_left = ground (arith, is_empty_lem v)

  used-taken : {b : CachedBuffer A} → IsValid b → 0 < used b → suc (used (taken b)) ≡ used b
  used-taken v some_left =
      omega (arith, v.head_u64, v.tail_u64, v.fits, capacity_bounds v, taken_fields v some_left)

  -- Taking an element keeps the buffer valid, and its capacity.
  pub take_front-IsValid :
      {b c : CachedBuffer A} (x : A)
      → IsValid b
      → take_front b ≡ some (x, c)
      → IsValid c × (c.capacity ≡ b.capacity)
  unfolding take_front front
  take_front-IsValid {b} {c} x v e = elim (dec_lt 0 (used b)) [
    | yes left ↦
        let (h, t, els, cap') = taken_fields v left in
        let valid : IsValid (taken b) = record {
          power = rw cap' v.power;
          sized = rw (els, cap') v.sized;
          fits = omega (arith, used-taken v left, v.fits, cap');
          head_u64 = rw h (omega arith);
          tail_u64 = rw t v.tail_u64;
        } in
        let same : taken b ≡ c = ground (arith, is_empty_lem v) in
        (subst IsValid same valid, sym (ap (λ b. b.capacity) same) ∙ cap')
    | no nothing ↦ absurd (ground (arith, is_empty_lem v))
  ]

  contents-behind :
      {b : CachedBuffer A} (c : CachedBuffer A)
      → IsValid b
      → c.head ≡ add64 b.head 1
      → c.elements ≡ b.elements
      → c.capacity ≡ b.capacity
      → suc (used c) ≡ used b
      → contents b ≡ get_or b.elements (slot b b.head) d ∷ contents c
  contents-behind {b} c v h els same_cap n =
      ap (window d b.elements b.capacity b.head) (sym n)
      ∙ ap₂ ◌∷◌ (ap (λ i. get_or b.elements i d) (sym (slot_lem v b.head))) (
          window_mod d b.elements b.capacity (b.head + 1) c.head (used c) next
          ∙ ap₂ (λ e k. window d e k c.head (used c)) (sym els) (sym same_cap))
    where
      next : (b.head + 1) % b.capacity ≡ c.head % b.capacity
      next = sym (wrap_slot v (b.head + 1)) ∙ ap (λ (t : ℕ). t % b.capacity) (sym h)

  take_front-some :
      {b : CachedBuffer A}
      → IsValid b
      → 0 < used b
      → (take_front b ≡ some (get_or b.elements (slot b b.head) d, taken b))
        × (contents b ≡ get_or b.elements (slot b b.head) d ∷ contents (taken b))
  unfolding take_front front
  take_front-some {b} v left =
      let (h, t, els, same_cap) = taken_fields v left in
      (
        ground (arith, is_empty_lem v),
        contents-behind (taken b) v h els same_cap (used-taken v left),
      )

  take_front-empty :
      {b : CachedBuffer A} → IsValid b → used b ≡ 0 → (take_front b ≡ none) × (contents b ≡ [])
  unfolding take_front front
  take_front-empty {b} v e =
      (ground (arith, is_empty_lem v), ap (window d b.elements b.capacity b.head) e)

  -- Taking is `dequeue`: it fails exactly on the empty buffer, and otherwise returns the oldest
  -- element and leaves the others.
  pub take_front_refines :
      {b : CachedBuffer A}
      → IsValid b
      → Option.map (λ r. (r.0, contents r.1)) (take_front b) ≡ dequeue (contents b)
  unfolding dequeue
  take_front_refines {b} v = elim (dec_lt 0 (used b)) [
    | yes left ↦ let (t, c) = take_front-some v left in rw t (sym (ap dequeue c))
    | no nothing ↦ let (t, c) = take_front-empty v (omega arith) in rw t (sym (ap dequeue c))
  ]

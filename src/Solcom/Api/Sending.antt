-- ===== src/Solcom/Api/Sending.antt =====
-- `postMsg` of SolcomApi on a connected object: the message waits behind the others.
use cpp_linux_learn.Common.{
  ◌>>=◌, ℕ, ◌+◌, ◌%◌, ◌<◌, ◌≡◌, refl, ap, sym, subst, true, false, some, List, [], ◌∷◌, ◌++◌, ◌⊎◌,
  arith, inl, inr, length, get_elem?, get_elem?-lt, get_elem?-set, if◌then◌else◌, not,
}
use native.Mathlib.Nat.{mod-lt}
use cpp_linux_learn.Solcom.ByteArray.{ByteArray}
use cpp_linux_learn.Solcom.CachedBuffer.Positions
use cpp_linux_learn.Solcom.CachedBuffer.Positions.{used, capacity_bounds}
use cpp_linux_learn.Solcom.CachedBuffer.Fifo.{
  contents, posted, allocate-room, allocate-full, tail_forward-store, posted-IsValid,
  contents-posted,
}
use cpp_linux_learn.Solcom.Codec.{Serializable, head_bytes}
use cpp_linux_learn.Solcom.Codec.RoundTrip.{wire, IsSized}
use cpp_linux_learn.Solcom.Api.{Api, success, network, no_buffer, post_msg}
use cpp_linux_learn.Solcom.Api.Post.{IsReady, posted_head, fill_slot_lem}
use cpp_linux_learn.Solcom.ByteArray

abbrev pub no_slot : ByteArray
no_slot = record { chars = []; capacity = 0; right = 0; left = 0 }

-- The messages that wait, oldest first, each with the bytes of its slot.
abbrev pub queue : Api → List ByteArray
queue a = contents no_slot a.send_cache

-- The send cache is a valid ring, and all of its slots are large enough for a message.
pub record IsSendable (a : Api) : Type 0 where
  pub ring : Positions.IsValid a.send_cache
  pub slots : (i : ℕ) (s : ByteArray) → get_elem? a.send_cache.elements i ≡ some s → IsReady s

-- On a connected object with a free slot `postMsg` succeeds: one message more waits, behind the
-- others, which stay as they are; its slot holds the head, with the length of the object, and the
-- object on the wire, and the object can be posted to again. Nothing but the send cache changes.
pub post_msg-room :
    (junk : ℕ → ℕ) (msg : Serializable) (id rtn : ℕ) (a : Api)
    → IsSendable a
    → IsSized msg.members
    → a.connected ≡ true
    → used a.send_cache < a.send_cache.capacity
    → (a' : Api) × (s : ByteArray) × (post_msg junk msg id rtn a ≡ some (a', success))
      × (queue a' ≡ queue a ++ s ∷ [])
      × (ByteArray.contents s ≡ head_bytes (posted_head msg id rtn) ++ wire msg)
      × ByteArray.IsValid s
      × (s.left ≡ 0)
      × IsSendable a'
      × (a' ≡ record a { send_cache = posted a.send_cache s })
unfolding post_msg
post_msg-room junk msg id rtn a v z c room =
    let i = (a.send_cache.head + used a.send_cache) % a.send_cache.capacity in
    let positive : 0 < a.send_cache.capacity = omega (arith, capacity_bounds v.ring) in
    let in_range : i < length a.send_cache.elements =
      omega (arith, mod-lt (a.send_cache.head + used a.send_cache) positive, v.ring.sized) in
    let (slot, e) = get_elem?-lt a.send_cache.elements i in_range in
    let ready = v.slots i slot e in
    let (s, f, h, l) = fill_slot_lem junk msg id rtn slot ready z in
    let ready' : IsReady s = record {
      large = omega (arith, ready.large, h.same_capacity);
      roomy = omega (arith, ready.roomy, h.same_size);
      int_sized = h.valid.int_sized;
    } in
    (
      record a { send_cache = posted a.send_cache s },
      s,
      rw (ap not c, allocate-room v.ring room)
          (rw (e, ◌>>=◌)
            (rw (f, ◌>>=◌)
              (ap (λ b. some (record a { send_cache = b }, success))
                (tail_forward-store s v.ring room)))),
      contents-posted no_slot s v.ring room,
      h.bytes,
      h.valid,
      l,
      record {
        ring = posted-IsValid no_slot s v.ring room;
        slots = λ j w g. elim (get_elem?-set a.send_cache.elements i j s w g) [
          | inl same ↦ subst IsReady (sym same) ready'
          | inr old ↦ v.slots j w old
        ];
      },
      refl,
    )

-- Without a connection, or without a free slot, it fails, with a code that says which, and changes
-- nothing.
pub post_msg-refused :
    (junk : ℕ → ℕ) (msg : Serializable) (id rtn : ℕ) (a : Api)
    → Positions.IsValid a.send_cache
    → (a.connected ≡ false) ⊎ (used a.send_cache ≡ a.send_cache.capacity)
    → post_msg junk msg id rtn a ≡ some (a, if a.connected then no_buffer else network)
unfolding post_msg
post_msg-refused junk msg id rtn a v (inl c) = ground (arith, c)
post_msg-refused junk msg id rtn a v (inr full) = ground (arith, allocate-full v full)

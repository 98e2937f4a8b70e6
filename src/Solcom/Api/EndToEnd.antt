-- ===== src/Solcom/Api/EndToEnd.antt =====
-- Two ends of a connection: what one SolcomApi posts, the other hands to its user.
use cpp_linux_learn.Common.{
  ℕ, ◌^◌, ◌<◌, ◌≤◌, ◌+◌, subst, ◌≡◌, refl, ap, ap₂, sym, ◌∙◌, true, false, some, List, [], ◌∷◌,
  ◌++◌, arith,
}
use cpp_linux_learn.Solcom.CachedBuffer.Positions.{used, capacity_bounds}
use cpp_linux_learn.Solcom.CachedBuffer.Window.{window}
use cpp_linux_learn.Solcom.Codec.{Serializable, head_bytes}
use cpp_linux_learn.Solcom.Codec.Head.{InRange}
use cpp_linux_learn.Solcom.Codec.RoundTrip.{wire}
use cpp_linux_learn.Solcom.Api.{Api, uv_write, on_recv_msg, success, post_msg, idle_cb}
use cpp_linux_learn.Solcom.Api.Post.{posted_head, length-wire}
use cpp_linux_learn.Solcom.Api.Sending.{IsSendable, no_slot, queue, post_msg-room}
use cpp_linux_learn.Solcom.Api.Outgoing.{idle_cb-write_done}
use cpp_linux_learn.Solcom.Api.Receive.{Part, stream, feed}
use cpp_linux_learn.Solcom.Api.Message.{IsReceptive, IsCached}
use cpp_linux_learn.Solcom.Api.Delivery.{feed-message}

-- A message that is posted on a connected client with nothing else to send, no write under way, the
-- ring's current position at its first one and a last write that is at most three seconds old at the next
-- idle callback, is the one thing which that callback writes, in one piece; and a peer that waits for a head hands out exactly this message when
-- it receives those bytes, in any parts that end with the head and with the body.
pub post_msg-on_recv_msg :
    (junk : ℕ → ℕ) (msg : Serializable) (id rtn now : ℕ) (a peer : Api) (p q : Part)
    (ps qs : List Part)
    → IsSendable a
    → a.connected ≡ true
    → used a.send_cache ≡ 0
    → a.send_cache.current ≡ a.send_cache.head
    → a.req_busy ≡ false
    → now ≤ a.last_write + 3
    → rtn < 256
    → id < 2 ^ 64
    → IsReceptive peer
    → IsCached msg peer
    → stream (p ∷ ps) ≡ head_bytes (posted_head msg id rtn)
    → stream (q ∷ qs) ≡ wire msg
    → (b c d : Api) × (post_msg junk msg id rtn a ≡ some (b, success))
      × (idle_cb junk now b ≡ some (c, uv_write (stream (p ∷ ps) ++ stream (q ∷ qs)) ∷ []))
      × (feed junk ((p ∷ ps) ++ q ∷ qs) peer ≡ some (d, on_recv_msg msg ∷ []))
      × IsReceptive d
post_msg-on_recv_msg junk msg id rtn now a peer p q ps qs v conn none_waits cur busy recent r8 i64 r
      k e f =
    let room : used a.send_cache < a.send_cache.capacity =
      omega (arith, none_waits, capacity_bounds v.ring) in
    let (b, s, ok, waits, bytes, valid, left, ready, frame) =
      post_msg-room junk msg id rtn a v k.sized conn room in
    let waits' : queue b ≡ s ∷ [] =
      waits
      ∙ ap (λ xs. xs ++ s ∷ [])
          (ap (window no_slot a.send_cache.elements a.send_cache.capacity a.send_cache.head)
            none_waits) in
    let (c, writes_it, _, _, _) =
      idle_cb-write_done junk b s [] now 0 ready.ring
        (ap (λ x. x.send_cache.current) frame ∙ cur ∙ ap (λ x. x.send_cache.head) (sym frame))
        (ap (λ x. x.connected) frame ∙ conn) (ap (λ x. x.req_busy) frame ∙ busy)
        (subst (λ t. now ≤ t + 3) (sym (ap (λ x. x.last_write) frame)) recent) waits' valid left in
    let in_range : InRange (posted_head msg id rtn) =
      omega (arith, r8, i64, length-wire msg k.sized) in
    let (d, fed, again, _, _) =
      feed-message junk (posted_head msg id rtn) msg p q ps qs peer r k in_range refl e f in
    (
      b,
      c,
      d,
      ok,
      writes_it ∙ ap (λ bs. some (c, uv_write bs ∷ [])) (bytes ∙ sym (ap₂ ◌++◌ e f)),
      fed,
      again,
    )

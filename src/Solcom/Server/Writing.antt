-- ===== src/Solcom/Server/Writing.antt =====
-- From `postMsg` of a client of the server to the write that `writeHandle` starts.
use cpp_linux_learn.Common.{
  ◌>>=◌, ℕ, ◌≡◌, refl, ap, ap₂, sym, ◌∙◌, true, false, Option, some, List, [], ◌∷◌, ◌++◌, arith,
  inl, inr, Option-cases, get_elem?, set, get_elem?-set_self, ◌-◌, copy_out, copy_out-fits, take,
  drop,
}
use cpp_linux_learn.Solcom.Codec.{Serializable, head_bytes}
use cpp_linux_learn.Solcom.Codec.RoundTrip.{wire, IsSized}
use cpp_linux_learn.Solcom.Api.Post.{IsReady, posted_head, fill_slot_lem}
use cpp_linux_learn.Solcom.Server.{
  Client, Server, write_client, deref, posted, post_client, wevent_add, write_all, write_handle,
}

pub deref-set_self :
    (heap : List (Option Client)) (p : ℕ) (c d : Client)
    → deref heap p ≡ some c
    → deref (set heap p (some d)) p ≡ some d
deref-set_self heap p c d e = elim (Option-cases (get_elem? heap p)) [
  | inl f ↦ absurd (ground (arith, f, e))
  | inr (o, f) ↦ rw (get_elem?-set_self heap p o (some d) f) refl
]

-- A message that is posted on a connected client whose buffer is free, while no other client is
-- registered, is written by the next `writeHandle`: one write, to that client, of the head and the
-- object on the wire.
pub post_client-write_handle :
    (junk : ℕ → ℕ) (msg : Serializable) (id rtn p : ℕ) (s : Server) (c : Client)
    → deref s.heap p ≡ some c
    → c.connected ≡ true
    → c.req_pending ≡ false
    → s.stop ≡ false
    → s.list_wevent ≡ []
    → IsReady c.req_buffer
    → IsSized msg.members
    → (a b : Server) × (post_client junk msg id rtn p s ≡ some (a, posted))
      × (write_handle a
          ≡ some (b, write_client p (head_bytes (posted_head msg id rtn) ++ wire msg) ∷ []))
      × (b.list_wevent ≡ s.list_wevent_bck)
      × (b.heap ≡ a.heap)
unfolding post_client wevent_add write_handle write_all
post_client-write_handle junk msg id rtn p s c at_p conn free going none_waits r z =
    let (buffer, f, h, l) = fill_slot_lem junk msg id rtn c.req_buffer r z in
    let size : buffer.right ≡ buffer.right - buffer.left = omega (arith, l) in
    let out : copy_out buffer.chars 0 buffer.right
        ≡ some (head_bytes (posted_head msg id rtn) ++ wire msg) =
      copy_out-fits buffer.chars 0 buffer.right (omega (arith, h.valid))
      ∙ ap₂ (λ m n. some (take n (drop m buffer.chars))) (sym l) size
      ∙ ap some h.bytes in
    let c' = record c { req_buffer = buffer; req_pending = true } in
    let there : deref (set s.heap p (some c')) p ≡ some c' = deref-set_self s.heap p c c' at_p in
    let a = record s { heap = set s.heap p (some c'); list_wevent = s.list_wevent ++ p ∷ [] } in
    (
      a,
      record a { list_wevent = s.list_wevent_bck; list_wevent_bck = [] },
      ground (arith, at_p, conn, free, going, f),
      rw none_waits (rw (there, ◌>>=◌) (rw conn (rw (out, ◌>>=◌) refl))),
      refl,
      refl,
    )

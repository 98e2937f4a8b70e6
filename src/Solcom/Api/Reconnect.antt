-- ===== src/Solcom/Api/Reconnect.antt =====
-- What a new connection makes of the receive state that the last one left.
use cpp_linux_learn.Common.{
  ℕ, ◌≡◌, refl, ap, ◌∙◌, some, List, ◌∷◌, arith, inl, inr, Option-cases, length,
}
use cpp_linux_learn.Solcom.ByteArray.{init}
use cpp_linux_learn.Solcom.Codec.{recv_head, recv_body, decode_head}
use cpp_linux_learn.Solcom.Api.{Api, Event, connect_succeeded, on_complete, req_handle}
use cpp_linux_learn.Solcom.Api.Post.{IsReady}
use cpp_linux_learn.Solcom.Api.Receive.{Part, stream, feed, IsFilling, feed_lem}
use cpp_linux_learn.Solcom.Api.Message.{IsReceptive}

-- An object that waited for a head when the connection broke waits for the first byte of one on the
-- next connection, whatever part of it had come.
pub connect_succeeded-IsReceptive :
    (a : Api)
    → IsReady a.recv_buffer
    → a.recv_stat ≡ recv_head
    → IsReceptive (connect_succeeded a).0
unfolding connect_succeeded init
connect_succeeded-IsReceptive a r s = record {
  stat = s;
  need = refl;
  ready = omega (arith, r);
  at_left = refl;
  at_right = refl;
}

on_complete-recv_body :
    (junk : ℕ → ℕ) (b c : Api) (events : List Event)
    → b.recv_stat ≡ recv_body
    → on_complete junk b ≡ some (c, events)
    → (c.recv_stat ≡ recv_head) × (c.need_read ≡ 12)
unfolding on_complete
on_complete-recv_body junk b c events s e = elim (Option-cases (decode_head b.recv_buffer)) [
  | inl d ↦ absurd (ground (arith, d))
  | inr ((h, t), d) ↦ elim (Option-cases (req_handle t b)) [
    | inl q ↦ absurd (ground (arith, d, q))
    | inr (x, q) ↦ ground (arith, d, q)
  ]
]

-- One that waited for a body keeps waiting for one: it takes the first 12 bytes of the next
-- connection, which are a head, for a body, and then waits for a head once more, where the peer
-- goes on with the body.
pub connect_succeeded-recv_body :
    (junk : ℕ → ℕ) (a b : Api) (events : List Event) (p : Part) (ps : List Part)
    → IsReady a.recv_buffer
    → a.recv_stat ≡ recv_body
    → length (stream (p ∷ ps)) ≡ 12
    → feed junk (p ∷ ps) (connect_succeeded a).0 ≡ some (b, events)
    → (b.recv_stat ≡ recv_head) × (b.need_read ≡ 12)
unfolding connect_succeeded init
connect_succeeded-recv_body junk a b events p ps r s n e =
    let a' = (connect_succeeded a).0 in
    let f : IsFilling a' = record { valid = omega (arith, r); room = omega (arith, r) } in
    let (c, now, got, g) = feed_lem junk p ps a' f n in
    elim (Option-cases (on_complete junk c)) [
      | inl d ↦ absurd (ground (arith, g, d))
      | inr ((x, es), d) ↦
          let stat : c.recv_stat ≡ recv_body = ap (λ y. y.recv_stat) got.same ∙ s in
          let (h, m) = on_complete-recv_body junk c x es stat d in ground (arith, g, d, h, m)
    ]

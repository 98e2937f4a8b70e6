-- ===== src/Solcom/Server/Reading.antt =====
-- What `read_cb` of the server makes of a head and of a body.
use cpp_linux_learn.Common.{
  ℕ, ◌+◌, ◌%◌, ◌^◌, ◌≤◌, ◌≡◌, sym, ◌∙◌, some, [], ◌∷◌, ◌++◌, append-nil, arith,
}
use cpp_linux_learn.Solcom.ByteArray.{IsValid, contents, init, left_backward}
use cpp_linux_learn.Solcom.Codec.{
  recv_head, recv_body, PackageHead, head_bytes, Members, Serializable, create_object,
}
use cpp_linux_learn.Solcom.Codec.Head.{
  InRange, length-head_bytes, head_of_bytes-head_bytes, decode_head_known,
}
use cpp_linux_learn.Solcom.Codec.RoundTrip.{wire, IsSized, SameClass, deserialize_lem}
use cpp_linux_learn.Solcom.Api.Post.{IsReady}
use cpp_linux_learn.Solcom.Api.Message.{first_byte}
use cpp_linux_learn.Solcom.Server.{Client, queue_work, complete_read}

-- A complete head that announces a body for which the buffer has room: the client keeps the head
-- and waits for exactly that body.
pub complete_read-head :
    (junk : ℕ → ℕ) (fresh : Members) (p : ℕ) (h : PackageHead) (c : Client)
    → InRange h
    → IsValid c.recv_buffer
    → IsReady c.recv_buffer
    → contents c.recv_buffer ≡ head_bytes h
    → c.recv_buffer.left ≡ 0
    → h.pkg_body_len + 12 ≤ 1424
    → c.recv_stat ≡ recv_head
    → complete_read junk fresh p c
      ≡ some (record c { recv_stat = recv_body; need_read = h.pkg_body_len }, [])
unfolding complete_read left_backward
complete_read-head junk fresh p h c i v r e l small s =
    let (d, _, _) =
      decode_head_known c.recv_buffer (head_bytes h) [] v (e ∙ sym (append-nil (head_bytes h)))
        (length-head_bytes h) in
    ground (arith, d, head_of_bytes-head_bytes h i, r.large, r.roomy, l, s, small)

-- A complete body of a known class: exactly one task is queued, for the client it came from, with
-- the object that was sent, the type of the package and the lower 32 bits of its number, and the
-- client waits for the next head with an empty buffer.
pub complete_read-body :
    (junk : ℕ → ℕ) (fresh : Members) (p : ℕ) (h : PackageHead) (obj old : Serializable) (c : Client)
    → InRange h
    → IsValid c.recv_buffer
    → contents c.recv_buffer ≡ head_bytes h ++ wire obj
    → c.recv_stat ≡ recv_body
    → IsSized obj.members
    → create_object fresh obj.n_type ≡ some old
    → SameClass old.members obj.members
    → complete_read junk fresh p c
      ≡ some (
        record c {
          recv_buffer = record c.recv_buffer { right = 0; left = 0 };
          recv_stat = recv_head;
          need_read = 12;
        },
        queue_work (record {
          req_rtn_type = h.req_rtn_type;
          request_id = h.request_id % 2 ^ 32;
          client = p;
          cmd = obj;
        })
            ∷ [],
      )
unfolding complete_read init
complete_read-body junk fresh p h obj old c i v e s z made same =
    let (d, b, w) =
      decode_head_known c.recv_buffer (head_bytes h) (wire obj) v e (length-head_bytes h) in
    let body = record c.recv_buffer { left = c.recv_buffer.left + 12 } in
    let (_, got, _) = deserialize_lem obj old body [] z same w (b ∙ sym (append-nil (wire obj))) in
    ground (arith, d, s, head_of_bytes-head_bytes h i, first_byte body obj.n_type _ w b, made, got)

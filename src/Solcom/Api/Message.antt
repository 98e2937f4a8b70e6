-- ===== src/Solcom/Api/Message.antt =====
-- A whole message through `read_cb` of SolcomApi: its head, then its body.
use cpp_linux_learn.Common.{
  ℕ, ◌+◌, ◌≤◌, ◌≡◌, sym, ◌∙◌, true, some, List, [], ◌∷◌, ◌++◌, append-nil, arith, inl, inr,
  Option-cases, copy_out,
}
use cpp_linux_learn.Solcom.ByteArray.{
  ByteArray, IsValid, contents, init, left_backward, head_intercept,
}
use cpp_linux_learn.Solcom.ByteArray.Window.{head_intercept_known}
use cpp_linux_learn.Solcom.Codec.{
  recv_head, recv_body, PackageHead, head_bytes, Serializable, get_cached_obj, store_cached_obj,
}
use cpp_linux_learn.Solcom.Codec.Head.{
  InRange, length-head_bytes, head_of_bytes-head_bytes, decode_head_known,
}
use cpp_linux_learn.Solcom.Codec.RoundTrip.{wire, IsSized, SameClass, deserialize_lem}
use cpp_linux_learn.Solcom.Api.{Api, on_recv_msg, on_complete, req_handle}
use cpp_linux_learn.Solcom.Api.Post.{IsReady}

-- Between two messages: the buffer is empty and large enough, and a head is waited for.
pub record IsReceptive (a : Api) : Type 0 where
  pub stat : a.recv_stat ≡ recv_head
  pub need : a.need_read ≡ 12
  pub ready : IsReady a.recv_buffer
  pub at_left : a.recv_buffer.left ≡ 0
  pub at_right : a.recv_buffer.right ≡ 0

-- Behind a head: the buffer holds it, and `len` bytes of body are waited for.
pub record HasHead (h : PackageHead) (a : Api) : Type 0 where
  pub stat : a.recv_stat ≡ recv_body
  pub need : a.need_read ≡ h.pkg_body_len
  pub ready : IsReady a.recv_buffer
  pub at_left : a.recv_buffer.left ≡ 0
  pub at_right : a.recv_buffer.right ≡ 12
  pub bytes : contents a.recv_buffer ≡ head_bytes h

-- `a` but for what receiving changes, which is as in `b`. Nothing else of `b` differs from `a`.
abbrev pub received_as : Api → Api → Api
received_as b a = record a {
  recv_buffer = b.recv_buffer;
  recv_stat = b.recv_stat;
  need_read = b.need_read;
  last_read = b.last_read;
  obj_cache = b.obj_cache;
}

abbrev pub SameOutside : Api → Api → Type 0
SameOutside a b = b ≡ received_as b a

-- A full head: the next bytes are its body's.
pub on_complete-head :
    (junk : ℕ → ℕ) (h : PackageHead) (b : Api)
    → InRange h
    → IsValid b.recv_buffer
    → IsReady b.recv_buffer
    → contents b.recv_buffer ≡ head_bytes h
    → b.recv_buffer.left ≡ 0
    → h.pkg_body_len + 12 ≤ 1424
    → b.recv_stat ≡ recv_head
    → on_complete junk b ≡ some (record b { recv_stat = recv_body; need_read = h.pkg_body_len }, [])
unfolding on_complete left_backward
on_complete-head junk h b i v r e l small s =
    let (d, _, _) =
      decode_head_known b.recv_buffer (head_bytes h) [] v (e ∙ sym (append-nil (head_bytes h)))
        (length-head_bytes h) in
    ground (arith, d, head_of_bytes-head_bytes h i, r.large, r.roomy, l, s, small)

pub first_byte :
    (s : ByteArray) (t : ℕ) (rest : List ℕ)
    → IsValid s
    → contents s ≡ t ∷ rest
    → copy_out s.chars s.left 1 ≡ some (t ∷ [])
unfolding head_intercept
first_byte s t rest v e = elim (Option-cases (copy_out s.chars s.left 1)) [
  | inl f ↦ absurd (ground (arith, f, head_intercept_known s (t ∷ []) rest v e))
  | inr (bs, f) ↦ ground (arith, f, head_intercept_known s (t ∷ []) rest v e)
]

-- A message that `reqHandle` can give to an object of its cache.
pub record IsCached (obj : Serializable) (a : Api) : Type 0 where
  pub spi : a.has_spi ≡ true
  pub sized : IsSized obj.members
  pub old : Serializable
  pub cached : get_cached_obj a.obj_cache obj.n_type ≡ some old
  pub same_class : SameClass old.members obj.members

req_handle_lem :
    (obj : Serializable) (s : ByteArray) (a : Api)
    → IsCached obj a
    → IsValid s
    → contents s ≡ wire obj
    → req_handle s a
      ≡ some (
        record a { obj_cache = store_cached_obj a.obj_cache obj.n_type obj },
        on_recv_msg obj ∷ [],
      )
unfolding req_handle
req_handle_lem obj s a k v e =
    let (s', d, _) =
      deserialize_lem obj k.old s [] k.sized k.same_class v (e ∙ sym (append-nil (wire obj))) in
    ground (arith, k.spi, first_byte s obj.n_type _ v e, k.cached, d)

-- A full body: the message is handed out, and the object waits for the next head.
pub on_complete-body :
    (junk : ℕ → ℕ) (h : PackageHead) (obj : Serializable) (b : Api)
    → IsCached obj b
    → IsValid b.recv_buffer
    → contents b.recv_buffer ≡ head_bytes h ++ wire obj
    → b.recv_stat ≡ recv_body
    → on_complete junk b
      ≡ some (
        record b {
          obj_cache = store_cached_obj b.obj_cache obj.n_type obj;
          recv_buffer = record b.recv_buffer { right = 0; left = 0 };
          recv_stat = recv_head;
          need_read = 12;
        },
        on_recv_msg obj ∷ [],
      )
unfolding on_complete init
on_complete-body junk h obj b k v e s =
    let (d, c, w) =
      decode_head_known b.recv_buffer (head_bytes h) (wire obj) v e (length-head_bytes h) in
    ground (
      arith,
      d,
      s,
      req_handle_lem obj (record b.recv_buffer { left = b.recv_buffer.left + 12 }) b k w c,
    )

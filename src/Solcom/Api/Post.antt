-- ===== src/Solcom/Api/Post.antt =====
-- What `postMsg` of SolcomApi puts into a slot of the send cache.
use cpp_linux_learn.Common.{
  ◌>>=◌, ℕ, ◌+◌, ◌%◌, ◌^◌, ◌≤◌, ◌<◌, ◌≡◌, ap, ◌∙◌, false, some, ◌++◌, arith, length, length-append,
  ltb, sub32, inl, inr, Bool-cases, ltb→lt, length-new_block,
}
use cpp_linux_learn.Solcom.ByteArray.{
  ByteArray, IsValid, create, init, left_forward, right_forward, prepend,
}
use cpp_linux_learn.Solcom.ByteArray.Window.{Holds, prepend_lem}
use cpp_linux_learn.Solcom.Codec.{
  Members, plain, test, Serializable, PackageHead, head_bytes, data_size,
}
use cpp_linux_learn.Solcom.Codec.Head.{length-head_bytes}
use cpp_linux_learn.Solcom.Codec.RoundTrip.{wire, members_wire, IsSized, serialize_lem}
use cpp_linux_learn.Solcom.Api.{fill_slot}

-- A slot as the constructor of CByteArray leaves it, or larger.
pub record IsReady (s : ByteArray) : Type 0 where
  pub large : 1424 ≤ s.capacity
  pub roomy : 1424 ≤ length s.chars
  pub int_sized : length s.chars < 2 ^ 31

-- An array is made ready.
pub create-IsReady : (junk : ℕ → ℕ) (cap : ℕ) → cap < 2 ^ 31 → IsReady (create junk cap)
unfolding create
create-IsReady junk cap h = elim (Bool-cases (ltb 1424 cap)) [
  | inl e ↦ rw e (omega (arith, ltb→lt 1424 cap e, length-new_block junk cap))
  | inr e ↦ rw e (omega (arith, length-new_block junk 1424))
]

-- The head that `postMsg` sends in front of an object.
abbrev pub posted_head : Serializable → ℕ → ℕ → PackageHead
posted_head msg id rtn = record {
  version_id = 0;
  req_rtn_type = rtn;
  pkg_body_len = length (wire msg);
  request_id = id;
}

pub length-wire : (msg : Serializable) → IsSized msg.members → length (wire msg) ≤ 45
length-wire msg z = omega (arith, length-members msg.members z)
  where
    length-members : (m : Members) → IsSized m → 1 + length (members_wire m) ≤ 45
    length-members plain z = omega arith
    length-members (test s d i) z = omega (arith, z, length-append s (d ++ i), length-append d i)

-- A slot that was filled holds, from its first byte on, the head and the object on the wire, and is
-- as large as before.
pub fill_slot_lem :
    (junk : ℕ → ℕ) (msg : Serializable) (id rtn : ℕ) (s : ByteArray)
    → IsReady s
    → IsSized msg.members
    → (s' : ByteArray) × (fill_slot junk msg id rtn s ≡ some s')
      × Holds s (head_bytes (posted_head msg id rtn) ++ wire msg) s'
      × (s'.left ≡ 0)
unfolding fill_slot init left_forward right_forward data_size
fill_slot_lem junk msg id rtn s r z =
    let ready = record s { right = 12; left = 12 } in
    let v : IsValid ready = omega (arith, r.roomy, r.int_sized) in
    let (w, e, (h, l, q)) = serialize_lem msg ready v (omega (arith, r.roomy, length-wire msg z)) in
    let len : sub32 w.right 12 % 2 ^ 16 ≡ length (wire msg) = omega (arith, q, length-wire msg z) in
    let head = head_bytes (posted_head msg id rtn) in
    let (s', p, k, left, right) =
      prepend_lem w head h.valid (omega (arith, l, length-head_bytes (posted_head msg id rtn))) in
    (
      s',
      rw (not_small, ◌>>=◌)
          (rw (e, ◌>>=◌)
            (ap
                (λ (n : ℕ).
                  prepend (head_bytes (record (posted_head msg id rtn) { pkg_body_len = n })) w)
                len
              ∙ p)),
      record {
        valid = k.valid;
        bytes = k.bytes ∙ ap (◌++◌ head) h.bytes;
        same_size = k.same_size ∙ h.same_size;
        same_capacity = k.same_capacity ∙ h.same_capacity;
      },
      omega (arith, left, l, length-head_bytes (posted_head msg id rtn)),
    )
  where
    not_small : ltb s.capacity 28 ≡ false
    not_small = ground (arith, r.large)

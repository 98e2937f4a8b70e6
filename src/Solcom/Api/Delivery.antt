-- ===== src/Solcom/Api/Delivery.antt =====
-- From the bytes of a message, in whatever parts they come, to `onRecvMsg`.
use cpp_linux_learn.Common.{
  ◌>>=◌, ℕ, ◌+◌, ◌-◌, ◌≤◌, ◌≡◌, refl, ap, ap₂, sym, ◌∙◌, some, List, [], ◌∷◌, ◌++◌, append_assoc,
  take, drop, arith, inl, inr, Option-cases, length,
}
use cpp_linux_learn.Solcom.ByteArray.{contents}
use cpp_linux_learn.Solcom.Codec.{
  recv_head, recv_body, PackageHead, head_bytes, Serializable, SerializableCache, get_cached_obj,
  store_cached_obj,
}
use cpp_linux_learn.Solcom.Codec.Head.{InRange, length-head_bytes}
use cpp_linux_learn.Solcom.Codec.RoundTrip.{wire}
use cpp_linux_learn.Solcom.Api.{Api, Event, on_recv_msg, read_bytes}
use cpp_linux_learn.Solcom.Api.Post.{IsReady, length-wire}
use cpp_linux_learn.Solcom.Api.Receive.{Part, part_bytes, stream, feed, IsFilling, feed_lem}
use cpp_linux_learn.Solcom.Api.Message.{
  IsReceptive, HasHead, received_as, SameOutside, IsCached, on_complete-head, on_complete-body,
}

feed_head :
    (junk : ℕ → ℕ) (h : PackageHead) (p : Part) (ps : List Part) (a : Api)
    → IsReceptive a
    → InRange h
    → h.pkg_body_len + 12 ≤ 1424
    → stream (p ∷ ps) ≡ head_bytes h
    → (b : Api) × (feed junk (p ∷ ps) a ≡ some (b, []))
      × HasHead h b
      × SameOutside a b
      × (b.obj_cache ≡ a.obj_cache)
feed_head junk h p ps a k i small e =
    let size : length (stream (p ∷ ps)) ≡ 12 = ap (λ bs. length bs) e ∙ length-head_bytes h in
    let f : IsFilling a = record {
      valid = omega (arith, k);
      room = omega (arith, k, k.ready.roomy);
    } in
    let (b, now, r, g) = feed_lem junk p ps a f (size ∙ sym k.need) in
    let full : contents b.recv_buffer ≡ head_bytes h =
      r.holds.bytes ∙ ap (λ bs. bs ++ stream (p ∷ ps)) nothing ∙ e in
    let ready : IsReady b.recv_buffer = omega (arith, k.ready, r.holds) in
    let c =
      on_complete-head junk h b i r.holds.valid ready full (r.same_left ∙ k.at_left) small
        (ap (λ d. d.recv_stat) r.same ∙ k.stat) in
    let b' = record b { recv_stat = recv_body; need_read = h.pkg_body_len; last_read = now } in
    (
      b',
      g ∙ rw (c, ◌>>=◌) refl,
      record {
        stat = refl;
        need = refl;
        ready = ready;
        at_left = r.same_left ∙ k.at_left;
        at_right = omega (arith, r.longer, k.at_right, size);
        bytes = full;
      },
      ap (received_as b') r.same,
      ap (λ d. d.obj_cache) r.same,
    )
  where
    none_used : a.recv_buffer.right - a.recv_buffer.left ≡ 0
    none_used = omega (arith, k)

    nothing : contents a.recv_buffer ≡ []
    nothing = ap (λ n. take n (drop a.recv_buffer.left a.recv_buffer.chars)) none_used

feed_body :
    (junk : ℕ → ℕ) (h : PackageHead) (obj : Serializable) (p : Part) (ps : List Part) (a : Api)
    → HasHead h a
    → IsCached obj a
    → h.pkg_body_len ≡ length (wire obj)
    → stream (p ∷ ps) ≡ wire obj
    → (b : Api) × (feed junk (p ∷ ps) a ≡ some (b, on_recv_msg obj ∷ []))
      × IsReceptive b
      × SameOutside a b
      × (b.obj_cache ≡ store_cached_obj a.obj_cache obj.n_type obj)
feed_body junk h obj p ps a k q len e =
    let size : length (stream (p ∷ ps)) ≡ a.need_read =
      ap (λ bs. length bs) e ∙ sym len ∙ sym k.need in
    let f : IsFilling a = record {
      valid = omega (arith, k);
      room = omega (arith, k, k.ready.roomy, len, length-wire obj q.sized);
    } in
    let (b, now, r, g) = feed_lem junk p ps a f size in
    let full : contents b.recv_buffer ≡ head_bytes h ++ wire obj =
      r.holds.bytes ∙ ap₂ ◌++◌ k.bytes e in
    let ready : IsReady b.recv_buffer = omega (arith, k.ready, r.holds) in
    let q' : IsCached obj b = record {
      spi = ap (λ d. d.has_spi) r.same ∙ q.spi;
      sized = q.sized;
      old = q.old;
      cached = ap (λ d. get_cached_obj d.obj_cache obj.n_type) r.same ∙ q.cached;
      same_class = q.same_class;
    } in
    let c =
      on_complete-body junk h obj b q' r.holds.valid full (ap (λ d. d.recv_stat) r.same ∙ k.stat) in
    let b' = record b {
      obj_cache = store_cached_obj b.obj_cache obj.n_type obj;
      recv_buffer = record b.recv_buffer { right = 0; left = 0 };
      recv_stat = recv_head;
      need_read = 12;
      last_read = now;
    } in
    (
      b',
      g ∙ rw (c, ◌>>=◌) refl,
      record {
        stat = refl;
        need = refl;
        ready = omega (arith, ready);
        at_left = refl;
        at_right = refl;
      },
      ap (received_as b') r.same,
      ap (λ d. store_cached_obj d.obj_cache obj.n_type obj) r.same,
    )

feed-append :
    (junk : ℕ → ℕ) (ps qs : List Part) (a b c : Api) (es fs : List Event)
    → feed junk ps a ≡ some (b, es)
    → feed junk qs b ≡ some (c, fs)
    → feed junk (ps ++ qs) a ≡ some (c, es ++ fs)
unfolding feed
feed-append junk [] qs a b c es fs e f = ground (arith, e, f)
feed-append junk (p ∷ ps) qs a b c es fs e f =
    elim (Option-cases (read_bytes junk p.at (part_bytes p) a)) [
      | inl g ↦ absurd (ground (arith, g))
      | inr ((a1, es1), g) ↦ elim (Option-cases (feed junk ps a1)) [
        | inl i ↦ absurd (ground (arith, g, i))
        | inr ((b1, es2), i) ↦
            let same : (b1 ≡ b) × (es1 ++ es2 ≡ es) = ground (arith, g, i) in
            let rest = feed-append junk ps qs a1 b1 c es2 fs i (ap (feed junk qs) same.0 ∙ f) in
            rw (g, ◌>>=◌)
              (rw (rest, ◌>>=◌)
                (ap (λ x. some (c, x)) (sym (append_assoc es1 es2 fs) ∙ ap (λ x. x ++ fs) same.1)))
      ]
    ]

-- The bytes of a head, and of the object that it announces, in any parts that do not reach from
-- the one into the other, make an object that waits for a head hand out exactly that object, once,
-- and wait for the next head; nothing else about it changes but the last time of reading and the
-- cached object.
pub feed-message :
    (junk : ℕ → ℕ) (h : PackageHead) (obj : Serializable) (p q : Part) (ps qs : List Part) (a : Api)
    → IsReceptive a
    → IsCached obj a
    → InRange h
    → h.pkg_body_len ≡ length (wire obj)
    → stream (p ∷ ps) ≡ head_bytes h
    → stream (q ∷ qs) ≡ wire obj
    → (b : Api) × (feed junk ((p ∷ ps) ++ q ∷ qs) a ≡ some (b, on_recv_msg obj ∷ []))
      × IsReceptive b
      × SameOutside a b
      × (b.obj_cache ≡ store_cached_obj a.obj_cache obj.n_type obj)
feed-message junk h obj p q ps qs a r k i len e f =
    let (b, fed, has, same, cache) =
      feed_head junk h p ps a r i (omega (arith, len, length-wire obj k.sized)) e in
    let k' : IsCached obj b = record {
      spi = ap (λ d. d.has_spi) same ∙ k.spi;
      sized = k.sized;
      old = k.old;
      cached = ap (λ (d : SerializableCache). get_cached_obj d obj.n_type) cache ∙ k.cached;
      same_class = k.same_class;
    } in
    let (c, fed', r', same', cache') = feed_body junk h obj q qs b has k' len f in
    (
      c,
      feed-append junk (p ∷ ps) (q ∷ qs) a b c [] (on_recv_msg obj ∷ []) fed fed',
      r',
      same' ∙ ap (received_as c) same,
      cache' ∙ ap (λ (d : SerializableCache). store_cached_obj d obj.n_type obj) cache,
    )

-- ===== src/Solcom/Api/Receive.antt =====
-- `read_cb` of SolcomApi over a stream that arrives in parts: `alloc_cb` lets libuv read at most as
-- many bytes as are missing, so that a part never reaches beyond a head or beyond a body.
use cpp_linux_learn.Common.{
  ◌>>=◌, ℕ, ◌+◌, ◌-◌, ◌^◌, ◌≤◌, ◌<◌, ◌≡◌, refl, ap, sym, ◌∙◌, true, Option, none, some, List, [],
  ◌∷◌, ◌++◌, append-nil, append_assoc, arith, length, length-append, copy_in-fits, splice,
  length-splice, ◌%◌, ◌==◌,
}
use cpp_linux_learn.Solcom.ByteArray.{ByteArray, IsValid, contents, right_forward}
use cpp_linux_learn.Solcom.ByteArray.Window.{Holds, slice_append}
use cpp_linux_learn.Solcom.Api.{Api, Event, read_bytes, on_complete}

-- A part of the stream, with the time at which it came.
pub record Part : Type 0 where
  pub at : ℕ
  pub first : ℕ
  pub others : List ℕ

abbrev pub part_bytes : Part → List ℕ
part_bytes p = p.first ∷ p.others

abbrev pub stream : List Part → List ℕ
stream [] = []
stream (p ∷ ps) = part_bytes p ++ stream ps

-- `read_cb` for one part after the other.
unfoldable pub feed : (ℕ → ℕ) → List Part → Api → Option (Api × List Event)
feed junk [] a = some (a, [])
feed junk (p ∷ ps) a = do
  (b, events) ← read_bytes junk p.at (part_bytes p) a
  (c, later) ← feed junk ps b
  some (c, events ++ later)

-- The receive buffer has room for what is missing.
pub record IsFilling (a : Api) : Type 0 where
  pub valid : IsValid a.recv_buffer
  pub room : a.recv_buffer.right + a.need_read ≤ length a.recv_buffer.chars

-- `b` is `a` with `bs` received: the buffer has grown at the right by them.
pub record Received (bs : List ℕ) (a b : Api) : Type 0 where
  pub same :
      b ≡ record a { recv_buffer = b.recv_buffer; need_read = b.need_read; last_read = b.last_read }
  pub holds : Holds a.recv_buffer (contents a.recv_buffer ++ bs) b.recv_buffer
  pub same_left : b.recv_buffer.left ≡ a.recv_buffer.left
  pub longer : b.recv_buffer.right ≡ a.recv_buffer.right + length bs

-- What `read_cb` does with the last part of a head or a body.
abbrev pub completed : (ℕ → ℕ) → ℕ → Api → Option (Api × List Event)
completed junk now b = do
  (c, events) ← on_complete junk b
  some (record c { last_read = now }, events)

-- The buffer with `bs` behind.
abbrev pub longer_by : List ℕ → ByteArray → ByteArray
longer_by bs b = record b { chars = splice b.chars b.right bs; right = b.right + length bs }

longer_by-Holds :
    (bs : List ℕ) (b : ByteArray)
    → IsValid b
    → b.right + length bs ≤ length b.chars
    → Holds b (contents b ++ bs) (longer_by bs b)
longer_by-Holds bs b v room = record {
  valid = omega (arith, length-splice b.chars b.right bs);
  bytes = slice_append b.chars bs b.left b.right _ v.ordered refl room;
  same_size = length-splice b.chars b.right bs;
  same_capacity = refl;
}

read_bytes-last :
    (junk : ℕ → ℕ) (now : ℕ) (bs : List ℕ) (a : Api)
    → IsFilling a
    → length bs ≡ a.need_read
    → read_bytes junk now bs a
      ≡ completed junk now (record a { recv_buffer = longer_by bs a.recv_buffer })
unfolding read_bytes right_forward
read_bytes-last junk now bs a f e =
    rw (copy_in-fits a.recv_buffer.chars a.recv_buffer.right bs (omega (arith, f)), ◌>>=◌)
      (rw (whole, no_wrap) refl)
  where
    whole : (length bs == a.need_read) ≡ true
    whole = ground (arith, e)

    no_wrap : (a.recv_buffer.right + length bs) % 2 ^ 32 ≡ a.recv_buffer.right + length bs
    no_wrap = omega (arith, f, e)

read_bytes-part :
    (junk : ℕ → ℕ) (now : ℕ) (bs : List ℕ) (a : Api)
    → IsFilling a
    → length bs < a.need_read
    → read_bytes junk now bs a
      ≡ some (
        record a {
          recv_buffer = longer_by bs a.recv_buffer;
          need_read = a.need_read - length bs;
          last_read = now;
        },
        [],
      )
unfolding read_bytes right_forward
read_bytes-part junk now bs a f e =
    ground (arith, f, copy_in-fits a.recv_buffer.chars a.recv_buffer.right bs (omega (arith, f)))

abbrev moved_to : Api → Api → Api
moved_to c d = record d {
  recv_buffer = c.recv_buffer;
  need_read = c.need_read;
  last_read = c.last_read;
}

Received-trans :
    {xs ys : List ℕ} {a b c : Api} → Received xs a b → Received ys b c → Received (xs ++ ys) a c
Received-trans {xs} {ys} {a} {b} {c} r s = record {
  same = s.same ∙ ap (moved_to c) r.same;
  holds = record {
    valid = s.holds.valid;
    bytes =
        s.holds.bytes
        ∙ ap (λ zs. zs ++ ys) r.holds.bytes
        ∙ append_assoc (contents a.recv_buffer) xs ys;
    same_size = s.holds.same_size ∙ r.holds.same_size;
    same_capacity = s.holds.same_capacity ∙ r.holds.same_capacity;
  };
  same_left = s.same_left ∙ r.same_left;
  longer = omega (arith, s.longer, r.longer, length-append xs ys);
}

longer_by-Received :
    (bs : List ℕ) (a : Api) (n now : ℕ)
    → IsFilling a
    → length bs ≤ a.need_read
    → Received bs a
        (record a { recv_buffer = longer_by bs a.recv_buffer; need_read = n; last_read = now })
longer_by-Received bs a n now f h = record {
  same = refl;
  holds = longer_by-Holds bs a.recv_buffer f.valid (omega (arith, f));
  same_left = refl;
  longer = refl;
}

no_later : (o : Option (Api × List Event)) → (o >>= λ r. some (r.0, r.1 ++ [])) ≡ o
no_later none = refl
no_later (some (b, events)) = ap (λ es. some (b, es)) (append-nil events)

no_earlier : (o : Option (Api × List Event)) → (o >>= λ r. some (r.0, [] ++ r.1)) ≡ o
no_earlier none = refl
no_earlier (some r) = refl

-- However the missing bytes are cut into parts, all of them but the last are only collected, and
-- the last one completes the head or the body.
pub feed_lem :
    (junk : ℕ → ℕ) (p : Part) (ps : List Part) (a : Api)
    → IsFilling a
    → length (stream (p ∷ ps)) ≡ a.need_read
    → (b : Api) × (now : ℕ) × Received (stream (p ∷ ps)) a b
      × (feed junk (p ∷ ps) a ≡ completed junk now b)
unfolding feed
feed_lem junk p [] a f e =
    let one : part_bytes p ++ [] ≡ part_bytes p = append-nil (part_bytes p) in
    let size : length (part_bytes p) ≡ a.need_read = ap (λ bs. length bs) (sym one) ∙ e in
    let b = record a { recv_buffer = longer_by (part_bytes p) a.recv_buffer } in
    (
      b,
      p.at,
      rw one (longer_by-Received (part_bytes p) a a.need_read a.last_read f (omega (arith, size))),
      rw (read_bytes-last junk p.at (part_bytes p) a f size) (no_later (completed junk p.at b)),
    )
feed_lem junk p (q ∷ ps) a f e =
    let short : length (part_bytes p) < a.need_read =
      omega (arith, e, length-append (part_bytes p) (stream (q ∷ ps))) in
    let a' = record a {
      recv_buffer = longer_by (part_bytes p) a.recv_buffer;
      need_read = a.need_read - length (part_bytes p);
      last_read = p.at;
    } in
    let r = longer_by-Received (part_bytes p) a a'.need_read p.at f (omega (arith, short)) in
    let f' : IsFilling a' = record {
      valid = r.holds.valid;
      room = omega (arith, f.room, short, r.holds.same_size);
    } in
    let (b, now, s, g) =
      feed_lem junk q ps a' f' (omega (arith, e, length-append (part_bytes p) (stream (q ∷ ps)))) in
    (
      b,
      now,
      Received-trans r s,
      rw (read_bytes-part junk p.at (part_bytes p) a f short, ◌>>=◌)
          (no_earlier (feed junk (q ∷ ps) a') ∙ g),
    )

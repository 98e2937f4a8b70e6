-- ===== src/Solcom/Api/Flight.antt =====
-- Writes in flight. libuv reads a `uv_write_t` until it has called the callback of the write, so the
-- object must not start a second one before; `bReqWritereqBusy` is there for that.
use cpp_linux_learn.Common.{
  ℕ, ◌+◌, ◌≡◌, refl, ap, Bool, true, false, Option, some, List, [], ◌∷◌, ◌++◌, arith, inl, inr,
  Option-cases, not, ◌&&◌, if◌then◌else◌, length, copy_in,
}
use cpp_linux_learn.Solcom.ByteArray.{ByteArray, right_forward}
use cpp_linux_learn.Solcom.Codec.{decode_head}
use cpp_linux_learn.Solcom.CachedBuffer.{is_empty}
use cpp_linux_learn.Solcom.Api.{
  Api, Event, uv_write, uv_idle_stop, idle_write, idle_keep_alive, idle_cb, write_failed,
  close_connection, read_bytes, on_complete, req_handle, read_failed, connect_succeeded,
  reconnect_later,
}
use cpp_linux_learn.Solcom.Api.Idle.{idle_keep_alive-connected, idle_keep_alive_frame}

-- The number of writes among some events.
unfoldable pub writes : List Event → ℕ
writes [] = 0
writes (uv_write _ ∷ events) = 1 + writes events
writes (_ ∷ events) = writes events

writes-append : (xs ys : List Event) → writes (xs ++ ys) ≡ writes xs + writes ys
unfolding writes
writes-append [] ys = omega arith
writes-append (uv_write _ ∷ xs) ys = omega (arith, writes-append xs ys)
writes-append (Event.uv_close ∷ xs) ys = writes-append xs ys
writes-append (Event.uv_read_start ∷ xs) ys = writes-append xs ys
writes-append (Event.uv_idle_start ∷ xs) ys = writes-append xs ys
writes-append (Event.uv_idle_stop ∷ xs) ys = writes-append xs ys
writes-append (Event.uv_tcp_init ∷ xs) ys = writes-append xs ys
writes-append (Event.uv_tcp_connect ∷ xs) ys = writes-append xs ys
writes-append (Event.start_reconn_timer ∷ xs) ys = writes-append xs ys
writes-append (Event.on_connect ∷ xs) ys = writes-append xs ys
writes-append (Event.on_disconnect ∷ xs) ys = writes-append xs ys
writes-append (Event.on_recv_msg _ ∷ xs) ys = writes-append xs ys

-- From a busy flag `b`, some events with `n` writes leave the flag `b'`.
pub data WriteEffect (b b' : Bool) (n : ℕ) : Type 0 where
  silent : n ≡ 0 → b' ≡ b → WriteEffect b b' n
  starts : n ≡ 1 → b ≡ false → b' ≡ true → WriteEffect b b' n

idle_write-effect :
    (a a' : Api) (events : List Event)
    → idle_write a ≡ some (a', events)
    → WriteEffect a.req_busy a'.req_busy (writes events)
unfolding idle_write writes
idle_write-effect a a' events e = ground arith

close_connection-silent :
    (a : Api) → (writes (close_connection a).1 ≡ 0) × ((close_connection a).0.req_busy ≡ a.req_busy)
unfolding close_connection writes
close_connection-silent a = ground arith

-- A part of a step that neither writes nor touches the flag.
abbrev pub IsQuiet : Api → Api × List Event → Type 0
IsQuiet a r = (writes r.1 ≡ 0) × (r.0.req_busy ≡ a.req_busy)

close_and_reconnect-IsQuiet :
    (a : Api)
    → IsQuiet a
        ((close_connection a).0, (close_connection a).1 ++ reconnect_later (close_connection a).0)
unfolding close_connection writes
close_and_reconnect-IsQuiet a = ground arith

pub read_failed-IsQuiet : (a : Api) → IsQuiet a (read_failed a)
unfolding read_failed
read_failed-IsQuiet a = close_and_reconnect-IsQuiet a

pub write_failed-IsQuiet : (a : Api) → IsQuiet a (write_failed a)
unfolding write_failed
write_failed-IsQuiet a = close_and_reconnect-IsQuiet a

pub connect_succeeded-IsQuiet : (a : Api) → IsQuiet a (connect_succeeded a)
unfolding connect_succeeded writes
connect_succeeded-IsQuiet a = ground arith

req_handle-IsQuiet :
    (stream : ByteArray) (a : Api) (r : Api × List Event)
    → req_handle stream a ≡ some r
    → IsQuiet a r
unfolding req_handle writes
req_handle-IsQuiet stream a r e = ground arith

on_complete-IsQuiet :
    (junk : ℕ → ℕ) (a : Api) (r : Api × List Event) → on_complete junk a ≡ some r → IsQuiet a r
unfolding on_complete writes
on_complete-IsQuiet junk a r e = elim (Option-cases (decode_head a.recv_buffer)) [
  | inl d ↦ ground (arith, d)
  | inr ((head, buffer), d) ↦ elim (Option-cases (req_handle buffer a)) [
    | inl h ↦ ground (arith, d, h)
    | inr (b, h) ↦ ground (arith, d, h, req_handle-IsQuiet buffer a b h)
  ]
]

pub read_bytes-IsQuiet :
    (junk : ℕ → ℕ) (now : ℕ) (bs : List ℕ) (a : Api) (r : Api × List Event)
    → read_bytes junk now bs a ≡ some r
    → IsQuiet a r
unfolding read_bytes writes
read_bytes-IsQuiet junk now bs a r e =
    elim (Option-cases (copy_in a.recv_buffer.chars a.recv_buffer.right bs)) [
      | inl c ↦ ground (arith, c)
      | inr (chars', c) ↦
          let longer = right_forward (length bs) (record a.recv_buffer { chars = chars' }) in
          let received = record a { recv_buffer = longer } in
          elim (Option-cases (on_complete junk received)) [
            | inl d ↦ ground (arith, c, d)
            | inr (b, d) ↦ ground (arith, c, d, on_complete-IsQuiet junk received b d)
          ]
    ]

silent_self : (b : Bool) → WriteEffect b b (writes [])
unfolding writes
silent_self b = silent refl refl

may_write-effect :
    (c : Bool) (a w : Api) (events : List Event)
    → (if c then idle_write a else some (a, [])) ≡ some (w, events)
    → WriteEffect a.req_busy w.req_busy (writes events)
may_write-effect true a w events e = idle_write-effect a w events e
may_write-effect false a w events e = ground (arith, silent_self a.req_busy)

may_keep_alive-IsQuiet :
    (c : Bool) (junk : ℕ → ℕ) (now : ℕ) (a k : Api) (events : List Event)
    → (if c then idle_keep_alive junk now a else some (a, [])) ≡ some (k, events)
    → IsQuiet a (k, events)
unfolding writes
may_keep_alive-IsQuiet true junk now a k events e =
    let (_, nothing, _) = idle_keep_alive-connected junk now a k events e in
    (ap writes nothing, ap (λ b. b.req_busy) (idle_keep_alive_frame junk now a k events e))
may_keep_alive-IsQuiet false junk now a k events e = ground arith

-- The last part of `idle_cb`, which may stop the loop.
abbrev finish : Bool → Api → List Event → List Event → Option (Api × List Event)
finish c k w_events k_events =
    if c
    then some
        ((close_connection k).0, w_events ++ (k_events ++ (uv_idle_stop ∷ (close_connection k).1)))
    else some (k, w_events ++ k_events)

may_stop :
    (c : Bool) (k a' : Api) (w_events k_events events : List Event)
    → finish c k w_events k_events ≡ some (a', events)
    → writes k_events ≡ 0
    → (writes events ≡ writes w_events) × (a'.req_busy ≡ k.req_busy)
unfolding close_connection writes
may_stop true k a' w_events k_events events e z = ground (
  arith,
  writes-append w_events (k_events ++ (uv_idle_stop ∷ (close_connection k).1)),
  writes-append k_events (uv_idle_stop ∷ (close_connection k).1),
  close_connection-silent k,
)
may_stop false k a' w_events k_events events e z = ground (arith, writes-append w_events k_events)

pub idle_cb-effect :
    (junk : ℕ → ℕ) (now : ℕ) (a a' : Api) (events : List Event)
    → idle_cb junk now a ≡ some (a', events)
    → WriteEffect a.req_busy a'.req_busy (writes events)
unfolding idle_cb
idle_cb-effect junk now a a' events e =
    let writing = a.connected && not (is_empty a.send_cache) in
    elim (Option-cases (if writing then idle_write a else some (a, []))) [
      | inl f ↦ absurd (ground (arith, f))
      | inr ((w, w_events), f) ↦
          elim (Option-cases
            (if a.connected && not a.stop then idle_keep_alive junk now w else some (w, []))) [
              | inl g ↦ absurd (ground (arith, f, g))
              | inr ((k, k_events), g) ↦
                  let quiet =
                    may_keep_alive-IsQuiet (a.connected && not a.stop) junk now w k k_events g in
                  let (n, b) =
                    may_stop (k.stop && not writing) k a' w_events k_events events
                      (simp (f, g) at e) quiet.0 in
                  ground (arith, n, b, quiet.1, may_write-effect writing a w w_events f)
            ]
    ]

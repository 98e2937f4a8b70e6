-- ===== src/Solcom/Api/Steps.antt =====
-- The runs of a SolcomApi: what its users, the loop and the network make it do, in any order.
use cpp_linux_learn.Common.{ℕ, suc, ◌+◌, ◌≡◌, refl, ap, Bool, true, some, List, arith, inl, ◌⊎◌}
use cpp_linux_learn.Solcom.Codec.{Serializable}
use cpp_linux_learn.Solcom.Api.{
  Api, Event, post_msg, PostResult, idle_cb, write_failed, write_done, read_bytes, read_nothing,
  read_failed, connect_succeeded, set_stop,
}
use cpp_linux_learn.Solcom.Api.Flight.{
  writes, WriteEffect, silent, starts, idle_cb-effect, read_bytes-IsQuiet, read_failed-IsQuiet,
  write_failed-IsQuiet, connect_succeeded-IsQuiet,
}
use cpp_linux_learn.Solcom.Api.Idle.{post_msg_frame}

-- An object, and how many of its writes libuv has not called back yet.
pub record Link : Type 0 where
  pub api : Api
  pub in_flight : ℕ

-- One step: a call of a member, or of a callback. A write calls back once, with or without an
-- error; everything else may happen at any time.
pub data Step (junk : ℕ → ℕ) : Link → Link → Type 0 where
  posts :
      {a a' : Api} {n : ℕ} (msg : Serializable) (id rtn : ℕ) (r : PostResult)
      → post_msg junk msg id rtn a ≡ some (a', r)
      → Step junk (record { api = a; in_flight = n }) (record { api = a'; in_flight = n })
  idles :
      {a a' : Api} {n : ℕ} (now : ℕ) (events : List Event)
      → idle_cb junk now a ≡ some (a', events)
      → Step junk
          (record { api = a; in_flight = n })
          (record { api = a'; in_flight = n + writes events })
  writes_back :
      {a : Api} {n : ℕ} (now : ℕ)
      → Step junk
          (record { api = a; in_flight = suc n })
          (record { api = write_done now a; in_flight = n })
  writes_badly :
      {a : Api} {n : ℕ}
      → Step junk
          (record { api = a; in_flight = suc n })
          (record { api = (write_failed a).0; in_flight = n })
  reads :
      {a a' : Api} {n : ℕ} (now : ℕ) (bs : List ℕ) (events : List Event)
      → read_bytes junk now bs a ≡ some (a', events)
      → Step junk
          (record { api = a; in_flight = n })
          (record { api = a'; in_flight = n + writes events })
  reads_nothing :
      {a : Api} {n : ℕ} (now : ℕ)
      → Step junk
          (record { api = a; in_flight = n })
          (record { api = read_nothing now a; in_flight = n })
  reads_badly :
      {a : Api} {n : ℕ}
      → Step junk
          (record { api = a; in_flight = n })
          (record { api = (read_failed a).0; in_flight = n + writes (read_failed a).1 })
  connects :
      {a : Api} {n : ℕ}
      → Step junk
          (record { api = a; in_flight = n })
          (record { api = (connect_succeeded a).0; in_flight = n + writes (connect_succeeded a).1 })
  stops :
      {a : Api} {n : ℕ} (b : Bool)
      → Step junk (record { api = a; in_flight = n }) (record { api = set_stop b a; in_flight = n })

pub data Run (junk : ℕ → ℕ) : Link → Link → Type 0 where
  done : {l : Link} → Run junk l l
  then : {l m n : Link} → Run junk l m → Step junk m n → Run junk l n

-- At most one write is in flight, and only while the flag is set.
abbrev pub IsGuarded : Link → Type 0
IsGuarded l = (l.in_flight ≡ 0) ⊎ ((l.in_flight ≡ 1) × (l.api.req_busy ≡ true))

-- None is in flight, and the flag is set all the same.
abbrev pub IsStuck : Link → Type 0
IsStuck l = (l.in_flight ≡ 0) × (l.api.req_busy ≡ true)

effect-IsGuarded :
    {b b' : Bool} {n k : ℕ}
    → (n ≡ 0) ⊎ ((n ≡ 1) × (b ≡ true))
    → WriteEffect b b' k
    → (n + k ≡ 0) ⊎ ((n + k ≡ 1) × (b' ≡ true))
effect-IsGuarded g (silent z e) = ground (arith, z, e)
effect-IsGuarded g (starts o e e') = ground (arith, o, e, e')

quiet-effect : {b b' : Bool} {n : ℕ} → (n ≡ 0) × (b' ≡ b) → WriteEffect b b' n
quiet-effect (z, e) = silent z e

Step-IsGuarded : {junk : ℕ → ℕ} {l m : Link} → Step junk l m → IsGuarded l → IsGuarded m
unfolding write_done read_nothing set_stop
Step-IsGuarded {junk} (posts {a} {a'} msg id rtn r e) g =
    ground (arith, ap (λ b. b.req_busy) (post_msg_frame junk msg id rtn a a' r e))
Step-IsGuarded {junk} (idles {a} {a'} now events e) g =
    effect-IsGuarded g (idle_cb-effect junk now a a' events e)
Step-IsGuarded (writes_back now) g = ground arith
Step-IsGuarded (writes_badly {a}) g = ground (arith, write_failed-IsQuiet a)
Step-IsGuarded {junk} (reads {a} {a'} now bs events e) g =
    effect-IsGuarded g (quiet-effect (read_bytes-IsQuiet junk now bs a (a', events) e))
Step-IsGuarded (reads_nothing now) g = g
Step-IsGuarded (reads_badly {a}) g = effect-IsGuarded g (quiet-effect (read_failed-IsQuiet a))
Step-IsGuarded (connects {a}) g = effect-IsGuarded g (quiet-effect (connect_succeeded-IsQuiet a))
Step-IsGuarded (stops b) g = g

-- Whatever the users, the loop and the network do to an object that has no write in flight, it
-- never has two, and while it has one its flag is set.
pub Run-IsGuarded : {junk : ℕ → ℕ} {l m : Link} → l.in_flight ≡ 0 → Run junk l m → IsGuarded m
Run-IsGuarded z done = inl z
Run-IsGuarded z (then r s) = Step-IsGuarded s (Run-IsGuarded z r)

effect-IsStuck :
    {b b' : Bool} {n k : ℕ} → (n ≡ 0) × (b ≡ true) → WriteEffect b b' k → (n + k ≡ 0) × (b' ≡ true)
effect-IsStuck g (silent z e) = ground (arith, z, e)
effect-IsStuck g (starts o e e') = ground (arith, o, e, e')

Step-IsStuck : {junk : ℕ → ℕ} {l m : Link} → Step junk l m → IsStuck l → IsStuck m
unfolding write_done read_nothing set_stop
Step-IsStuck {junk} (posts {a} {a'} msg id rtn r e) g =
    ground (arith, ap (λ b. b.req_busy) (post_msg_frame junk msg id rtn a a' r e))
Step-IsStuck {junk} (idles {a} {a'} now events e) g =
    effect-IsStuck g (idle_cb-effect junk now a a' events e)
Step-IsStuck (writes_back now) g = absurd (omega (arith, g.0))
Step-IsStuck (writes_badly {a}) g = absurd (omega (arith, g.0))
Step-IsStuck {junk} (reads {a} {a'} now bs events e) g =
    effect-IsStuck g (quiet-effect (read_bytes-IsQuiet junk now bs a (a', events) e))
Step-IsStuck (reads_nothing now) g = g
Step-IsStuck (reads_badly {a}) g = effect-IsStuck g (quiet-effect (read_failed-IsQuiet a))
Step-IsStuck (connects {a}) g = effect-IsStuck g (quiet-effect (connect_succeeded-IsQuiet a))
Step-IsStuck (stops b) g = g

Run-IsStuck : {junk : ℕ → ℕ} {l m : Link} → IsStuck l → Run junk l m → IsStuck m
Run-IsStuck g done = g
Run-IsStuck g (then r s) = Step-IsStuck s (Run-IsStuck g r)

effect-zero : {b b' : Bool} {k : ℕ} → b ≡ true → WriteEffect b b' k → k ≡ 0
effect-zero g (silent z e) = z
effect-zero g (starts o e e') = absurd (cc (g, e))

-- When the only write in flight ends with an error, the object never writes again: in no run from
-- there, also after a new connection, does the idle callback start a write.
pub write_failed-idle_cb :
    (junk : ℕ → ℕ) (a : Api) (m : Link) (now : ℕ) (a' : Api) (events : List Event)
    → IsGuarded (record { api = a; in_flight = 1 })
    → Run junk (record { api = (write_failed a).0; in_flight = 0 }) m
    → idle_cb junk now m.api ≡ some (a', events)
    → writes events ≡ 0
write_failed-idle_cb junk a m now a' events g r e =
    let stuck : (write_failed a).0.req_busy ≡ true = ground (arith, write_failed-IsQuiet a) in
    effect-zero (Run-IsStuck (refl, stuck) r).1 (idle_cb-effect junk now m.api a' events e)

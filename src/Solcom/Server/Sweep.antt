-- ===== src/Solcom/Server/Sweep.antt =====
-- What the heart-beat timer of the server leaves.
use cpp_linux_learn.Common.{
  ◌>>=◌, ℕ, ◌≡◌, ◌≢◌, refl, ap, sym, ◌∙◌, subst, Bool, true, Option, none, some, List, [], ◌∷◌,
  ◌++◌, arith, inl, inr, Bool-cases, set, if◌then◌else◌, ◌≤◌, ◌<◌, ◌+◌, ◌^◌, leb, ltb, ◌||◌, ◌&&◌,
  not, OnSome, OnSome-bind, OnSome-some,
}
use cpp_linux_learn.Solcom.Server.{
  Client, Server, ServerEvent, deref, is_idle, sweep, hbt_timer_cb, write_all, write_handle,
}
use cpp_linux_learn.Solcom.Server.Swept.{
  Absent, IsAlive, idle_of, kept, deref-set_ne, deref-set-none, IsAlive-elsewhere, swept,
}

-- The timer callback succeeds and takes the clients that `is_idle` finds out of the map.
pub hbt_timer_cb-IsAlive :
    (now : ℕ) (s : Server)
    → IsAlive s.heap s.map_conn_client
    → (s' : Server) × (events : List ServerEvent) × (hbt_timer_cb now s ≡ some (s', events))
      × (s'.map_conn_client ≡ kept now s.heap s.map_conn_client)
      × IsAlive s'.heap s'.map_conn_client
unfolding hbt_timer_cb
hbt_timer_cb-IsAlive now s a =
    let w = swept now s.heap s.map_conn_client a in
    (
      record s { heap = w.heap'; map_conn_client = w.m' },
      w.events,
      rw (w.runs, ◌>>=◌) refl,
      w.keeps,
      w.alive,
    )

-- The last read and the last write of a client that is allocated do not lie after `now`.
abbrev pub IsPast : ℕ → Option Client → Type 0
IsPast now none = Unit {0}
IsPast now (some c) = (c.last_read ≤ now) × (c.last_write ≤ now)

abbrev pub ArePast : ℕ → List (Option Client) → List (ℕ × ℕ) → Type 0
ArePast now heap [] = Unit {0}
ArePast now heap ((key, p) ∷ m) = IsPast now (deref heap p) × ArePast now heap m

-- Whether the last read or the last write is at most 100 seconds old.
abbrev pub is_recent : ℕ → Option Client → Bool
is_recent now none = true
is_recent now (some c) = leb now (c.last_read + 100) || leb now (c.last_write + 100)

abbrev pub recent : ℕ → List (Option Client) → List (ℕ × ℕ) → List (ℕ × ℕ)
recent now heap [] = []
recent now heap ((key, p) ∷ m) =
    let rest = recent now heap m in if is_recent now (deref heap p) then (key, p) ∷ rest else rest

is_idle_lem :
    (now : ℕ) (c : Client)
    → now < 2 ^ 64
    → c.last_read ≤ now
    → c.last_write ≤ now
    → is_idle now c ≡ (ltb (c.last_read + 100) now && ltb (c.last_write + 100) now)
unfolding is_idle
is_idle_lem now c n r w = ground arith

idle_of-is_recent :
    (now : ℕ) (o : Option Client)
    → now < 2 ^ 64
    → IsPast now o
    → idle_of now o ≡ not (is_recent now o)
idle_of-is_recent now none n past = refl
idle_of-is_recent now (some c) n past = is_idle_lem now c n past.0 past.1 ∙ ground arith

kept-recent :
    (now : ℕ) (heap : List (Option Client)) (m : List (ℕ × ℕ))
    → now < 2 ^ 64
    → ArePast now heap m
    → kept now heap m ≡ recent now heap m
kept-recent now heap [] n past = refl
kept-recent now heap ((key, p) ∷ m) n past =
    ground (arith, idle_of-is_recent now (deref heap p) n past.0, kept-recent now heap m n past.1)

-- As long as the clients of the map are allocated and none of their times lies after the time `now`, the
-- timer callback succeeds and leaves in the map, in their order, exactly the clients whose last read or
-- last write is at most 100 seconds old, and these are allocated.
pub hbt_timer_cb_lem :
    (now : ℕ) (s : Server)
    → IsAlive s.heap s.map_conn_client
    → now < 2 ^ 64
    → ArePast now s.heap s.map_conn_client
    → (s' : Server) × (events : List ServerEvent) × (hbt_timer_cb now s ≡ some (s', events))
      × (s'.map_conn_client ≡ recent now s.heap s.map_conn_client)
      × IsAlive s'.heap s'.map_conn_client
hbt_timer_cb_lem now s a n past =
    let (s', events, runs, keeps, alive) = hbt_timer_cb-IsAlive now s a in
    (s', events, runs, keeps ∙ kept-recent now s.heap s.map_conn_client n past, alive)

write_all-dangling :
    (heap : List (Option Client)) (ps qs : List ℕ) (p : ℕ)
    → deref heap p ≡ none
    → write_all heap (ps ++ p ∷ qs) ≡ none
unfolding write_all
write_all-dangling heap [] qs p e = rw (e, ◌>>=◌) refl
write_all-dangling heap (q ∷ ps) qs p e = ground (arith, write_all-dangling heap ps qs p e)

Absent-middle : (q key p : ℕ) (before m : List (ℕ × ℕ)) → Absent q (before ++ (key, p) ∷ m) → p ≢ q
Absent-middle q key p [] m n = n.0
Absent-middle q key p ((k, r) ∷ before) m n = Absent-middle q key p before m n.1

-- An idle client of the map is deleted, wherever in the map it stands.
sweep-deleted :
    (now key p : ℕ) (before m : List (ℕ × ℕ)) (heap : List (Option Client)) (c : Client)
    → IsAlive heap (before ++ (key, p) ∷ m)
    → deref heap p ≡ some c
    → is_idle now c ≡ true
    → OnSome (λ r. deref r.0 p ≡ none) (sweep now heap (before ++ (key, p) ∷ m))
unfolding sweep
sweep-deleted now key p [] m heap c (_, d, rest) at_p i = OnSome-bind (deref heap p) λ c' e.
    let x = swept now (set heap p none) m (IsAlive-elsewhere heap p m d rest) in
    let gone : deref x.heap' p ≡ none = x.others p d ∙ deref-set-none heap p c at_p in
    let idle : is_idle now c' ≡ true = ground (arith, i, e, at_p) in
    rw (idle, x.runs) (OnSome-some gone)
sweep-deleted now key p ((k, q) ∷ before) m heap c ((cq, f), d, rest) at_p i =
    OnSome-bind (deref heap q) λ c' e. elim (Bool-cases (is_idle now c')) [
      | inl idle ↦
          let other = Absent-middle q key p before m d in
          let there = deref-set_ne heap q p none (λ x. other (sym x)) ∙ at_p in
          let alive = IsAlive-elsewhere heap q (before ++ (key, p) ∷ m) d rest in
          rw idle (
            OnSome-bind (sweep now (set heap q none) (before ++ (key, p) ∷ m)) λ r g.
              OnSome-some
                ((sweep-deleted now key p before m (set heap q none) c alive there i).holds r g))
      | inr idle ↦ rw idle (
          OnSome-bind (sweep now heap (before ++ (key, p) ∷ m))
            λ r g. OnSome-some ((sweep-deleted now key p before m heap c rest at_p i).holds r g))
    ]

-- A client of the map, with no time after `now`, whose last read and last write are both more than 100
-- seconds old at the timer callback and which is registered for writing, is deleted and stays registered:
-- the next `writeHandle` uses it after it was freed.
pub hbt_timer_cb-write_handle :
    (now key p : ℕ) (before m : List (ℕ × ℕ)) (ps qs : List ℕ) (c : Client) (s s' : Server)
    (events : List ServerEvent)
    → s.map_conn_client ≡ before ++ (key, p) ∷ m
    → IsAlive s.heap s.map_conn_client
    → deref s.heap p ≡ some c
    → now < 2 ^ 64
    → c.last_read + 100 < now
    → c.last_write + 100 < now
    → s.list_wevent ≡ ps ++ p ∷ qs
    → hbt_timer_cb now s ≡ some (s', events)
    → write_handle s' ≡ none
unfolding hbt_timer_cb write_handle
hbt_timer_cb-write_handle now key p before m ps qs c s s' events e a at_p n r w reg runs =
    let idle : is_idle now c ≡ true =
      is_idle_lem now c n (omega arith) (omega arith) ∙ ground arith in
    let found = subst (IsAlive s.heap) e a in
    let sweeps : OnSome (λ r. deref r.0 p ≡ none) (sweep now s.heap s.map_conn_client) =
      subst (λ l. OnSome (λ r. deref r.0 p ≡ none) (sweep now s.heap l)) (sym e)
        (sweep-deleted now key p before m s.heap c found at_p idle) in
    let after : (deref s'.heap p ≡ none) × (s'.list_wevent ≡ s.list_wevent) =
      (OnSome-bind {P = λ t. (deref t.0.heap p ≡ none) × (t.0.list_wevent ≡ s.list_wevent)}
          (sweep now s.heap s.map_conn_client) λ x g. OnSome-some (sweeps.holds x g, refl)).holds
        (s', events) runs in
    let fails : write_all s'.heap s'.list_wevent ≡ none =
      ap (write_all s'.heap) (after.1 ∙ reg) ∙ write_all-dangling s'.heap ps qs p after.0 in
    rw (fails, ◌>>=◌) refl

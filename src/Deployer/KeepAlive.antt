-- ===== src/Deployer/KeepAlive.antt =====
-- StragetyDeployer: the service's timer, and the messages that keep a session alive.
use cpp_linux_learn.Common.{
  ℕ, ◌+◌, ◌≤◌, ◌≡◌, refl, ◌∙◌, true, false, Bool-cases, inl, inr, some, List, [], ◌∷◌, arith, ltb,
  if◌then◌else◌, ◌>>=◌, ◌=ᵇ◌,
}
use cpp_linux_learn.Deployer.Protocol.{Sent, message_of, int_frame, active_push}
use cpp_linux_learn.Deployer.Protocol.Frames.{int_of_frame-int_frame}
use cpp_linux_learn.Deployer.Manager.{
  Manager, quiet, stat_init, stat_get_pattern, send, recv_handle, recv_message, on_msg_push,
}
use cpp_linux_learn.Deployer.Service.{
  Service, DispatcherClient, find_client, identify_user, is_silent, check_client, after_katime,
  katime_handle, on_keep_alive, on_recv_cmd, poll_message,
}
use cpp_linux_learn.Deployer.Serving.{IsSession, touch, poll_message-session}
use cpp_linux_learn.Deployer.Delivery.{recv_cons, recv_none}
use cpp_linux_learn.Deployer.Login.{find_client-change_client_self}
use cpp_linux_learn.Deployer.Cmd

find_client-after_katime :
    (id : List ℕ) (now : ℕ) (cs : List DispatcherClient)
    → find_client id (after_katime now cs) ≡ (find_client id cs >>= λ c. some (check_client now c))
find_client-after_katime id now [] = refl
find_client-after_katime id now (c ∷ cs) = elim (Bool-cases (c.identify =ᵇ id)) [
  | inl e ↦ rw e
  | inr e ↦ rw e (find_client-after_katime id now cs)
]

not_silent : (now : ℕ) (c : DispatcherClient) → now ≤ c.last_read + 60000 → is_silent now c ≡ false
not_silent now c h = ground arith

handle_push :
    (m : Manager)
    → m.state_machine ≡ stat_init
    → recv_handle (int_frame active_push) false m
      ≡ some (quiet (record m { msg_pattern = active_push; state_machine = stat_get_pattern }))
unfolding recv_handle
handle_push m hs = simp hs (rw (int_of_frame-int_frame 1 (omega arith)))

handle_keep_alive :
    (m : Manager)
    → m.state_machine ≡ stat_get_pattern
    → m.msg_pattern ≡ active_push
    → recv_handle (int_frame Cmd.keep_alive) true m
      ≡ some record {
        manager = record m { recv_cmd = Cmd.keep_alive; state_machine = stat_init };
        events = [];
        sends = send m.identity false ∷ send (int_frame Cmd.keep_alive) true ∷ [];
      }
unfolding recv_handle on_msg_push
handle_keep_alive m hs hp = simp (hs, hp) (rw (int_of_frame-int_frame 3 (omega arith)))

-- At a check of the timer a client is logged out exactly when its last message lies more than a minute
-- back; any other client keeps its login, and the time of the last write is set.
pub katime_handle_lem :
    (id : List ℕ) (now : ℕ) (s : Service) (c : DispatcherClient)
    → find_client id s.clients ≡ some c
    → find_client id (katime_handle now s).0.clients
      ≡ some (
          if ltb (c.last_read + 60000) now
          then record c { login = false }
          else record c { last_write = now })
unfolding katime_handle
katime_handle_lem id now s c h =
    find_client-after_katime id now s.clients
    ∙ rw (h, ◌>>=◌) (elim (Bool-cases (is_silent now c)) [ inl e ↦ rw e | inr e ↦ rw e ])

-- What the manager sends on a keep-alive, and the service when it has received that.
abbrev pub keep_alive_sends : Manager → List Sent
keep_alive_sends m = send m.identity false ∷ send (int_frame Cmd.keep_alive) true ∷ []

abbrev pub after_keep_alive : List ℕ → List ℕ → ℕ → Service → Service
after_keep_alive id router now s = on_keep_alive now id (touch id router now s)

find_client-after_keep_alive :
    (id router : List ℕ) (now : ℕ) (s : Service) (c : DispatcherClient)
    → find_client id s.clients ≡ some c
    → find_client id (after_keep_alive id router now s).clients
      ≡ some (record c { router = router; last_read = now })
unfolding on_keep_alive
find_client-after_keep_alive id router now s c h =
    find_client-change_client_self id (λ d. record d { last_read = now })
      (touch id router now s).clients (record c { router = router; last_read = now }) (λ d. refl)
      (find_client-change_client_self id (λ d. record d { router = router; last_read = now })
        s.clients c (λ d. refl) h)

-- Checks of the timer one after the other, all at most a minute after `now`.
abbrev pub after_checks : List ℕ → Service → Service
after_checks [] s = s
after_checks (t ∷ checks) s = after_checks checks (katime_handle t s).0

abbrev pub AllWithin : ℕ → List ℕ → Type 0
AllWithin now [] = Unit {0}
AllWithin now (t ∷ checks) = (t ≤ now + 60000) × AllWithin now checks

open_after_check :
    (id router : List ℕ) (t : ℕ) (s : Service) (h : IsSession id router s)
    → t ≤ h.client.last_read + 60000
    → (k : IsSession id router (katime_handle t s).0) × (k.client.last_read ≡ h.client.last_read)
unfolding katime_handle identify_user
open_after_check id router t s h within = (
  record {
    client = record h.client { last_write = t };
    known = h.known;
    found = katime_handle_lem id t s h.client h.found ∙ rw (not_silent t h.client within);
    login = h.login;
    same_router = h.same_router;
  },
  refl,
)

open_after_checks :
    (id router : List ℕ) (now : ℕ) (checks : List ℕ) (s : Service) (h : IsSession id router s)
    → h.client.last_read ≡ now
    → AllWithin now checks
    → IsSession id router (after_checks checks s)
open_after_checks id router now [] s h e within = h
open_after_checks id router now (t ∷ checks) s h e (w, within) =
    let (k, same) = open_after_check id router t s h (omega (arith, w, e)) in
    open_after_checks id router now checks (katime_handle t s).0 k (same ∙ e) within

still_open :
    (id router : List ℕ) (now : ℕ) (checks : List ℕ) (s : Service)
    → IsSession id router s
    → AllWithin now checks
    → IsSession id router (after_checks checks (after_keep_alive id router now s))
unfolding identify_user on_keep_alive
still_open id router now checks s h within =
    open_after_checks id router now checks (after_keep_alive id router now s)
      (record {
        client = record h.client { router = router; last_read = now };
        known = h.known;
        found = find_client-after_keep_alive id router now s h.client h.found;
        login = h.login;
        same_router = refl;
      })
      refl within

-- A keep-alive that the service pushes makes the manager, when no message is half read, send back one
-- message with its name. When that arrives from an open session's router at the time `now`, it is not
-- answered and submits nothing, and any number of checks of the timer within the next minute leave the
-- session open.
pub keep_alive-renews :
    (junk router : List ℕ) (now : ℕ) (checks : List ℕ) (m : Manager) (s : Service)
    → m.state_machine ≡ stat_init
    → IsSession m.identity router s
    → AllWithin now checks
    → let answer = m.identity ∷ int_frame Cmd.keep_alive ∷ [] in
      let s1 = after_keep_alive m.identity router now s in
      (recv_message (int_frame active_push ∷ int_frame Cmd.keep_alive ∷ []) m
        ≡ some record {
          manager = record m {
            msg_pattern = active_push;
            recv_cmd = Cmd.keep_alive;
            state_machine = stat_init;
          };
          events = [];
          sends = keep_alive_sends m;
        })
      × (message_of (keep_alive_sends m) ≡ some answer)
      × (poll_message junk now (router ∷ answer) s
          ≡ some record { service = s1; sends = []; tasks = [] })
      × IsSession m.identity router (after_checks checks s1)
unfolding message_of on_recv_cmd
keep_alive-renews junk router now checks m s hs h k = (
  recv_cons _ (int_frame Cmd.keep_alive ∷ []) m _ _ (handle_push m hs)
      (recv_cons _ [] _ _ _ (handle_keep_alive _ refl refl) recv_none),
  refl,
  poll_message-session junk router m.identity now Cmd.keep_alive [] s (omega arith) h,
  still_open m.identity router now checks s h k,
)

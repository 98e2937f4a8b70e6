-- ===== src/Deployer/Isolation.antt =====
-- StragetyDeployer: sessions are isolated from each other, and only a session's client makes the
-- service work for it.
use cpp_linux_learn.Common.{
  ℕ, ◌≡◌, refl, ap, sym, ◌∙◌, subst, true, false, not, ◌&&◌, Bool-cases, inl, inr, some,
  Option-cases, List, [], ◌∷◌, arith, ◌==◌, if◌then◌else◌, ◌>>=◌, ◌=ᵇ◌, eq-≡, OnSome, OnSome-bind,
  OnSome-if, OnSome-some, codes,
}
use cpp_linux_learn.Deployer.Protocol.{int_at_front}
use cpp_linux_learn.Deployer.Service.{
  Service, DispatcherClient, Step, Task, find_client, identify_user, recv_pod_object, on_req_login,
  on_recv_cmd, refuse, reqid_or_zero, reqid_at_front, serve, poll_message,
}
use cpp_linux_learn.Deployer.Serving.{IsSession}
use cpp_linux_learn.Deployer.Sessions.{owned, poll_message-IsLocal}
use cpp_linux_learn.Deployer.Cmd
use cpp_linux_learn.Deployer.Err

-- A message that bears a logged-in client's name, from elsewhere.
serve-intruder :
    (junk router : List ℕ) (now cmd : ℕ) (id : List ℕ) (fs : List (List ℕ)) (s : Service)
    (c : DispatcherClient)
    → find_client id s.clients ≡ some c
    → c.login ≡ true
    → (c.router =ᵇ router) ≡ false
    → OnSome (λ step. step.service ≡ s) (serve junk router now cmd id fs s)
serve-intruder junk router now cmd id fs s c hc hl hr =
    rw (hc, hl, hr) (OnSome-bind (reqid_or_zero fs) λ q e. OnSome-some refl)

poll_message-intruder :
    (junk router id cmd_frame : List ℕ) (now : ℕ) (fs : List (List ℕ)) (s : Service)
    (c : DispatcherClient)
    → find_client id s.clients ≡ some c
    → c.login ≡ true
    → (c.router =ᵇ router) ≡ false
    → OnSome (λ step. step.service ≡ s) (poll_message junk now (router ∷ id ∷ cmd_frame ∷ fs) s)
unfolding poll_message
poll_message-intruder junk router id cmd_frame now fs s c hc hl hr =
    OnSome-bind (int_at_front cmd_frame) λ cmd ec.
      OnSome-if (not (identify_user id s))
        (λ h. OnSome-bind (reqid_at_front fs) λ q e. OnSome-some refl)
        λ h. serve-intruder junk router now cmd id fs s c hc hl hr

-- While a client is logged in, no message from another router changes its entry, whatever the message
-- is and whatever identity it bears, the client's own included.
pub poll_message-other_router :
    (junk router id cmd_frame id0 : List ℕ) (now : ℕ) (fs : List (List ℕ)) (s : Service)
    (c : DispatcherClient) (step : Step)
    → find_client id0 s.clients ≡ some c
    → c.login ≡ true
    → (c.router =ᵇ router) ≡ false
    → poll_message junk now (router ∷ id ∷ cmd_frame ∷ fs) s ≡ some step
    → find_client id0 step.service.clients ≡ some c
poll_message-other_router junk router id cmd_frame id0 now fs s c step hc hl hr e =
    elim (Bool-cases (id =ᵇ id0)) [
      | inl same ↦
          let h1 : find_client id s.clients ≡ some c =
            ap (λ x. find_client x s.clients) (eq-≡ id id0 same) ∙ hc in
          ap (λ t. find_client id0 t.clients)
            ((poll_message-intruder junk router id cmd_frame now fs s c h1 hl hr).holds step e)
          ∙ hc
      | inr other ↦
          ((poll_message-IsLocal junk router id cmd_frame now fs s).holds step e).others id0 other
          ∙ hc
    ]

-- What is submitted by a message that reached a handler comes from an open session.
on_recv_cmd-login_tasks :
    (junk : List ℕ) (now : ℕ) (id : List ℕ) (fs : List (List ℕ)) (s : Service)
    → OnSome (λ step. step.tasks ≡ []) (on_recv_cmd junk now Cmd.login id fs s)
unfolding on_recv_cmd on_req_login
on_recv_cmd-login_tasks junk now id fs s = OnSome-bind (find_client id s.clients) λ c ec.
    OnSome-bind (recv_pod_object fs) λ x ex. elim (Bool-cases c.login) [
      | inl e ↦ rw e (OnSome-some refl)
      | inr e ↦ rw e (OnSome-some refl)
    ]

on_recv_cmd-keep_alive_tasks :
    (junk : List ℕ) (now : ℕ) (id : List ℕ) (fs : List (List ℕ)) (s : Service)
    → OnSome (λ step. step.tasks ≡ []) (on_recv_cmd junk now Cmd.keep_alive id fs s)
unfolding on_recv_cmd
on_recv_cmd-keep_alive_tasks junk now id fs s = OnSome-some refl

record IsEarned (id router : List ℕ) (s : Service) (step : Step) : Type 0 where
  earned : (t : Task) (ts : List Task) → step.tasks ≡ t ∷ ts → IsSession id router s

unearned :
    {id router : List ℕ} {s : Service} {step : Step} → step.tasks ≡ [] → IsEarned id router s step
unearned h = record { earned = λ t ts e. absurd (cc (h, e)) }

-- The commands that a client which is not logged in can get through submit nothing.
on_recv_cmd-gate :
    (junk : List ℕ) (now cmd : ℕ) (id : List ℕ) (fs : List (List ℕ)) (s : Service)
    → (not (cmd == Cmd.login) && not (cmd == Cmd.keep_alive)) ≡ false
    → OnSome (λ step. step.tasks ≡ []) (on_recv_cmd junk now cmd id fs s)
on_recv_cmd-gate junk now cmd id fs s h = elim (Bool-cases (cmd == Cmd.login)) [
  | inl e ↦
      let same : cmd ≡ Cmd.login = ground arith in
      subst (λ c. OnSome (λ step. step.tasks ≡ []) (on_recv_cmd junk now c id fs s)) (sym same)
        (on_recv_cmd-login_tasks junk now id fs s)
  | inr e ↦
      let same : cmd ≡ Cmd.keep_alive = ground arith in
      subst (λ c. OnSome (λ step. step.tasks ≡ []) (on_recv_cmd junk now c id fs s)) (sym same)
        (on_recv_cmd-keep_alive_tasks junk now id fs s)
]

gate-IsEarned :
    (junk router : List ℕ) (now cmd : ℕ) (id : List ℕ) (fs : List (List ℕ)) (s s1 s2 : Service)
    → OnSome (IsEarned id router s) (
        if not (cmd == Cmd.login) && not (cmd == Cmd.keep_alive)
        then (reqid_or_zero fs >>= λ q.
            some (refuse junk router cmd Err.no_login (codes "No-Login Error") q s1))
        else on_recv_cmd junk now cmd id fs s2)
gate-IsEarned junk router now cmd id fs s s1 s2 =
    OnSome-if (not (cmd == Cmd.login) && not (cmd == Cmd.keep_alive))
      (λ h. OnSome-bind (reqid_or_zero fs) λ q e. OnSome-some (unearned refl))
      λ h. record {
        holds = λ step e. unearned ((on_recv_cmd-gate junk now cmd id fs s2 h).holds step e);
      }

serve-IsEarned :
    (junk router : List ℕ) (now cmd : ℕ) (id : List ℕ) (fs : List (List ℕ)) (s : Service)
    → identify_user id s ≡ true
    → OnSome (IsEarned id router s) (serve junk router now cmd id fs s)
serve-IsEarned junk router now cmd id fs s known = elim (Option-cases (find_client id s.clients)) [
  | inl none_found ↦ rw none_found (gate-IsEarned junk router now cmd id fs s _ _)
  | inr (c, found) ↦ elim (Bool-cases c.login) [
    | inl login ↦
        rw (found, login)
          (OnSome-if (not (c.router =ᵇ router))
            (λ h. OnSome-bind (reqid_or_zero fs) λ q e. OnSome-some (unearned refl))
            λ h. record {
              holds = λ step e. record {
                earned = λ t ts et. record {
                  client = c;
                  known = known;
                  found = found;
                  login = login;
                  same_router = eq-≡ c.router router (ground arith);
                };
              };
            })
    | inr out ↦ rw (found, out) (gate-IsEarned junk router now cmd id fs s _ _)
  ]
]

poll_message-IsEarned :
    (junk router id cmd_frame : List ℕ) (now : ℕ) (fs : List (List ℕ)) (s : Service)
    → OnSome (IsEarned id router s) (poll_message junk now (router ∷ id ∷ cmd_frame ∷ fs) s)
unfolding poll_message
poll_message-IsEarned junk router id cmd_frame now fs s =
    OnSome-bind (int_at_front cmd_frame) λ cmd ec.
      OnSome-if (not (identify_user id s))
        (λ h. OnSome-bind (reqid_at_front fs) λ q e. OnSome-some (unearned refl))
        λ h. serve-IsEarned junk router now cmd id fs s (ground (arith, h))

-- Work is submitted to the threads only for a manager that is known, logged in, and whose message
-- comes from the router it logged in from; and the client it is submitted for is that manager.
pub poll_message-tasks_IsSession :
    (junk router id cmd_frame : List ℕ) (now : ℕ) (fs : List (List ℕ)) (s : Service) (step : Step)
    (t : Task) (ts : List Task)
    → poll_message junk now (router ∷ id ∷ cmd_frame ∷ fs) s ≡ some step
    → step.tasks ≡ t ∷ ts
    → IsSession id router s × (owned id step.tasks ≡ true)
poll_message-tasks_IsSession junk router id cmd_frame now fs s step t ts e et = (
  ((poll_message-IsEarned junk router id cmd_frame now fs s).holds step e).earned t ts et,
  ((poll_message-IsLocal junk router id cmd_frame now fs s).holds step e).owners,
)

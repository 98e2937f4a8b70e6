-- ===== src/Deployer/Login.antt =====
-- StragetyDeployer: logging in, from the manager's request to its callback and to the open session.
use cpp_linux_learn.Common.{
  ℕ, ◌^◌, ◌<◌, ◌≡◌, refl, ap, ◌∙◌, true, false, not, Bool-cases, inl, inr, some, Option-cases, List,
  [], ◌∷◌, ◌++◌, length, length-overlay, arith, ◌>>=◌, codes, ◌=ᵇ◌, eq_self,
}
use cpp_linux_learn.Deployer.Protocol.{
  Response, message_of, int_frame, response_frame, passive_response,
}
use cpp_linux_learn.Deployer.Protocol.Frames.{
  int_at_front-int_frame, response_of_frame-response_frame, IsResponse,
}
use cpp_linux_learn.Deployer.Manager.{
  Manager, rsp_login, stat_init, stat_get_pattern, req_login, recv_handle, recv_message, on_req_rsp,
}
use cpp_linux_learn.Deployer.Service.{
  Service, DispatcherClient, find_client, change_client, identify_user, with_client, find_or_create,
  respond, response_of, on_req_login, on_recv_cmd, poll_message,
}
use cpp_linux_learn.Deployer.Serving.{IsSession, touch, recv_pod_object-int_frame}
use cpp_linux_learn.Deployer.Delivery.{recv_cons, recv_none, handle_pattern}
use cpp_linux_learn.Deployer.Cmd
use cpp_linux_learn.Deployer.Err

pub find_client-change_client_self :
    (id : List ℕ) (f : DispatcherClient → DispatcherClient) (cs : List DispatcherClient)
    (c : DispatcherClient)
    → ((d : DispatcherClient) → (f d).identify ≡ d.identify)
    → find_client id cs ≡ some c
    → find_client id (change_client id f cs) ≡ some (f c)
find_client-change_client_self id f [] c k h = absurd (cc h)
find_client-change_client_self id f (d ∷ cs) c k h = elim (Bool-cases (d.identify =ᵇ id)) [
  | inl e ↦
      let same : some d ≡ some c = (rw e) ∙ h in rw e (rw (ap (λ x. x =ᵇ id) (k d) ∙ e) (cc same))
  | inr e ↦
      let later : find_client id cs ≡ some c = (rw e) ∙ h in
      rw e (rw e (find_client-change_client_self id f cs c k later))
]

-- The entry that a message's client has, made when there was none.
find_client-find_or_create :
    (id : List ℕ) (now : ℕ) (s : Service)
    → find_client id (find_or_create id now s).0.clients ≡ some (find_or_create id now s).1
find_client-find_or_create id now s = elim (Option-cases (find_client id s.clients)) [
  | inl e ↦ rw e (rw (eq_self id))
  | inr (c, e) ↦ rw e e
]

identify_user-find_or_create :
    (id name : List ℕ) (now : ℕ) (s : Service)
    → identify_user name (find_or_create id now s).0 ≡ identify_user name s
unfolding identify_user
identify_user-find_or_create id name now s = elim (Option-cases (find_client id s.clients)) [
  | inl e ↦ rw e
  | inr (c, e) ↦ rw e
]

-- The handler of a login, for a client that is not logged in.
on_req_login-opens :
    (junk id : List ℕ) (reqid : ℕ) (s : Service) (c : DispatcherClient)
    → find_client id s.clients ≡ some c
    → c.login ≡ false
    → reqid < 2 ^ 32
    → on_req_login junk id (int_frame reqid ∷ []) s
      ≡ some record {
        service = with_client id (λ d. record d { login = true }) s;
        sends =
            respond c.router
              (response_of junk Cmd.login Err.success reqid (codes "Login Successfully"));
        tasks = [];
      }
unfolding on_req_login
on_req_login-opens junk id reqid s c hc hl hq =
    rw (hc, ◌>>=◌, recv_pod_object-int_frame reqid [] hq, hl)

-- The service when a login has opened a session.
abbrev pub after_login : List ℕ → List ℕ → ℕ → Service → Service
after_login id router now s =
    with_client id (λ d. record d { login = true })
      (touch id router now (find_or_create id now s).0)

after_login-IsSession :
    (id router : List ℕ) (now : ℕ) (s : Service)
    → identify_user id s ≡ true
    → IsSession id router (after_login id router now s)
unfolding identify_user
after_login-IsSession id router now s h =
    let found = find_client-find_or_create id now s in
    let touched =
      find_client-change_client_self id (λ d. record d { router = router; last_read = now })
        (find_or_create id now s).0.clients (find_or_create id now s).1 (λ d. refl) found in
    record {
      client = record (find_or_create id now s).1 {
        router = router;
        last_read = now;
        login = true;
      };
      known = identify_user-find_or_create id id now s ∙ h;
      found =
          find_client-change_client_self id (λ d. record d { login = true })
            (touch id router now (find_or_create id now s).0).clients
            (record (find_or_create id now s).1 { router = router; last_read = now }) (λ d. refl)
            touched;
      login = refl;
      same_router = refl;
    }

poll_message-login :
    (junk router id : List ℕ) (now reqid : ℕ) (s : Service)
    → identify_user id s ≡ true
    → (find_or_create id now s).1.login ≡ false
    → reqid < 2 ^ 32
    → poll_message junk now (router ∷ id ∷ int_frame Cmd.login ∷ int_frame reqid ∷ []) s
      ≡ some record {
        service = after_login id router now s;
        sends =
            respond router
              (response_of junk Cmd.login Err.success reqid (codes "Login Successfully"));
        tasks = [];
      }
unfolding poll_message on_recv_cmd
poll_message-login junk router id now reqid s hk hl hq =
    let touched =
      find_client-change_client_self id (λ d. record d { router = router; last_read = now })
        (find_or_create id now s).0.clients (find_or_create id now s).1 (λ d. refl)
        (find_client-find_or_create id now s) in
    rw (int_at_front-int_frame Cmd.login (omega arith), ◌>>=◌, hk)
      (rw (ap not hl, hl)
        (on_req_login-opens junk id reqid (touch id router now (find_or_create id now s).0)
          (record (find_or_create id now s).1 { router = router; last_read = now }) touched hl hq))

handle_login :
    (r : Response) (m : Manager)
    → m.state_machine ≡ stat_get_pattern
    → m.msg_pattern ≡ passive_response
    → r.cmd_type ≡ Cmd.login
    → IsResponse r
    → recv_handle (response_frame r) true m
      ≡ some record {
        manager = record m { req_rsp = r; state_machine = stat_init };
        events = rsp_login r r.request_id ∷ [];
        sends = [];
      }
unfolding recv_handle on_req_rsp
handle_login r m hs hp hc hr =
    simp (hs, hp) (rw (response_of_frame-response_frame r hr, ◌>>=◌) (simp hc))

-- The manager's machine on an answer to a login.
recv_login :
    (r : Response) (m : Manager)
    → m.state_machine ≡ stat_init
    → r.cmd_type ≡ Cmd.login
    → IsResponse r
    → recv_message (int_frame passive_response ∷ response_frame r ∷ []) m
      ≡ some record {
        manager = record m {
          req_rsp = r;
          msg_pattern = passive_response;
          state_machine = stat_init;
        };
        events = rsp_login r r.request_id ∷ [];
        sends = [];
      }
recv_login r m hs hc hr =
    recv_cons _ (response_frame r ∷ []) m _ _ (handle_pattern m hs)
      (recv_cons _ [] _ _ _ (handle_login r _ refl refl hc hr) recv_none)

-- A manager with a name asks to log in. When the service knows the name and nobody is logged in under
-- it, the request's one message opens the session for the router it came from, and the answer, one message
-- back to that router, makes the manager call back the login with success and the request's number.
pub req_login-opens :
    (junk router : List ℕ) (b : ℕ) (bs : List ℕ) (now reqid : ℕ) (m : Manager) (s : Service)
    → m.connected ≡ true
    → m.state_machine ≡ stat_init
    → identify_user (b ∷ bs) s ≡ true
    → (find_or_create (b ∷ bs) now s).1.login ≡ false
    → reqid < 2 ^ 32
    → length junk ≡ 64
    → let id = b ∷ bs in
      let r = response_of junk Cmd.login Err.success reqid (codes "Login Successfully") in
      let frames = id ∷ int_frame Cmd.login ∷ int_frame reqid ∷ [] in
      let answer = int_frame passive_response ∷ response_frame r ∷ [] in
      (message_of (req_login id reqid m).sends ≡ some frames)
      × (poll_message junk now (router ∷ frames) s
          ≡ some record {
            service = after_login id router now s;
            sends = respond router r;
            tasks = [];
          })
      × (message_of (respond router r) ≡ some (router ∷ answer))
      × IsSession id router (after_login id router now s)
      × (recv_message answer m
          ≡ some record {
            manager = record m {
              req_rsp = r;
              msg_pattern = passive_response;
              state_machine = stat_init;
            };
            events = rsp_login r reqid ∷ [];
            sends = [];
          })
unfolding req_login message_of
req_login-opens junk router b bs now reqid m s hm hs hk hl hq hj =
    let r = response_of junk Cmd.login Err.success reqid (codes "Login Successfully") in
    (
      rw (ap not hm),
      poll_message-login junk router (b ∷ bs) now reqid s hk hl hq,
      refl,
      after_login-IsSession (b ∷ bs) router now s hk,
      recv_login r m hs refl (record {
        error_id = omega arith;
        err_msg = length-overlay junk (codes "Login Successfully" ++ 0 ∷ []) ∙ hj;
        request_id = hq;
        cmd_type = omega arith;
      }),
    )

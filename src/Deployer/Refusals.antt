-- ===== src/Deployer/Refusals.antt =====
-- StragetyDeployer: the messages that the service refuses, and the manager's callback for them.
use cpp_linux_learn.Common.{
  ℕ, ◌^◌, ◌<◌, ◌≡◌, refl, ap, ◌∙◌, true, false, not, some, List, [], ◌∷◌, ◌++◌, length,
  length-overlay, arith, ◌==◌, ◌>>=◌, codes, ◌=ᵇ◌,
}
use cpp_linux_learn.Deployer.Protocol.{
  Response, message_of, int_frame, response_frame, passive_response,
}
use cpp_linux_learn.Deployer.Protocol.Frames.{
  int_at_front-int_frame, response_of_frame-response_frame, IsResponse,
}
use cpp_linux_learn.Deployer.Manager.{
  Manager, stat_init, stat_get_pattern, recv_handle, recv_message, on_req_rsp,
}
use cpp_linux_learn.Deployer.Service.{
  Service, identify_user, find_or_create, respond, response_of, refuse, poll_message,
}
use cpp_linux_learn.Deployer.Serving.{recv_pod_object-int_frame}
use cpp_linux_learn.Deployer.Delivery.{recv_cons, recv_none, handle_pattern}
use cpp_linux_learn.Deployer.Cmd
use cpp_linux_learn.Deployer.Err

handle_response_last :
    (r : Response) (m : Manager)
    → m.state_machine ≡ stat_get_pattern
    → m.msg_pattern ≡ passive_response
    → IsResponse r
    → recv_handle (response_frame r) true m
      ≡ some record {
        manager = record m { req_rsp = r; state_machine = stat_init };
        events = on_req_rsp r;
        sends = [];
      }
unfolding recv_handle
handle_response_last r m hs hp hr = simp (hs, hp) (rw (response_of_frame-response_frame r hr))

abbrev pub response_message : Response → List (List ℕ)
response_message r = int_frame passive_response ∷ response_frame r ∷ []

abbrev pub after_response : Response → Manager → Manager
after_response r m = record m {
  req_rsp = r;
  msg_pattern = passive_response;
  state_machine = stat_init;
}

pub recv_response :
    (r : Response) (m : Manager)
    → m.state_machine ≡ stat_init
    → IsResponse r
    → recv_message (response_message r) m
      ≡ some record { manager = after_response r m; events = on_req_rsp r ++ []; sends = [] }
recv_response r m hs hr =
    recv_cons _ (response_frame r ∷ []) m _ _ (handle_pattern m hs)
      (recv_cons _ [] _ _ _ (handle_response_last r _ refl refl hr) recv_none)

message_of-respond :
    (router : List ℕ) (r : Response)
    → message_of (respond router r) ≡ some (router ∷ response_message r)
unfolding message_of
message_of-respond router r = refl

-- Which messages are refused, with which error and text, and the state that this leaves.
pub data IsRefused (id router : List ℕ) (now cmd : ℕ) (s : Service)
    : ℕ → List ℕ → Service → Type 0 where
  unknown :
      identify_user id s ≡ false
      → IsRefused id router now cmd s Err.identify_err (codes "Identify Error") s
  logged_out :
      identify_user id s ≡ true
      → (find_or_create id now s).1.login ≡ false
      → (cmd == Cmd.login) ≡ false
      → (cmd == Cmd.keep_alive) ≡ false
      → IsRefused id router now cmd s Err.no_login
          (codes "No-Login Error")
          (find_or_create id now s).0
  elsewhere :
      identify_user id s ≡ true
      → (find_or_create id now s).1.login ≡ true
      → ((find_or_create id now s).1.router =ᵇ router) ≡ false
      → IsRefused id router now cmd s Err.multi_login
          (codes "Multi-Login Error")
          (find_or_create id now s).0

err_lt :
    {id router : List ℕ} {now cmd : ℕ} {s : Service} {err : ℕ} {text : List ℕ} {s1 : Service}
    → IsRefused id router now cmd s err text s1
    → err < 2 ^ 32
err_lt (unknown h) = omega arith
err_lt (logged_out h l a b) = omega arith
err_lt (elsewhere h l k) = omega arith

refused :
    (junk router id : List ℕ) (now cmd reqid : ℕ) (fs : List (List ℕ)) (s : Service) (err : ℕ)
    (text : List ℕ) (s1 : Service)
    → cmd < 2 ^ 32
    → reqid < 2 ^ 32
    → IsRefused id router now cmd s err text s1
    → poll_message junk now (router ∷ id ∷ int_frame cmd ∷ int_frame reqid ∷ fs) s
      ≡ some (refuse junk router cmd err text reqid s1)
unfolding poll_message
refused junk router id now cmd reqid fs s _ _ _ hc hq (unknown h) =
    rw (int_at_front-int_frame cmd hc, ◌>>=◌, h, int_at_front-int_frame reqid hq)
refused junk router id now cmd reqid fs s _ _ _ hc hq (logged_out h l a b) =
    rw (int_at_front-int_frame cmd hc, ◌>>=◌, h, ap not l)
      (rw (ap not a, ap not b) (rw (recv_pod_object-int_frame reqid fs hq, ◌>>=◌)))
refused junk router id now cmd reqid fs s _ _ _ hc hq (elsewhere h l k) =
    rw (int_at_front-int_frame cmd hc, ◌>>=◌, h, ap not l)
      (rw (l, ap not k) (rw (recv_pod_object-int_frame reqid fs hq, ◌>>=◌)))

-- A message of a name that the table of managers does not hold, a message other than a login or a
-- keep-alive of a client that is not logged in, and any message of a client that is logged in from another
-- router, is refused: nothing is submitted, and one message goes back to where it came from, with the
-- kind of the refusal, the command and the request's number; the manager's machine takes it apart and calls
-- back. The state stays as it was, but for the entry of a client not seen before.
pub poll_message-refused :
    (junk router id : List ℕ) (now cmd reqid : ℕ) (fs : List (List ℕ)) (s : Service) (err : ℕ)
    (text : List ℕ) (s1 : Service) (m : Manager)
    → cmd < 2 ^ 32
    → reqid < 2 ^ 32
    → length junk ≡ 64
    → m.state_machine ≡ stat_init
    → IsRefused id router now cmd s err text s1
    → let r = response_of junk cmd err reqid text in
      (poll_message junk now (router ∷ id ∷ int_frame cmd ∷ int_frame reqid ∷ fs) s
        ≡ some record { service = s1; sends = respond router r; tasks = [] })
      × (message_of (respond router r) ≡ some (router ∷ response_message r))
      × (recv_message (response_message r) m
          ≡ some record { manager = after_response r m; events = on_req_rsp r ++ []; sends = [] })
poll_message-refused junk router id now cmd reqid fs s err text s1 m hc hq hj hs h = (
  refused junk router id now cmd reqid fs s err text s1 hc hq h,
  message_of-respond router (response_of junk cmd err reqid text),
  recv_response (response_of junk cmd err reqid text) m hs (record {
    error_id = err_lt h;
    err_msg = length-overlay junk (text ++ 0 ∷ []) ∙ hj;
    request_id = hq;
    cmd_type = hc;
  }),
)

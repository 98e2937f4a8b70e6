-- ===== src/Deployer/Delivery.antt =====
-- StragetyDeployer: what the service sends, as the manager receives it.
use cpp_linux_learn.Common.{
  ℕ, ◌+◌, ◌-◌, ◌^◌, ◌<◌, ◌≡◌, refl, Bool, true, false, none, some, List, [], ◌∷◌, ◌++◌, length,
  length-overlay, arith, ltb, if◌then◌else◌, ◌>>=◌,
}
use cpp_linux_learn.Deployer.Protocol.{
  Element, element_code, int_frame, response_frame, Response, message_of, passive_response, zeros64,
}
use cpp_linux_learn.Deployer.Protocol.Frames.{
  int_of_frame-int_frame, response_of_frame-response_frame, element_of-element_code,
  element_code_lt, IsResponse,
}
use cpp_linux_learn.Deployer.Manager.{
  Manager, Callback, rsp_query, Received, stat_init, stat_get_ele_type, stat_get_pattern,
  stat_get_rsp, quiet, recv_handle, recv_message, is_last, on_req_rsp_data,
}
use cpp_linux_learn.Deployer.Service.{answer, send_rows}
use cpp_linux_learn.Deployer.Cmd

-- The callbacks for the objects of an answer, the last one flagged; for an answer without objects, the one
-- with the null pointer.
abbrev object_events : Element → Response → List (List ℕ) → List Callback
object_events e r [] = []
object_events e r (o ∷ os) = rsp_query e r (some o) r.request_id (is_last os) ∷ object_events e r os

abbrev pub row_events : Element → Response → List (List ℕ) → List Callback
row_events e r [] = rsp_query e r none r.request_id true ∷ []
row_events e r (o ∷ os) = object_events e r (o ∷ os)

-- The frames of the answer to a query.
abbrev pub query_frames : Element → Response → List (List ℕ) → List (List ℕ)
query_frames e r rows =
    int_frame passive_response ∷ response_frame r ∷ int_frame (element_code e) ∷ rows

pub message_of-send_rows :
    (o : List ℕ) (os : List (List ℕ)) (n i : ℕ)
    → i + length (o ∷ os) ≡ n
    → message_of (send_rows n i (o ∷ os)) ≡ some (o ∷ os)
unfolding message_of
message_of-send_rows o [] n i h = ground arith
message_of-send_rows o (p ∷ os) n i h =
    let ih = message_of-send_rows p os n (i + 1) (omega arith) in
    let more : ltb i (n - 1) ≡ true = ground arith in rw (more, ih)

-- One object, when the machine stands behind the element's type.
handle_object :
    (e : Element) (o : List ℕ) (last : Bool) (m : Manager)
    → m.state_machine ≡ stat_get_ele_type
    → m.msg_pattern ≡ passive_response
    → m.recv_ele_type ≡ element_code e
    → m.req_rsp.cmd_type ≡ Cmd.query
    → recv_handle o last m
      ≡ some record {
        manager = record m { state_machine = if last then stat_init else stat_get_ele_type };
        events = rsp_query e m.req_rsp (some o) m.req_rsp.request_id last ∷ [];
        sends = [];
      }
unfolding recv_handle on_req_rsp_data
handle_object e o last m hs hp he hc = simp (hs, hp, he, hc, element_of-element_code e)

pub recv_none : {m : Manager} → recv_message [] m ≡ some (quiet m)
unfolding recv_message
recv_none = refl

pub recv_cons :
    (f : List ℕ) (fs : List (List ℕ)) (m : Manager) (r r2 : Received)
    → recv_handle f (is_last fs) m ≡ some r
    → recv_message fs r.manager ≡ some r2
    → recv_message (f ∷ fs) m
      ≡ some record {
        manager = r2.manager;
        events = r.events ++ r2.events;
        sends = r.sends ++ r2.sends;
      }
unfolding recv_message
recv_cons f fs m r r2 h h2 = rw (h, ◌>>=◌, h2, ◌>>=◌)

recv_objects :
    (e : Element) (o : List ℕ) (os : List (List ℕ)) (m : Manager)
    → m.state_machine ≡ stat_get_ele_type
    → m.msg_pattern ≡ passive_response
    → m.recv_ele_type ≡ element_code e
    → m.req_rsp.cmd_type ≡ Cmd.query
    → recv_message (o ∷ os) m
      ≡ some record {
        manager = record m { state_machine = stat_init };
        events = object_events e m.req_rsp (o ∷ os);
        sends = [];
      }
recv_objects e o [] m hs hp he hc =
    recv_cons o [] m _ _ (handle_object e o true m hs hp he hc) recv_none
recv_objects e o (p ∷ os) m hs hp he hc =
    recv_cons o (p ∷ os) m _ _ (handle_object e o false m hs hp he hc)
      (recv_objects e p os (record m { state_machine = stat_get_ele_type }) refl hp he hc)

pub IsResponse-answer :
    (cmd reqid : ℕ) (failed : Bool) (error ok : List ℕ)
    → cmd < 2 ^ 32
    → reqid < 2 ^ 32
    → IsResponse (answer cmd failed error ok reqid)
IsResponse-answer cmd reqid true error ok hc hq = record {
  error_id = omega arith;
  err_msg = length-overlay zeros64 _;
  request_id = hq;
  cmd_type = hc;
}
IsResponse-answer cmd reqid false error ok hc hq = record {
  error_id = omega arith;
  err_msg = length-overlay zeros64 _;
  request_id = hq;
  cmd_type = hc;
}

-- The manager when the answer has gone through its machine.
abbrev pub after_answer : Element → Response → Manager → Manager
after_answer e r m = record m {
  state_machine = stat_init;
  msg_pattern = passive_response;
  req_rsp = r;
  recv_ele_type = element_code e;
}

-- The frames before the objects, each from the state it is expected in.
pub handle_pattern :
    (m : Manager)
    → m.state_machine ≡ stat_init
    → recv_handle (int_frame passive_response) false m
      ≡ some (quiet (record m { msg_pattern = passive_response; state_machine = stat_get_pattern }))
unfolding recv_handle
handle_pattern m hs = simp hs (rw (int_of_frame-int_frame 0 (omega arith)))

handle_answer :
    (r : Response) (m : Manager)
    → m.state_machine ≡ stat_get_pattern
    → m.msg_pattern ≡ passive_response
    → IsResponse r
    → recv_handle (response_frame r) false m
      ≡ some (quiet (record m { req_rsp = r; state_machine = stat_get_rsp }))
unfolding recv_handle
handle_answer r m hs hp hr = simp (hs, hp) (rw (response_of_frame-response_frame r hr))

handle_type :
    (e : Element) (m : Manager)
    → m.state_machine ≡ stat_get_rsp
    → recv_handle (int_frame (element_code e)) false m
      ≡ some
          (quiet (record m { recv_ele_type = element_code e; state_machine = stat_get_ele_type }))
unfolding recv_handle
handle_type e m hs = simp hs (rw (int_of_frame-int_frame (element_code e) (element_code_lt e)))

handle_type_last :
    (e : Element) (m : Manager)
    → m.state_machine ≡ stat_get_rsp
    → m.req_rsp.cmd_type ≡ Cmd.query
    → recv_handle (int_frame (element_code e)) true m
      ≡ some record {
        manager = record m { recv_ele_type = element_code e; state_machine = stat_init };
        events = rsp_query e m.req_rsp none m.req_rsp.request_id true ∷ [];
        sends = [];
      }
unfolding recv_handle on_req_rsp_data
handle_type_last e m hs hc = simp hs (
    rw (int_of_frame-int_frame (element_code e) (element_code_lt e))
      (simp hc (rw (element_of-element_code e))))

recv_rows :
    (e : Element) (rows : List (List ℕ)) (m : Manager)
    → m.state_machine ≡ stat_get_rsp
    → m.msg_pattern ≡ passive_response
    → m.req_rsp.cmd_type ≡ Cmd.query
    → recv_message (int_frame (element_code e) ∷ rows) m
      ≡ some record {
        manager = record m { state_machine = stat_init; recv_ele_type = element_code e };
        events = row_events e m.req_rsp rows;
        sends = [];
      }
recv_rows e [] m hs hp hc = recv_cons _ [] m _ _ (handle_type_last e m hs hc) recv_none
recv_rows e (o ∷ os) m hs hp hc = recv_cons _ (o ∷ os) m _ _ (handle_type e m hs) (
    recv_objects e o os
      (record m { recv_ele_type = element_code e; state_machine = stat_get_ele_type }) refl hp refl
      hc)

pub recv_query_frames :
    (e : Element) (r : Response) (rows : List (List ℕ)) (m : Manager)
    → m.state_machine ≡ stat_init
    → IsResponse r
    → r.cmd_type ≡ Cmd.query
    → recv_message (query_frames e r rows) m
      ≡ some record { manager = after_answer e r m; events = row_events e r rows; sends = [] }
recv_query_frames e r rows m hs hr hc =
    recv_cons _ (response_frame r ∷ int_frame (element_code e) ∷ rows) m _ _ (handle_pattern m hs) (
      recv_cons _ (int_frame (element_code e) ∷ rows) _ _ _ (handle_answer r _ refl refl hr) (
        recv_rows e rows
          (record m { req_rsp = r; msg_pattern = passive_response; state_machine = stat_get_rsp })
          refl refl hc))

-- ===== src/Deployer/Manager/Receive.antt =====
-- StragetyDeployer/DispatcherManager.cpp, lines 214-392: the machine that takes a message apart, and
-- the loop of AsyncZmqApi.cpp, lines 142-155, that feeds it.
use cpp_linux_learn.Common.{
  ℕ, Bool, true, false, not, Option, none, some, ◌>>=◌, List, [], ◌∷◌, ◌++◌, ◌==◌, if◌then◌else◌,
}
use cpp_linux_learn.Deployer.Protocol.{
  Response, Element, element_of, Sent, int_frame, int_of_frame, response_of_frame, passive_response,
}
use cpp_linux_learn.Deployer.Manager.State.{
  RecvState, stat_init, stat_get_pattern, stat_get_cmd, stat_get_rsp, stat_get_ele_type, Manager,
  Callback, rsp_common, rsp_login, rsp_logout, rsp_deploy, rsp_finish, rsp_insert, rsp_update,
  rsp_delete, rsp_query, Received, send,
}
use cpp_linux_learn.Deployer.Cmd

-- `onReqRsp(reqRsp)`.
unfoldable pub on_req_rsp : Response → List Callback
on_req_rsp r =
    if r.cmd_type == Cmd.login
    then rsp_login r r.request_id ∷ []
    else if r.cmd_type == Cmd.logout
    then rsp_logout r r.request_id ∷ []
    else if r.cmd_type == Cmd.deploy
    then rsp_deploy r r.request_id ∷ []
    else if r.cmd_type == Cmd.finish
    then rsp_finish r r.request_id ∷ []
    else if r.cmd_type == Cmd.insert
    then rsp_insert r r.request_id ∷ []
    else if r.cmd_type == Cmd.delete
    then rsp_delete r r.request_id ∷ []
    else if r.cmd_type == Cmd.del_by_col
    then rsp_delete r r.request_id ∷ []
    else if r.cmd_type == Cmd.update
    then rsp_update r r.request_id ∷ []
    else rsp_common r r.request_id ∷ []

-- `onReqRsp(reqRsp, nEleType, data, len, bLast)`.
abbrev query_event : Response → Option (List ℕ) → Bool → Option Element → List Callback
query_event r bytes last none = []
query_event r bytes last (some e) = rsp_query e r bytes r.request_id last ∷ []

unfoldable pub on_req_rsp_data : Response → ℕ → Option (List ℕ) → Bool → List Callback
on_req_rsp_data r eletype bytes last =
    if r.cmd_type == Cmd.query then query_event r bytes last (element_of eletype) else []

-- `onMsgPush(cmd)`.
unfoldable pub on_msg_push : ℕ → Manager → List Sent
on_msg_push cmd m =
    if cmd == Cmd.keep_alive
    then send m.identity false ∷ send (int_frame Cmd.keep_alive) true ∷ []
    else []

-- `recvHandle`, a case of its switch at a time.
abbrev pub quiet : Manager → Received
quiet m = record { manager = m; events = []; sends = [] }

abbrev pub handle_init : List ℕ → Bool → Manager → Option Received
handle_init bytes last m = do
  p ← int_of_frame bytes
  some (
      quiet (record m {
        msg_pattern = p;
        state_machine = if not last then stat_get_pattern else m.state_machine;
      }))

abbrev pub handle_response : List ℕ → Bool → Manager → Option Received
handle_response bytes last m = do
  r ← response_of_frame bytes
  some record {
    manager = record m { req_rsp = r; state_machine = if last then stat_init else stat_get_rsp };
    events = if last then on_req_rsp r else [];
    sends = [];
  }

abbrev pub handle_cmd : List ℕ → Bool → Manager → Option Received
handle_cmd bytes last m = do
  c ← int_of_frame bytes
  some record {
    manager = record m { recv_cmd = c; state_machine = if last then stat_init else stat_get_cmd };
    events = [];
    sends = if last then on_msg_push c m else [];
  }

abbrev pub handle_ele_type :
    (Response → ℕ → List Callback) → List ℕ → Bool → Manager → Option Received
handle_ele_type notify bytes last m = do
  t ← int_of_frame bytes
  some record {
    manager = record m {
      recv_ele_type = t;
      state_machine = if last then stat_init else stat_get_ele_type;
    };
    events = if last then notify m.req_rsp t else [];
    sends = [];
  }

abbrev pub handle_element : List ℕ → Bool → Manager → Option Received
handle_element bytes last m = some (record {
  manager = record m { state_machine = if last then stat_init else m.state_machine };
  events =
      if m.msg_pattern == passive_response
      then on_req_rsp_data m.req_rsp m.recv_ele_type (some bytes) last
      else [];
  sends = [];
})

abbrev pub handle_in : RecvState → List ℕ → Bool → Manager → Option Received
handle_in stat_init bytes last m = handle_init bytes last m
handle_in stat_get_pattern bytes last m =
    if m.msg_pattern == passive_response
    then handle_response bytes last m
    else handle_cmd bytes last m
handle_in stat_get_cmd bytes last m = handle_ele_type (λ r t. []) bytes last m
handle_in stat_get_rsp bytes last m =
    handle_ele_type (λ r t. on_req_rsp_data r t none true) bytes last m
handle_in stat_get_ele_type bytes last m = handle_element bytes last m

unfoldable pub recv_handle : List ℕ → Bool → Manager → Option Received
recv_handle bytes last m = handle_in m.state_machine bytes last m

-- The frames of one message, handed on one by one: the last one is the one without `ZMQ_RCVMORE`.
abbrev pub is_last : List (List ℕ) → Bool
is_last [] = true
is_last (f ∷ fs) = false

unfoldable pub recv_message : List (List ℕ) → Manager → Option Received
recv_message [] m = some (quiet m)
recv_message (f ∷ fs) m = do
  r ← recv_handle f (is_last fs) m
  later ← recv_message fs r.manager
  some record {
    manager = later.manager;
    events = r.events ++ later.events;
    sends = r.sends ++ later.sends;
  }

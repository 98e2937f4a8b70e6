-- ===== src/Deployer/Manager/State.antt =====
-- StragetyDeployer/DispatcherManager.h: the manager's fields, what it reports and its callbacks.
use cpp_linux_learn.Common.{ℕ, Bool, not, Option, List}
use cpp_linux_learn.Deployer.Protocol.{Response, Element, Sent}

-- `EMsgRecvState`.
pub data RecvState : Type 0 where
  stat_init stat_get_pattern stat_get_cmd stat_get_rsp stat_get_ele_type : RecvState

-- `ERROR_SUCCESS`, `ERROR_NOCONNECT` and `ERROR_PARAMETER`.
pub data ReqError : Type 0 where
  error_success error_no_connect error_parameter : ReqError

pub record Manager : Type 0 where
  pub connected : Bool
  pub identity : List ℕ
  pub state_machine : RecvState
  pub msg_pattern : ℕ
  pub req_rsp : Response
  pub recv_cmd : ℕ
  pub recv_ele_type : ℕ

-- A request's return value, and what it sent before it returned.
pub record Request : Type 0 where
  pub code : ReqError
  pub manager : Manager
  pub sends : List Sent

-- The virtual `OnRsp…` that is called, with its arguments; in `rsp_query` the element says which
-- one, and a data pointer that is null is `none`. `push_data` is the `onMsgPush` that does nothing.
pub data Callback : Type 0 where
  rsp_common : Response → ℕ → Callback
  rsp_login : Response → ℕ → Callback
  rsp_logout : Response → ℕ → Callback
  rsp_deploy : Response → ℕ → Callback
  rsp_finish : Response → ℕ → Callback
  rsp_insert : Response → ℕ → Callback
  rsp_update : Response → ℕ → Callback
  rsp_delete : Response → ℕ → Callback
  rsp_query : Element → Response → Option (List ℕ) → ℕ → Bool → Callback

-- The state after a frame, the callbacks it led to and what was sent on the way.
pub record Received : Type 0 where
  pub manager : Manager
  pub events : List Callback
  pub sends : List Sent

-- `Send(sock, data, len, bLast)`.
abbrev pub send : List ℕ → Bool → Sent
send bytes last = record { frame = bytes; more = not last }

-- ===== src/Deployer/Service/Commands.antt =====
-- StragetyDeployer/DispatcherService.cpp, lines 240-588: what the service does with a command. The
-- client is given by its identity. `junk` is what the 64 bytes of an uninitialised `ErrMsg` hold.
use cpp_linux_learn.Common.{
  ℕ, ◌>>=◌, Bool, true, false, Option, none, some, List, [], ◌∷◌, ◌==◌, if◌then◌else◌, codes,
}
use cpp_linux_learn.Deployer.Protocol.{
  Element, manage_user, server_config, strategy_config, deploy_config, deploy_group, element_of,
  element_size, table_name, passive_response, Response, response_frame, int_frame, strcpy64, Sent,
}
use cpp_linux_learn.Deployer.Service.State.{
  Service, DispatcherClient, Step, Task, qry_by_sql, del_by_sql, ins_by_objects, del_by_objects,
  upd_by_objects, change_client, find_client,
}
use cpp_linux_learn.Deployer.Service.Frames.{
  recv_pod_object, recv_vec_object, recv_filters, statement,
}
use cpp_linux_learn.Deployer.Cmd
use cpp_linux_learn.Deployer.Err

-- `innerSendMsg(data, len, bMore)`.
abbrev pub inner_send : List ℕ → Bool → Sent
inner_send bytes more = record { frame = bytes; more = more }

-- The three sends of a response that has no elements.
abbrev pub respond : List ℕ → Response → List Sent
respond router r =
    inner_send router true
    ∷ inner_send (int_frame passive_response) true
    ∷ inner_send (response_frame r) false
    ∷ []

abbrev pub response_of : List ℕ → ℕ → ℕ → ℕ → List ℕ → Response
response_of junk cmd err reqid text = record {
  error_id = err;
  err_msg = strcpy64 junk text;
  request_id = reqid;
  cmd_type = cmd;
}

-- A change of the client with this identity.
abbrev pub with_client : List ℕ → (DispatcherClient → DispatcherClient) → Service → Service
with_client id f s = record s { clients = change_client id f s.clients }

-- `onReqLogin` and `onReqLogout`; the client is read through its pointer.
unfoldable pub on_req_login : List ℕ → List ℕ → List (List ℕ) → Service → Option Step
on_req_login junk id fs s = do
  c ← find_client id s.clients
  (reqid, rest) ← recv_pod_object fs
  some (
      if c.login
      then record {
        service = s;
        sends =
            respond c.router
              (response_of junk Cmd.login Err.replicated_login reqid (codes "Replicated Login"));
        tasks = [];
      }
      else record {
        service = with_client id (λ d. record d { login = true }) s;
        sends =
            respond c.router
              (response_of junk Cmd.login Err.success reqid (codes "Login Successfully"));
        tasks = [];
      })

unfoldable pub on_req_logout : List ℕ → List ℕ → List (List ℕ) → Service → Option Step
on_req_logout junk id fs s = do
  c ← find_client id s.clients
  (reqid, rest) ← recv_pod_object fs
  some record {
    service = with_client id (λ d. record d { login = false }) s;
    sends =
        respond c.router
          (response_of junk Cmd.logout Err.success reqid (codes "Logout Successfully"));
    tasks = [];
  }

-- `onKeepAlive`.
unfoldable pub on_keep_alive : ℕ → List ℕ → Service → Service
on_keep_alive now id s = with_client id (λ d. record d { last_read = now }) s

abbrev pub submit : Service → Task → Step
submit s task = record { service = s; sends = []; tasks = task ∷ [] }

abbrev pub skip_all : Service → Step
skip_all s = record { service = s; sends = []; tasks = [] }

-- The cases `TQuery` and `TDelByCol`: an element type outside `AllTableNames` is a read beyond it.
abbrev pub by_filters :
    List ℕ → (Element → List ℕ → List ℕ → ℕ → Task) → List ℕ → List (List ℕ) → Service → Option Step
by_filters verb task id fs s = do
  (reqid, fs1) ← recv_pod_object fs
  (eletype, fs2) ← recv_pod_object fs1
  filters ← recv_filters fs2
  e ← element_of eletype
  sql ← statement verb (table_name e) filters
  some (submit s (task e id sql reqid))

unfoldable pub on_query : List ℕ → List (List ℕ) → Service → Option Step
on_query = by_filters (codes "select * from ") qry_by_sql

unfoldable pub on_del_by_col : List ℕ → List (List ℕ) → Service → Option Step
on_del_by_col = by_filters (codes "delete from ") del_by_sql

-- `storeCacheBool<T>(true)`.
abbrev pub is_manage_user : Element → Bool
is_manage_user manage_user = true
is_manage_user server_config = false
is_manage_user strategy_config = false
is_manage_user deploy_config = false
is_manage_user deploy_group = false

abbrev pub store_cache_bool : Element → Service → Service
store_cache_bool e s = if is_manage_user e then record s { upd_manager_cache = true } else s

-- The cases `TDelete`, `TInsert` and `TUpdate`. An insertion of managers calls for a new cache as it
-- is submitted.
abbrev pub receive_objects :
    (Element → Service → Service)
    → (Element → List ℕ → List (List ℕ) → ℕ → Task)
    → List ℕ
    → ℕ
    → List (List ℕ)
    → Service
    → Option Element
    → Option Step
receive_objects flag task id reqid fs s none = some (skip_all s)
receive_objects flag task id reqid fs s (some e) = do
  objects ← recv_vec_object (element_size e) fs
  some (submit (flag e s) (task e id objects reqid))

abbrev pub by_objects :
    (Element → Service → Service)
    → (Element → List ℕ → List (List ℕ) → ℕ → Task)
    → List ℕ
    → List (List ℕ)
    → Service
    → Option Step
by_objects flag task id fs s = do
  (reqid, fs1) ← recv_pod_object fs
  (eletype, fs2) ← recv_pod_object fs1
  receive_objects flag task id reqid fs2 s (element_of eletype)

unfoldable pub on_delete : List ℕ → List (List ℕ) → Service → Option Step
on_delete = by_objects (λ e s. s) del_by_objects

unfoldable pub on_insert : List ℕ → List (List ℕ) → Service → Option Step
on_insert = by_objects store_cache_bool ins_by_objects

unfoldable pub on_update : List ℕ → List (List ℕ) → Service → Option Step
on_update = by_objects (λ e s. s) upd_by_objects

-- `onRecvCmd`; `TDeploy`, `TExecute` and `TFinish` do what the default does.
unfoldable pub on_recv_cmd : List ℕ → ℕ → ℕ → List ℕ → List (List ℕ) → Service → Option Step
on_recv_cmd junk now cmd id fs s =
    if cmd == Cmd.login
    then on_req_login junk id fs s
    else if cmd == Cmd.logout
    then on_req_logout junk id fs s
    else if cmd == Cmd.keep_alive
    then some (record { service = on_keep_alive now id s; sends = []; tasks = [] })
    else if cmd == Cmd.query
    then on_query id fs s
    else if cmd == Cmd.del_by_col
    then on_del_by_col id fs s
    else if cmd == Cmd.delete
    then on_delete id fs s
    else if cmd == Cmd.insert
    then on_insert id fs s
    else if cmd == Cmd.update
    then on_update id fs s
    else some (skip_all s)

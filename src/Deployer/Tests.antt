-- ===== src/Deployer/Tests.antt =====
-- StragetyDeployer: the theorems at concrete inputs.
use cpp_linux_learn.Common.{
  ℕ, ◌≡◌, refl, true, false, some, List, [], ◌∷◌, ◌++◌, replicate, arith, ◌>>=◌, codes,
}
use cpp_linux_learn.Deployer.Protocol.{
  manage_user, element_code, table_name, Response, message_of, int_frame, ColumnFilter,
}
use cpp_linux_learn.Deployer.Manager.{
  Manager, stat_init, error_success, req_qry_by_column_filter, req_ins_upd_del_by_eletype,
  recv_message, on_req_rsp,
}
use cpp_linux_learn.Deployer.Service.{
  relay, katime_handle, Service, DispatcherClient, Step, new_timer, qry_by_sql, ins_by_objects,
  upd_by_objects, del_by_objects, identify_user, statement, poll_message, submit, store_cache_bool,
  on_qry_by_sql, is_error, answer, respond, response_of,
}
use cpp_linux_learn.Deployer.Serving.{IsSession, touch, filter_frames}
use cpp_linux_learn.Deployer.Requests.{
  request_frames, req_qry_by_column_filter-poll_message, req_ins_upd_del_by_eletype-poll_message,
}
use cpp_linux_learn.Deployer.Delivery.{row_events, query_frames, after_answer}
use cpp_linux_learn.Deployer.Answering.{on_qry_by_sql-recv_message}
use cpp_linux_learn.Deployer.Sessions.{owned}
use cpp_linux_learn.Deployer.Isolation.{poll_message-tasks_IsSession}
use cpp_linux_learn.Deployer.Undisturbed.{OthersRun, message, timer, done, IsOpen, OthersRun-IsOpen}
use cpp_linux_learn.Deployer.Refusals.{
  IsRefused, elsewhere, response_message, after_response, poll_message-refused,
}
use cpp_linux_learn.Deployer.Cmd
use cpp_linux_learn.Deployer.Err

abbrev pub ann : List ℕ
ann = codes "ann"

abbrev pub home : List ℕ
home = 1 ∷ []

abbrev pub away : List ℕ
away = 2 ∷ []

abbrev pub junk : List ℕ
junk = replicate 64 7

abbrev pub ann_client : DispatcherClient
ann_client = record { router = home; identify = ann; last_write = 0; last_read = 0; login = true }

-- A service that knows one manager, who is logged in; and one where nobody is.
abbrev pub busy_service : Service
busy_service = record {
  clients = ann_client ∷ [];
  timer_ka = new_timer 10000 0;
  manager_cache = ann ∷ [];
  upd_manager_cache = false;
}

abbrev pub quiet_service : Service
quiet_service = record busy_service { clients = [] }

pub ann-IsSession : IsSession ann home busy_service
unfolding identify_user
ann-IsSession = record {
  client = ann_client;
  known = refl;
  found = refl;
  login = refl;
  same_router = refl;
}

abbrev pub no_response : Response
no_response = record { error_id = 0; err_msg = []; request_id = 0; cmd_type = 0 }

abbrev pub a_manager : Manager
a_manager = record {
  connected = true;
  identity = ann;
  state_machine = stat_init;
  msg_pattern = 0;
  req_rsp = no_response;
  recv_cmd = 0;
  recv_ele_type = 0;
}

abbrev pub a_filter : ColumnFilter
a_filter = record { col_name = codes "ManagerName"; col_val = codes "ann" }

abbrev pub a_user : List ℕ
a_user = replicate 128 7

on_qry_by_sql-recv_message_example :
    let r = answer Cmd.query (is_error []) [] (codes "Query Successfully") 5 in
    let frames = query_frames manage_user r (a_user ∷ a_user ∷ []) in
    ((on_qry_by_sql manage_user ann 5 (a_user ∷ a_user ∷ []) [] busy_service >>= message_of)
      ≡ some (home ∷ frames))
    × ((relay ((9 ∷ []) ∷ home ∷ frames) >>= message_of) ≡ some (home ∷ frames))
    × (recv_message frames a_manager
        ≡ some record {
          manager = after_answer manage_user r a_manager;
          events = row_events manage_user r (a_user ∷ a_user ∷ []);
          sends = [];
        })
on_qry_by_sql-recv_message_example =
    on_qry_by_sql-recv_message manage_user ann 5 (a_user ∷ a_user ∷ []) [] busy_service ann_client
      a_manager (9 ∷ []) refl (omega arith) refl

req_qry_by_column_filter-poll_message_example :
    let request = req_qry_by_column_filter (a_filter ∷ []) (element_code manage_user) 5 a_manager in
    let frames = request_frames ann Cmd.query 5 manage_user (filter_frames (a_filter ∷ [])) in
    (request.code ≡ error_success)
    × (message_of request.sends ≡ some frames)
    × (poll_message junk 9 (home ∷ frames) busy_service ≡ (
        statement (codes "select * from ") (table_name manage_user) (a_filter ∷ []) >>= λ sql.
        some (submit (touch ann home 9 busy_service) (qry_by_sql manage_user ann sql 5))))
req_qry_by_column_filter-poll_message_example =
    req_qry_by_column_filter-poll_message junk home 9 5 manage_user (a_filter ∷ []) a_manager
      busy_service refl (omega arith) ann-IsSession

req_ins_upd_del_by_eletype-poll_message_example :
    let frames = λ (c : ℕ). request_frames ann c 5 manage_user (a_user ∷ []) in
    let s1 = touch ann home 9 busy_service in
    (message_of
        (req_ins_upd_del_by_eletype
          (a_user ∷ [])
          (element_code manage_user)
          5
          Cmd.insert
          a_manager).sends
      ≡ some (frames Cmd.insert))
    × (poll_message junk 9 (home ∷ frames Cmd.insert) busy_service
        ≡ some (
            submit
              (store_cache_bool manage_user s1)
              (ins_by_objects manage_user ann (a_user ∷ []) 5)))
    × (poll_message junk 9 (home ∷ frames Cmd.update) busy_service
        ≡ some (submit s1 (upd_by_objects manage_user ann (a_user ∷ []) 5)))
    × (poll_message junk 9 (home ∷ frames Cmd.delete) busy_service
        ≡ some (submit s1 (del_by_objects manage_user ann (a_user ∷ []) 5)))
req_ins_upd_del_by_eletype-poll_message_example =
    req_ins_upd_del_by_eletype-poll_message junk home 9 5 Cmd.insert manage_user a_user [] a_manager
      busy_service refl (omega arith) refl ann-IsSession

-- An intruder's logout.
abbrev pub refused_step : Step
refused_step = record {
  service = busy_service;
  sends = respond away (response_of junk Cmd.logout Err.multi_login 5 (codes "Multi-Login Error"));
  tasks = [];
}

intruder-IsRefused :
    IsRefused ann away 9 Cmd.logout busy_service Err.multi_login
      (codes "Multi-Login Error")
      busy_service
intruder-IsRefused = elsewhere ann-IsSession.known refl refl

intruder-run :
    poll_message junk 9 (away ∷ ann ∷ int_frame Cmd.logout ∷ int_frame 5 ∷ []) busy_service
    ≡ some refused_step
intruder-run =
    (poll_message-refused junk away ann 9 Cmd.logout 5 [] busy_service Err.multi_login
      (codes "Multi-Login Error") busy_service a_manager (omega arith) (omega arith) refl refl
      intruder-IsRefused).0

ann-IsOpen : IsOpen ann home 0 busy_service
ann-IsOpen = record {
  entry = ann_client;
  found = refl;
  login = refl;
  same_router = refl;
  last_read = refl;
}

-- The intruder's logout, and a check of the timer a minute after the client was last heard of.
quiet_minute : OthersRun home 60000 busy_service (katime_handle 60000 busy_service).0
quiet_minute =
    message junk away ann (int_frame Cmd.logout) 9 (int_frame 5 ∷ []) busy_service _ refused_step
      refl intruder-run (timer 60000 busy_service _ (omega arith) (done _))

OthersRun-IsOpen_example : IsOpen ann home 0 (katime_handle 60000 busy_service).0
OthersRun-IsOpen_example =
    OthersRun-IsOpen ann home 0 60000 busy_service (katime_handle 60000 busy_service).0
      (omega arith) ann-IsOpen quiet_minute

poll_message-refused_example :
    let r = response_of junk Cmd.logout Err.multi_login 5 (codes "Multi-Login Error") in
    (poll_message junk 9 (away ∷ ann ∷ int_frame Cmd.logout ∷ int_frame 5 ∷ []) busy_service
      ≡ some record { service = busy_service; sends = respond away r; tasks = [] })
    × (message_of (respond away r) ≡ some (away ∷ response_message r))
    × (recv_message (response_message r) a_manager
        ≡ some record {
          manager = after_response r a_manager;
          events = on_req_rsp r ++ [];
          sends = [];
        })
poll_message-refused_example =
    poll_message-refused junk away ann 9 Cmd.logout 5 [] busy_service Err.multi_login
      (codes "Multi-Login Error") busy_service a_manager (omega arith) (omega arith) refl refl
      intruder-IsRefused

abbrev pub update_step : Step
update_step =
    submit (touch ann home 9 busy_service) (upd_by_objects manage_user ann (a_user ∷ []) 5)

update-run :
    poll_message junk 9
      (home ∷ request_frames ann Cmd.update 5 manage_user (a_user ∷ []))
      busy_service
    ≡ some update_step
update-run =
    (req_ins_upd_del_by_eletype-poll_message junk home 9 5 Cmd.update manage_user a_user []
      a_manager busy_service refl (omega arith) refl ann-IsSession).2

poll_message-tasks_IsSession_example :
    IsSession ann home busy_service × (owned ann update_step.tasks ≡ true)
poll_message-tasks_IsSession_example =
    poll_message-tasks_IsSession junk home ann (int_frame Cmd.update) 9
      (int_frame 5 ∷ int_frame (element_code manage_user) ∷ a_user ∷ []) busy_service update_step
      (upd_by_objects manage_user ann (a_user ∷ []) 5) [] update-run refl

-- ===== src/Deployer/AnswerTests.antt =====
-- StragetyDeployer: statements, logins, keep-alives and answers at concrete inputs.
use cpp_linux_learn.Common.{
  ◌≡◌, refl, true, false, none, some, [], ◌∷◌, ◌++◌, arith, if◌then◌else◌, codes,
}
use cpp_linux_learn.Deployer.Protocol.{
  manage_user, server_config, table_name, message_of, int_frame, response_frame, passive_response,
  active_push,
}
use cpp_linux_learn.Deployer.Manager.{
  rsp_login, rsp_insert, rsp_update, rsp_delete, stat_init, req_login, recv_message,
}
use cpp_linux_learn.Deployer.Service.{
  identify_user, statement, poll_message, respond, response_of, on_ins_by_objects,
  on_upd_by_objects, on_del_by_objects, on_del_by_sql, sprintf64, conditions,
}
use cpp_linux_learn.Deployer.Serving.{IsSession}
use cpp_linux_learn.Deployer.Filters.{all_short, clauses, statement_lem}
use cpp_linux_learn.Deployer.Login.{after_login, req_login-opens}
use cpp_linux_learn.Deployer.KeepAlive.{
  keep_alive_sends, after_checks, after_keep_alive, keep_alive-renews,
}
use cpp_linux_learn.Deployer.Refusals.{response_message, after_response}
use cpp_linux_learn.Deployer.Replies.{expected, with_call, on_ins_by_objects-recv_message}
use cpp_linux_learn.Deployer.Cmd
use cpp_linux_learn.Deployer.Err
use cpp_linux_learn.Deployer.Tests.{
  ann, home, junk, ann_client, busy_service, quiet_service, a_manager, a_filter, ann-IsSession,
}

statement_lem_example :
    (statement (codes "select * from ") (table_name server_config) (a_filter ∷ []) ≡ (
      if all_short (a_filter ∷ [])
      then some (
          codes "select * from "
          ++ (table_name server_config
              ++ (codes " where 1=1" ++ (clauses (a_filter ∷ []) ++ codes ";"))))
      else none))
    × (statement (codes "delete from ") (table_name server_config) (a_filter ∷ []) ≡ (
        if all_short (a_filter ∷ [])
        then some (
            codes "delete from "
            ++ (table_name server_config
                ++ (codes " where 1=1" ++ (clauses (a_filter ∷ []) ++ codes ";"))))
        else none))
statement_lem_example = statement_lem server_config (a_filter ∷ [])

a_statement :
    statement (codes "select * from ") (table_name manage_user) (a_filter ∷ [])
    ≡ some (codes "select * from ManageUser where 1=1 and ManagerName=\"ann\";")
unfolding statement sprintf64 conditions
a_statement = refl

ann-known : identify_user ann quiet_service ≡ true
unfolding identify_user
ann-known = refl

req_login-opens_example :
    let r = response_of junk Cmd.login Err.success 5 (codes "Login Successfully") in
    let frames = ann ∷ int_frame Cmd.login ∷ int_frame 5 ∷ [] in
    let reply = int_frame passive_response ∷ response_frame r ∷ [] in
    (message_of (req_login ann 5 a_manager).sends ≡ some frames)
    × (poll_message junk 9 (home ∷ frames) quiet_service
        ≡ some record {
          service = after_login ann home 9 quiet_service;
          sends = respond home r;
          tasks = [];
        })
    × (message_of (respond home r) ≡ some (home ∷ reply))
    × IsSession ann home (after_login ann home 9 quiet_service)
    × (recv_message reply a_manager
        ≡ some record {
          manager = record a_manager {
            req_rsp = r;
            msg_pattern = passive_response;
            state_machine = stat_init;
          };
          events = rsp_login r 5 ∷ [];
          sends = [];
        })
req_login-opens_example =
    req_login-opens junk home 97 (110 ∷ 110 ∷ []) 9 5 a_manager quiet_service refl refl ann-known
      refl (omega arith) refl

keep_alive-renews_example :
    let reply = ann ∷ int_frame Cmd.keep_alive ∷ [] in
    let s1 = after_keep_alive ann home 9 busy_service in
    (recv_message (int_frame active_push ∷ int_frame Cmd.keep_alive ∷ []) a_manager
      ≡ some record {
        manager = record a_manager {
          msg_pattern = active_push;
          recv_cmd = Cmd.keep_alive;
          state_machine = stat_init;
        };
        events = [];
        sends = keep_alive_sends a_manager;
      })
    × (message_of (keep_alive_sends a_manager) ≡ some reply)
    × (poll_message junk 9 (home ∷ reply) busy_service
        ≡ some record { service = s1; sends = []; tasks = [] })
    × IsSession ann home (after_checks (30009 ∷ 60009 ∷ []) s1)
keep_alive-renews_example =
    keep_alive-renews junk home 9 (30009 ∷ 60009 ∷ []) a_manager busy_service refl ann-IsSession
      (omega arith, (omega arith, tt))

on_ins_by_objects-recv_message_example :
    let s1 = with_call manage_user false busy_service in
    let r1 = expected Cmd.insert false [] (codes "Insert Successfully") 5 in
    let r2 = expected Cmd.update false [] (codes "Update Successfully") 5 in
    let r3 = expected Cmd.delete false [] (codes "Delete Successfully") 5 in
    let r4 = expected Cmd.del_by_col false [] (codes "Delete Successfully") 5 in
    (on_ins_by_objects manage_user ann 5 false [] busy_service
      ≡ some record { service = s1; sends = respond home r1; tasks = [] })
    × (recv_message (response_message r1) a_manager
        ≡ some record {
          manager = after_response r1 a_manager;
          events = rsp_insert r1 5 ∷ [];
          sends = [];
        })
    × (on_upd_by_objects manage_user ann 5 false [] busy_service
        ≡ some record { service = s1; sends = respond home r2; tasks = [] })
    × (recv_message (response_message r2) a_manager
        ≡ some record {
          manager = after_response r2 a_manager;
          events = rsp_update r2 5 ∷ [];
          sends = [];
        })
    × (on_del_by_objects manage_user ann 5 false [] busy_service
        ≡ some record { service = s1; sends = respond home r3; tasks = [] })
    × (recv_message (response_message r3) a_manager
        ≡ some record {
          manager = after_response r3 a_manager;
          events = rsp_delete r3 5 ∷ [];
          sends = [];
        })
    × (on_del_by_sql manage_user ann 5 false [] busy_service
        ≡ some record { service = s1; sends = respond home r4; tasks = [] })
    × (recv_message (response_message r4) a_manager
        ≡ some record {
          manager = after_response r4 a_manager;
          events = rsp_delete r4 5 ∷ [];
          sends = [];
        })
on_ins_by_objects-recv_message_example =
    on_ins_by_objects-recv_message manage_user ann 5 false [] busy_service ann_client a_manager refl
      (omega arith) refl

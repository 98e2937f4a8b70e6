-- ===== src/Deployer/Manager/Requests.antt =====
-- StragetyDeployer/DispatcherManager.cpp, lines 36-150, and DispatcherManager.h, lines 72-93: the
-- requests. `cmd` is the command's int where the source leaves it to its caller.
use cpp_linux_learn.Common.{
  ℕ, ◌+◌, ◌-◌, Bool, true, false, not, List, [], ◌∷◌, length, ◌==◌, if◌then◌else◌,
}
use cpp_linux_learn.Deployer.Protocol.{Sent, ColumnFilter, deploy_group, element_code, int_frame}
use cpp_linux_learn.Deployer.Manager.State.{
  Manager, Request, error_success, error_no_connect, error_parameter, send,
}
use cpp_linux_learn.Deployer.Cmd

-- The guard that the requests begin with.
abbrev pub when_connected : Manager → List Sent → Request
when_connected m sends =
    if not m.connected
    then record { code = error_no_connect; manager = m; sends = [] }
    else record { code = error_success; manager = m; sends = sends }

abbrev no_name {ℓ} : {A : Type ℓ} → List A → Bool
no_name [] = true
no_name (x ∷ xs) = false

unfoldable pub req_login : List ℕ → ℕ → Manager → Request
req_login id reqid m =
    if no_name id
    then record { code = error_parameter; manager = m; sends = [] }
    else if not m.connected
    then record { code = error_no_connect; manager = m; sends = [] }
    else record {
      code = error_success;
      manager = record m { identity = id };
      sends = send id false ∷ send (int_frame Cmd.login) false ∷ send (int_frame reqid) true ∷ [];
    }

unfoldable pub req_logout : ℕ → Manager → Request
req_logout reqid m =
    when_connected m
      (send m.identity false ∷ send (int_frame Cmd.logout) false ∷ send (int_frame reqid) true ∷ [])

-- The loops over `filterVec` and over the objects, from index `i` on.
abbrev pub send_filters : ℕ → ℕ → List ColumnFilter → List Sent
send_filters n i [] = []
send_filters n i (f ∷ fs) =
    send f.col_name false ∷ send f.col_val (i == n - 1) ∷ send_filters n (i + 1) fs

abbrev pub send_objects : ℕ → ℕ → List (List ℕ) → List Sent
send_objects n i [] = []
send_objects n i (o ∷ os) = send o (i == n - 1) ∷ send_objects n (i + 1) os

abbrev pub req_by_filter : ℕ → List ColumnFilter → ℕ → ℕ → Manager → Request
req_by_filter cmd filters eletype reqid m = when_connected m (
    send m.identity false
    ∷ send (int_frame cmd) false
    ∷ send (int_frame reqid) false
    ∷ send (int_frame eletype) (length filters == 0)
    ∷ send_filters (length filters) 0 filters)

unfoldable pub req_qry_by_column_filter : List ColumnFilter → ℕ → ℕ → Manager → Request
req_qry_by_column_filter = req_by_filter Cmd.query

unfoldable pub req_del_by_column_filter : List ColumnFilter → ℕ → ℕ → Manager → Request
req_del_by_column_filter = req_by_filter Cmd.del_by_col

unfoldable pub req_ins_upd_del_by_eletype : List (List ℕ) → ℕ → ℕ → ℕ → Manager → Request
req_ins_upd_del_by_eletype objects eletype reqid cmd m =
    if length objects == 0
    then record { code = error_parameter; manager = m; sends = [] }
    else when_connected m (
        send m.identity false
        ∷ send (int_frame cmd) false
        ∷ send (int_frame reqid) false
        ∷ send (int_frame eletype) false
        ∷ send_objects (length objects) 0 objects)

-- `junk` is what the uninitialised `cmd` holds.
abbrev action_cmd : ℕ → ℕ → ℕ
action_cmd junk act =
    if act == 0
    then Cmd.deploy
    else if act == 1
    then Cmd.execute
    else if act == 2
    then Cmd.finish
    else junk

unfoldable pub req_deploy_execute_finish : ℕ → List (List ℕ) → ℕ → ℕ → Manager → Request
req_deploy_execute_finish junk groups reqid act m = when_connected m (
    send m.identity false
    ∷ send (int_frame (action_cmd junk act)) false
    ∷ send (int_frame reqid) false
    ∷ send (int_frame (element_code deploy_group)) (length groups == 0)
    ∷ send_objects (length groups) 0 groups)

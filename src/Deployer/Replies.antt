-- ===== src/Deployer/Replies.antt =====
-- StragetyDeployer: the answers without objects, and the manager's callbacks for them.
use cpp_linux_learn.Common.{
  ℕ, ◌^◌, ◌<◌, ◌≡◌, refl, ap, Bool, true, false, some, List, [], ◌∷◌, ◌++◌, length, arith, zero,
  suc, ◌-◌, ◌≤◌, Option, ap₂, subst, take, replicate, until_nul, overlay, length-take,
  if◌then◌else◌, codes,
}
use cpp_linux_learn.Deployer.Protocol.{
  Response, Element, manage_user, server_config, strategy_config, deploy_config, deploy_group,
  strcpy64, zeros64,
}
use cpp_linux_learn.Deployer.Protocol.Frames.{IsResponse}
use cpp_linux_learn.Deployer.Manager.{
  Manager, rsp_insert, rsp_update, rsp_delete, stat_init, recv_message, on_req_rsp,
}
use cpp_linux_learn.Deployer.Service.{
  Service, Step, DispatcherClient, find_client, respond, answer, store_cache_bool,
  on_ins_by_objects, on_upd_by_objects, on_del_by_objects, on_del_by_sql,
}
use cpp_linux_learn.Deployer.Delivery.{IsResponse-answer}
use cpp_linux_learn.Deployer.Cmd
use cpp_linux_learn.Deployer.Refusals.{response_message, after_response, recv_response}

-- What an answer says: no error (0) and the text of the success, or the error of the database (5) and its
-- text, cut to 63 bytes, in a field of 64 bytes with zeros behind.
abbrev pub expected : ℕ → Bool → List ℕ → List ℕ → ℕ → Response
expected cmd failed error ok reqid = record {
  error_id = if failed then 5 else 0;
  err_msg =
      if failed
      then take 63 (until_nul error) ++ replicate (64 - length (take 63 (until_nul error))) 0
      else take 64 (ok ++ replicate 64 0);
  request_id = reqid;
  cmd_type = cmd;
}

-- The state behind it: a change of the managers' table that succeeded calls for a new cache.
abbrev pub with_call : Element → Bool → Service → Service
with_call e true s = s
with_call manage_user false s = record s { upd_manager_cache = true }
with_call server_config false s = s
with_call strategy_config false s = s
with_call deploy_config false s = s
with_call deploy_group false s = s

overlay_zeros :
    (n : ℕ) (xs : List ℕ)
    → length xs ≤ n
    → overlay (replicate n 0) xs ≡ xs ++ replicate (n - length xs) 0
overlay_zeros n [] h = let same : n - 0 ≡ n = omega arith in rw same refl
overlay_zeros zero (x ∷ xs) h = absurd (omega arith)
overlay_zeros (suc n) (x ∷ xs) h =
    let same : suc n - suc (length xs) ≡ n - length xs = omega arith in
    rw same (ap (◌∷◌ x) (overlay_zeros n xs (omega arith)))

answer-expected :
    (cmd : ℕ) (failed : Bool) (error ok : List ℕ) (reqid : ℕ)
    → strcpy64 zeros64 ok ≡ take 64 (ok ++ replicate 64 0)
    → answer cmd failed error ok reqid ≡ expected cmd failed error ok reqid
answer-expected cmd false error ok reqid h =
    ap (λ t. record { error_id = 0; err_msg = t; request_id = reqid; cmd_type = cmd }) h
answer-expected cmd true error ok reqid h =
    ap (λ t. record { error_id = 5; err_msg = t; request_id = reqid; cmd_type = cmd })
      (overlay_zeros 64 (take 63 (until_nul error))
        (omega (arith, length-take 63 (until_nul error))))

store_cache_bool-with_call :
    (e : Element) (failed : Bool) (s : Service)
    → (if failed then s else store_cache_bool e s) ≡ with_call e failed s
store_cache_bool-with_call e true s = refl
store_cache_bool-with_call manage_user false s = refl
store_cache_bool-with_call server_config false s = refl
store_cache_bool-with_call strategy_config false s = refl
store_cache_bool-with_call deploy_config false s = refl
store_cache_bool-with_call deploy_group false s = refl

same_step :
    (router : List ℕ) {s s' : Service} {r r' : Response}
    → s ≡ s'
    → r ≡ r'
    → Path
        (Option Step)
        (some record { service = s; sends = respond router r; tasks = [] })
        (some record { service = s'; sends = respond router r'; tasks = [] })
same_step router e f =
    ap₂ (λ s r. some record { service = s; sends = respond router r; tasks = [] }) e f

-- The answers without objects: an error of the database is passed on with its text cut to 63 bytes,
-- and a change of the managers' table that succeeded calls for a new cache. Each is one message to the
-- client's router, and the manager calls back the function of the command, with the request's number; both
-- deletions have the same callback.
pub on_ins_by_objects-recv_message :
    (e : Element) (id : List ℕ) (reqid : ℕ) (failed : Bool) (error : List ℕ) (s : Service)
    (c : DispatcherClient) (m : Manager)
    → find_client id s.clients ≡ some c
    → reqid < 2 ^ 32
    → m.state_machine ≡ stat_init
    → let s1 = with_call e failed s in
      let r1 = expected Cmd.insert failed error (codes "Insert Successfully") reqid in
      let r2 = expected Cmd.update failed error (codes "Update Successfully") reqid in
      let r3 = expected Cmd.delete failed error (codes "Delete Successfully") reqid in
      let r4 = expected Cmd.del_by_col failed error (codes "Delete Successfully") reqid in
      (on_ins_by_objects e id reqid failed error s
        ≡ some record { service = s1; sends = respond c.router r1; tasks = [] })
      × (recv_message (response_message r1) m
          ≡ some record {
            manager = after_response r1 m;
            events = rsp_insert r1 reqid ∷ [];
            sends = [];
          })
      × (on_upd_by_objects e id reqid failed error s
          ≡ some record { service = s1; sends = respond c.router r2; tasks = [] })
      × (recv_message (response_message r2) m
          ≡ some record {
            manager = after_response r2 m;
            events = rsp_update r2 reqid ∷ [];
            sends = [];
          })
      × (on_del_by_objects e id reqid failed error s
          ≡ some record { service = s1; sends = respond c.router r3; tasks = [] })
      × (recv_message (response_message r3) m
          ≡ some record {
            manager = after_response r3 m;
            events = rsp_delete r3 reqid ∷ [];
            sends = [];
          })
      × (on_del_by_sql e id reqid failed error s
          ≡ some record { service = s1; sends = respond c.router r4; tasks = [] })
      × (recv_message (response_message r4) m
          ≡ some record {
            manager = after_response r4 m;
            events = rsp_delete r4 reqid ∷ [];
            sends = [];
          })
unfolding on_ins_by_objects on_upd_by_objects on_del_by_objects on_del_by_sql on_req_rsp
on_ins_by_objects-recv_message e id reqid failed error s c m hc hq hs =
    let s1 = store_cache_bool-with_call e failed s in
    let r1 = answer-expected Cmd.insert failed error (codes "Insert Successfully") reqid refl in
    let r2 = answer-expected Cmd.update failed error (codes "Update Successfully") reqid refl in
    let r3 = answer-expected Cmd.delete failed error (codes "Delete Successfully") reqid refl in
    let r4 = answer-expected Cmd.del_by_col failed error (codes "Delete Successfully") reqid refl in
    let ready =
      λ (cmd : ℕ) (ok : List ℕ) (k : cmd < 2 ^ 32)
          (r : answer cmd failed error ok reqid ≡ expected cmd failed error ok reqid).
        recv_response (expected cmd failed error ok reqid) m hs
          (subst IsResponse r (IsResponse-answer cmd reqid failed error ok k hq)) in
    (
      rw hc (same_step c.router s1 r1),
      ready Cmd.insert (codes "Insert Successfully") (omega arith) r1,
      rw hc (same_step c.router s1 r2),
      ready Cmd.update (codes "Update Successfully") (omega arith) r2,
      rw hc (same_step c.router s1 r3),
      ready Cmd.delete (codes "Delete Successfully") (omega arith) r3,
      rw hc (same_step c.router s1 r4),
      ready Cmd.del_by_col (codes "Delete Successfully") (omega arith) r4,
    )

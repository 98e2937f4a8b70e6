-- ===== src/Deployer/Requests.antt =====
-- StragetyDeployer: a manager's requests, from its call to the task that the service submits.
use cpp_linux_learn.Common.{
  ℕ, ◌^◌, ◌<◌, ◌≡◌, refl, ap, ◌∙◌, true, false, not, some, List, [], ◌∷◌, length, arith, ◌==◌,
  ◌>>=◌, codes,
}
use cpp_linux_learn.Deployer.Protocol.{
  Element, element_code, element_size, table_name, int_frame, Sent, message_of, ColumnFilter,
}
use cpp_linux_learn.Deployer.Protocol.Frames.{four, message_of-four, message_of-four_last}
use cpp_linux_learn.Deployer.Manager.{
  Manager, error_success, send_objects, req_by_filter, when_connected, req_qry_by_column_filter,
  req_ins_upd_del_by_eletype,
}
use cpp_linux_learn.Deployer.Service.{
  Service, qry_by_sql, ins_by_objects, del_by_objects, upd_by_objects, statement, on_query,
  on_insert, on_delete, on_update, store_cache_bool, on_recv_cmd, poll_message, submit,
}
use cpp_linux_learn.Deployer.Cmd
use cpp_linux_learn.Deployer.Serving.{
  IsSession, touch, poll_message-session, message_of-send_objects, message_of-send_filters,
  filter_frames, has_size, by_filters-frames, by_objects-frames,
}

-- The frames of a request.
abbrev pub request_frames : List ℕ → ℕ → ℕ → Element → List (List ℕ) → List (List ℕ)
request_frames id cmd reqid e rest =
    id ∷ int_frame cmd ∷ int_frame reqid ∷ int_frame (element_code e) ∷ rest

when_connected-connected :
    (m : Manager) (ss : List Sent)
    → m.connected ≡ true
    → when_connected m ss ≡ record { code = error_success; manager = m; sends = ss }
when_connected-connected m ss h = rw (ap not h)

filter_request_message :
    (m : Manager) (cmd reqid : ℕ) (e : Element) (filters : List ColumnFilter)
    → m.connected ≡ true
    → message_of (req_by_filter cmd filters (element_code e) reqid m).sends
      ≡ some (request_frames m.identity cmd reqid e (filter_frames filters))
filter_request_message m cmd reqid e [] h =
    ap (λ q. message_of q.sends) (when_connected-connected m _ h)
    ∙ message_of-four_last m.identity (int_frame cmd) (int_frame reqid) (int_frame (element_code e))
filter_request_message m cmd reqid e (f ∷ fs) h =
    ap (λ q. message_of q.sends) (when_connected-connected m _ h)
    ∙ message_of-four m.identity (int_frame cmd) (int_frame reqid) (int_frame (element_code e))
        (not (length (f ∷ fs) == 0)) _ _ _ (ground arith)
        (message_of-send_filters f fs (length (f ∷ fs)) 0 (omega arith))

-- A connected manager's query by filters is one message. The service, when that manager is logged in
-- and sends from its router, takes it as a query of the element's table: it submits the statement built
-- from the same filters, or fails where that statement cannot be built. It answers nothing yet, and of its
-- state only the client's entry is touched.
pub req_qry_by_column_filter-poll_message :
    (junk router : List ℕ) (now reqid : ℕ) (e : Element) (filters : List ColumnFilter) (m : Manager)
    (s : Service)
    → m.connected ≡ true
    → reqid < 2 ^ 32
    → IsSession m.identity router s
    → let request = req_qry_by_column_filter filters (element_code e) reqid m in
      let frames = request_frames m.identity Cmd.query reqid e (filter_frames filters) in
      (request.code ≡ error_success)
      × (message_of request.sends ≡ some frames)
      × (poll_message junk now (router ∷ frames) s ≡ (
          statement (codes "select * from ") (table_name e) filters >>= λ sql.
          some (submit (touch m.identity router now s) (qry_by_sql e m.identity sql reqid))))
unfolding req_qry_by_column_filter on_recv_cmd on_query
req_qry_by_column_filter-poll_message junk router now reqid e filters m s hm hq hs = (
  ap (λ q. q.code) (when_connected-connected m _ hm),
  filter_request_message m Cmd.query reqid e filters hm,
  poll_message-session junk router m.identity now Cmd.query _ s (omega arith) hs
      ∙ by_filters-frames (codes "select * from ") qry_by_sql m.identity e reqid filters
          (touch m.identity router now s) hq,
)

req_objects-connected :
    (m : Manager) (cmd reqid : ℕ) (e : Element) (o : List ℕ) (os : List (List ℕ))
    → m.connected ≡ true
    → (req_ins_upd_del_by_eletype (o ∷ os) (element_code e) reqid cmd m).sends
      ≡ four m.identity
          (int_frame cmd)
          (int_frame reqid)
          (int_frame (element_code e))
          true
          (send_objects (length (o ∷ os)) 0 (o ∷ os))
unfolding req_ins_upd_del_by_eletype
req_objects-connected m cmd reqid e o os h =
    let some_object : (length (o ∷ os) == 0) ≡ false = ground arith in
    rw some_object (ap (λ q. q.sends) (when_connected-connected m _ h))

-- A connected manager's request to insert, update or delete objects is one message. The service, when that
-- manager is logged in, sends from its router and its objects have the element's size, submits the same
-- objects in the same order to the database's function of that command. An insertion of managers alone calls
-- at once for a new cache of names.
pub req_ins_upd_del_by_eletype-poll_message :
    (junk router : List ℕ) (now reqid cmd : ℕ) (e : Element) (o : List ℕ) (os : List (List ℕ))
    (m : Manager) (s : Service)
    → m.connected ≡ true
    → reqid < 2 ^ 32
    → has_size (element_size e) (o ∷ os) ≡ true
    → IsSession m.identity router s
    → let frames = λ (c : ℕ). request_frames m.identity c reqid e (o ∷ os) in
      let s1 = touch m.identity router now s in
      (message_of (req_ins_upd_del_by_eletype (o ∷ os) (element_code e) reqid cmd m).sends
        ≡ some (frames cmd))
      × (poll_message junk now (router ∷ frames Cmd.insert) s
          ≡ some (submit (store_cache_bool e s1) (ins_by_objects e m.identity (o ∷ os) reqid)))
      × (poll_message junk now (router ∷ frames Cmd.update) s
          ≡ some (submit s1 (upd_by_objects e m.identity (o ∷ os) reqid)))
      × (poll_message junk now (router ∷ frames Cmd.delete) s
          ≡ some (submit s1 (del_by_objects e m.identity (o ∷ os) reqid)))
unfolding on_recv_cmd on_insert on_update on_delete
req_ins_upd_del_by_eletype-poll_message junk router now reqid cmd e o os m s hm hq hz hs =
    let s1 = touch m.identity router now s in
    (
      rw (req_objects-connected m cmd reqid e o os hm) (
          message_of-four m.identity (int_frame cmd) (int_frame reqid) (int_frame (element_code e))
            true _ _ _ refl (message_of-send_objects o os (length (o ∷ os)) 0 (omega arith))),
      poll_message-session junk router m.identity now Cmd.insert _ s (omega arith) hs
          ∙ by_objects-frames store_cache_bool ins_by_objects m.identity e reqid (o ∷ os) s1 hq hz,
      poll_message-session junk router m.identity now Cmd.update _ s (omega arith) hs
          ∙ by_objects-frames (λ x t. t) upd_by_objects m.identity e reqid (o ∷ os) s1 hq hz,
      poll_message-session junk router m.identity now Cmd.delete _ s (omega arith) hs
          ∙ by_objects-frames (λ x t. t) del_by_objects m.identity e reqid (o ∷ os) s1 hq hz,
    )

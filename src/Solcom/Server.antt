-- ===== src/Solcom/Server.antt =====
-- solcomapi/src/SolConnServer.h, SolConnServer.cpp, SolConnClient.h and SolConnClient.cpp: the
-- server end. A `SolConnClient *` is an index into `heap`, where a deleted client is `none`; the
-- map from "address:port" to clients is an association list with numbers for the strings. `none` is
-- an access to a deleted client, outside a block or through `nullptr`.
pub mod Reading
pub mod Swept
pub mod Sweep
pub mod Writing
pub mod Waiting
pub mod Callbacks
pub mod Answers
pub mod Runs
mod Tests
use cpp_linux_learn.Common.{
  ◌>>=◌, ℕ, zero, suc, ◌+◌, ◌%◌, ◌^◌, Bool, true, false, not, ◌&&◌, Option, none, some, List, [],
  ◌∷◌, ◌++◌, length, get_elem?, get_or, set, copy_in, copy_out, ltb, ◌==◌, sub32, sub64,
  if◌then◌else◌,
}
use cpp_linux_learn.Solcom.ByteArray.{
  ByteArray, create, init, reallocate, left_backward, right_forward,
}
use cpp_linux_learn.Solcom.Codec.{
  RecvStat, recv_head, recv_body, package_head_len, decode_head, Members, Serializable, deserialize,
  create_object, heartbeat_command, test_command, type_heartbeat, type_test_cmd, type_req,
}
use cpp_linux_learn.Solcom.Api.{fill_slot}

-- `req_pending` is `reqBuffer.second`.
pub record Client : Type 0 where
  pub req_buffer : ByteArray
  pub req_pending : Bool
  pub recv_buffer : ByteArray
  pub recv_stat : RecvStat
  pub need_read : ℕ
  pub last_read : ℕ
  pub last_write : ℕ
  pub connected : Bool
  pub obj_key : ℕ

pub record Server : Type 0 where
  pub heap : List (Option Client)
  pub map_conn_client : List (ℕ × ℕ)
  pub list_wevent : List ℕ
  pub list_wevent_bck : List ℕ
  pub stop : Bool

pub record CommandTask : Type 0 where
  pub req_rtn_type : ℕ
  pub request_id : ℕ
  pub client : ℕ
  pub cmd : Serializable

pub data ServerEvent : Type 0 where
  close_client start_read : ℕ → ServerEvent
  write_client : ℕ → List ℕ → ServerEvent
  queue_work : CommandTask → ServerEvent
  close_listen stop_timer stop_idle stop_loop : ServerEvent

-- `*p`, and a write through `p`.
abbrev pub deref : List (Option Client) → ℕ → Option Client
deref heap p = get_elem? heap p >>= (λ c. c)

abbrev pub assign : Server → ℕ → Client → Server
assign s p c = record s { heap = set s.heap p (some c) }

-- `unordered_map::insert`, which keeps the element that has the key already, and `find`.
unfoldable pub has_key : ℕ → List (ℕ × ℕ) → Bool
has_key k [] = false
has_key k ((key, p) ∷ m) = if key == k then true else has_key k m

-- The constructor of SolConnClient, with the members that `connect_cb` sets.
unfoldable pub new_client : (ℕ → ℕ) → ℕ → ℕ → Client
new_client junk now key = record {
  req_buffer = create junk 1424;
  req_pending = false;
  recv_buffer = create junk 1424;
  recv_stat = recv_head;
  need_read = package_head_len;
  last_read = now;
  last_write = now;
  connected = true;
  obj_key = key;
}

-- `connect_cb` where `uv_accept` succeeds.
unfoldable pub accept : (ℕ → ℕ) → ℕ → ℕ → Server → Server × List ServerEvent
accept junk now key s =
    let p = length s.heap in
    let m = s.map_conn_client in
    (
      record s {
        heap = s.heap ++ some (new_client junk now key) ∷ [];
        map_conn_client = if has_key key m then m else (key, p) ∷ m;
      },
      start_read p ∷ [],
    )

-- `closeClient` on the client at `p`.
unfoldable pub close_conn : ℕ → Client → Client × List ServerEvent
close_conn p c = (record c { connected = false }, if c.connected then close_client p ∷ [] else [])

-- The branch of `read_cb` for a head or a body that is complete; `fresh` are the members that a new
-- TestCommand happens to get.
unfoldable pub complete_read : (ℕ → ℕ) → Members → ℕ → Client → Option (Client × List ServerEvent)
complete_read junk fresh p c = do
  (head, buffer) ← decode_head c.recv_buffer
  elim c.recv_stat [
    | recv_head ↦ do
      let back = left_backward package_head_len buffer
      let needed = head.pkg_body_len + package_head_len
      roomy ← if ltb back.capacity needed then reallocate junk needed back else some back
      some (
        record c { recv_buffer = roomy; recv_stat = recv_body; need_read = head.pkg_body_len },
        [],
      )
    | recv_body ↦ do
      type_bytes ← copy_out buffer.chars buffer.left 1
      obj ← create_object fresh (get_or type_bytes 0 0)
      (cmd, _) ← deserialize obj buffer
      some (
        record c { recv_buffer = init buffer; recv_stat = recv_head; need_read = package_head_len },
        queue_work (record {
          req_rtn_type = head.req_rtn_type;
          request_id = head.request_id % 2 ^ 32;
          client = p;
          cmd = cmd;
        })
            ∷ [],
      )
  ]

-- `read_cb` for `nread > 0`.
unfoldable pub read_client :
    (ℕ → ℕ) → Members → ℕ → List ℕ → ℕ → Client → Option (Client × List ServerEvent)
read_client junk fresh now bs p c = do
  chars' ← copy_in c.recv_buffer.chars c.recv_buffer.right bs
  let longer = right_forward (length bs) (record c.recv_buffer { chars = chars' })
  let received = record c { recv_buffer = longer }
  (c', events) ←
      if length bs == c.need_read
      then complete_read junk fresh p received
      else some (record received { need_read = sub32 c.need_read (length bs) }, [])
  some (record c' { last_read = now }, events)

-- `read_cb` for an error.
unfoldable pub read_client_failed : Bool → ℕ → Client → Client × List ServerEvent
read_client_failed canceled p c = if canceled then (c, []) else close_conn p c

-- `req_write_cb`.
unfoldable pub write_client_done : ℕ → Client → Client
write_client_done now c = record c {
  req_buffer = init c.req_buffer;
  req_pending = false;
  last_write = now;
}

unfoldable pub write_client_failed : Bool → ℕ → Client → Client × List ServerEvent
write_client_failed canceled p c =
    let freed = record c { req_buffer = init c.req_buffer; req_pending = false } in
    if canceled then (freed, []) else close_conn p freed

-- `WeventCtl`. For WPOLL_DEL the loop goes on from the iterator that it has just erased.
unfoldable pub wevent_add : ℕ → Server → Server
wevent_add p s = record s { list_wevent = s.list_wevent ++ p ∷ [] }

unfoldable pub wevent_del : ℕ → List ℕ → Option (List ℕ)
wevent_del p [] = some []
wevent_del p (q ∷ qs) =
    let rest = wevent_del p qs in if q == p then none else (rest >>= λ r. some (q ∷ r))

-- `writeHandle`.
unfoldable pub write_all : List (Option Client) → List ℕ → Option (List ServerEvent)
write_all heap [] = some []
write_all heap (p ∷ ps) = do
  c ← deref heap p
  bytes ← if c.connected then copy_out c.req_buffer.chars 0 c.req_buffer.right else some []
  events ← write_all heap ps
  some (if c.connected then write_client p bytes ∷ events else events)

unfoldable pub write_handle : Server → Option (Server × List ServerEvent)
write_handle s = do
  events ← write_all s.heap s.list_wevent
  some (record s { list_wevent = s.list_wevent_bck; list_wevent_bck = [] }, events)

-- MAX_IDLE_INTERVAL, counted in `uint64_t`.
unfoldable pub is_idle : ℕ → Client → Bool
is_idle now c = ltb 100 (sub64 now c.last_read) && ltb 100 (sub64 now c.last_write)

-- The loop of `hbt_timer_cb`: an idle client is closed, deleted and taken out of the map.
unfoldable pub sweep :
    ℕ
    → List (Option Client)
    → List (ℕ × ℕ)
    → Option (List (Option Client) × List (ℕ × ℕ) × List ServerEvent)
sweep now heap [] = some (heap, [], [])
sweep now heap ((key, p) ∷ m) = do
  c ← deref heap p
  let idle = is_idle now c
  (heap', m', events) ← sweep now (if idle then set heap p none else heap) m
  some (
    heap',
    if idle then m' else (key, p) ∷ m',
    if idle then (close_conn p c).1 ++ events else events,
  )

unfoldable pub hbt_timer_cb : ℕ → Server → Option (Server × List ServerEvent)
hbt_timer_cb now s = do
  (heap', m', events) ← sweep now s.heap s.map_conn_client
  some (record s { heap = heap'; map_conn_client = m' }, events)

-- The loop of `idle_cb` that closes every client of the map.
unfoldable pub close_all :
    List (Option Client) → List (ℕ × ℕ) → Option (List (Option Client) × List ServerEvent)
close_all heap [] = some (heap, [])
close_all heap ((key, p) ∷ m) = do
  c ← deref heap p
  (heap', events) ← close_all (set heap p (some (close_conn p c).0)) m
  some (heap', (close_conn p c).1 ++ events)

unfoldable pub server_idle_cb : Server → Option (Server × List ServerEvent)
server_idle_cb s = do
  (written, w_events) ← write_handle s
  if s.stop
      then (do
        (heap', c_events) ← close_all written.heap written.map_conn_client
        some (
          record written { heap = heap'; list_wevent = []; list_wevent_bck = [] },
          w_events ++ (c_events ++ close_listen ∷ stop_timer ∷ stop_idle ∷ stop_loop ∷ []),
        ))
      else some (written, w_events)

-- The loop of `SolConnClient::postMsg` that waits for the buffer: `pending t` is what the `t`-th
-- test of `reqBuffer.second` reads, and nothing counts `ncouts` on. `none` is still waiting.
unfoldable pub wait_free : (ℕ → Bool) → ℕ → ℕ → ℕ → ℕ → Option ℕ
wait_free pending timeout ncouts zero t = none
wait_free pending timeout ncouts (suc fuel) t =
    let rest = wait_free pending timeout ncouts fuel (t + 1) in
    if pending t && ltb ncouts timeout then rest else some t

-- The return values 0, -1 and -2.
pub data PostCode : Type 0 where
  posted overflowed unconnected : PostCode

-- `postMsg` behind that loop.
unfoldable pub post_client :
    (ℕ → ℕ) → Serializable → ℕ → ℕ → ℕ → Server → Option (Server × PostCode)
post_client junk msg request_id rtn p s = do
  c ← deref s.heap p
  if c.connected && not s.stop
      then (if c.req_pending then some (s, overflowed) else (do
        filled ← fill_slot junk msg request_id rtn c.req_buffer
        some (
          wevent_add p (assign s p (record c { req_buffer = filled; req_pending = true })),
          posted,
        )))
      else some (s, unconnected)

-- `CmdHandle`.
unfoldable pub cmd_handle :
    (ℕ → ℕ) → (str_data db_data int_data : List ℕ) → Serializable → ℕ → Server → Option Server
cmd_handle junk sd dd id cmd p s =
    if cmd.n_type == type_heartbeat
    then (post_client junk heartbeat_command 0 type_req p s >>= λ r. some r.0)
    else if cmd.n_type == type_test_cmd
    then (post_client junk (test_command sd dd id) 0 type_req p s >>= λ r. some r.0)
    else some s

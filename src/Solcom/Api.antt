-- ===== src/Solcom/Api.antt =====
-- solcomapi/src/SolcomApi.h and SolcomApi.cpp: the client end of a connection. Its members and the
-- callbacks that it gives to libuv are functions on the state of the object; the calls of libuv and
-- of the user's SolcomSpi are the events that they return. Times are whole seconds, and are handed
-- in where the code reads the clock. `none` is an access outside a block or through `nullptr`.
pub mod Post
pub mod Sending
pub mod Receive
pub mod Message
pub mod Delivery
pub mod Outgoing
pub mod EndToEnd
mod Tests
mod RunTests
pub mod Reconnect
pub mod Idle
pub mod Start
pub mod Flight
pub mod Steps
use cpp_linux_learn.Common.{
  ◌>>=◌, ℕ, ◌+◌, ◌%◌, ◌^◌, Bool, true, false, not, ◌&&◌, Option, none, some, List, [], ◌∷◌, ◌++◌,
  length, get_elem?, get_or, copy_in, copy_out, ltb, ◌==◌, sub32, if◌then◌else◌,
}
use cpp_linux_learn.Solcom.ByteArray
use cpp_linux_learn.Solcom.CachedBuffer
use cpp_linux_learn.Solcom.ByteArray.{
  ByteArray, init, reallocate, left_forward, left_backward, right_forward, prepend,
}
use cpp_linux_learn.Solcom.CachedBuffer.{
  CachedBuffer, is_empty, allocate, store, head_forward, tail_forward, current_slot,
}
use cpp_linux_learn.Solcom.Codec.{
  RecvStat, recv_head, recv_body, PackageHead, head_bytes, package_head_len, encode_head,
  decode_head, Serializable, data_size, serialize, deserialize, heartbeat_command, Members,
  type_test_cmd, type_req, type_rtn, SerializableCache, get_cached_obj, store_cached_obj,
}

pub data Event : Type 0 where
  uv_close uv_read_start uv_idle_start uv_idle_stop uv_tcp_init uv_tcp_connect : Event
  start_reconn_timer : Event
  uv_write : List ℕ → Event
  on_connect on_disconnect : Event
  on_recv_msg : Serializable → Event

-- `has_spi` is `solcomSpi != nullptr`, `has_addr` is `servAddr[0] != '\0'`.
pub record Api : Type 0 where
  pub has_spi : Bool
  pub has_addr : Bool
  pub send_cache : CachedBuffer ByteArray
  pub ack_buffer : ByteArray
  pub ack_pending : Bool
  pub connected : Bool
  pub stop : Bool
  pub auto_reconn : Bool
  pub obj_cache : SerializableCache
  pub recv_buffer : ByteArray
  pub recv_stat : RecvStat
  pub need_read : ℕ
  pub last_read : ℕ
  pub last_write : ℕ
  pub req_busy : Bool

abbrev pub when : Bool → Event → List Event
when b e = if b then e ∷ [] else []

-- The constructor. `fresh` are the members of the cached TestCommand; `r` and `w` are what the two
-- times happen to be, which it does not set.
unfoldable pub create_api : (ℕ → ℕ) → Members → ℕ → ℕ → Option Api
create_api junk fresh r w = do
  cache ← CachedBuffer.create (ByteArray.create junk 1424) 128
  some (record {
    has_spi = false;
    has_addr = false;
    send_cache = cache;
    ack_buffer = ByteArray.create junk 128;
    ack_pending = false;
    connected = false;
    stop = false;
    auto_reconn = true;
    obj_cache = record {
      hb_cmd = heartbeat_command;
      tst_cmd = record { n_type = type_test_cmd; members = fresh };
    };
    recv_buffer = ByteArray.create junk 1424;
    recv_stat = recv_head;
    need_read = package_head_len;
    last_read = r;
    last_write = w;
    req_busy = false;
  })

-- `RegistSpi` and `RegistServer`: what they leave to test for later.
unfoldable pub regist_spi : Bool → Api → Api
regist_spi not_null a = record a { has_spi = not_null }

unfoldable pub regist_server : Bool → Api → Api
regist_server not_empty a = record a { has_addr = not_empty }

-- `Start`, `Stop`, `SetAutoReconnect`.
unfoldable pub set_stop : Bool → Api → Api
set_stop b a = record a { stop = b }

unfoldable pub set_auto_reconnect : Bool → Api → Api
set_auto_reconnect b a = record a { auto_reconn = b }

unfoldable pub close_connection : Api → Api × List Event
close_connection a =
    (record a { connected = false }, when a.connected uv_close ++ when a.has_spi on_disconnect)

unfoldable pub connect_server : Api → List Event
connect_server a = when a.has_addr uv_tcp_connect

-- `if (bAutoReconn && !bStop) uv_timer_start(...)`.
abbrev pub reconnect_later : Api → List Event
reconnect_later a = when (a.auto_reconn && not a.stop) start_reconn_timer

unfoldable pub send_ack : PackageHead → Api → Option Api
send_ack h a = do
  buffer ← encode_head h (init a.ack_buffer)
  some (record a { ack_buffer = buffer; ack_pending = true })

-- The return values ERR_SUCCESS, ERR_NETWORK and ERR_NO_BUFFER.
pub data PostResult : Type 0 where
  success network no_buffer : PostResult

-- The part of `postMsg` that fills the slot: room for the head is left, the object is written
-- behind it, and the head, which knows the length by then, in front. `memset` has cleared the
-- version that the constructor of the head had set.
unfoldable pub fill_slot : (ℕ → ℕ) → Serializable → ℕ → ℕ → ByteArray → Option ByteArray
fill_slot junk msg request_id rtn slot_array = do
  let cleared = init slot_array
  let needed = data_size msg + package_head_len
  roomy ← if ltb cleared.capacity needed then reallocate junk needed cleared else some cleared
  let ready = left_forward package_head_len (right_forward package_head_len roomy)
  written ← serialize msg ready
  prepend
      (head_bytes (record {
        version_id = 0;
        req_rtn_type = rtn;
        pkg_body_len = sub32 written.right package_head_len % 2 ^ 16;
        request_id = request_id;
      }))
      written

unfoldable pub post_msg : (ℕ → ℕ) → Serializable → ℕ → ℕ → Api → Option (Api × PostResult)
post_msg junk msg request_id rtn a =
    if not a.connected then some (a, network) else elim (allocate a.send_cache) [
      | none ↦ some (a, no_buffer)
      | some i ↦ do
        slot_array ← get_elem? a.send_cache.elements i
        filled ← fill_slot junk msg request_id rtn slot_array
        some (record a { send_cache = (tail_forward (store a.send_cache i filled)).0 }, success)
    ]

unfoldable pub post_request : (ℕ → ℕ) → Serializable → ℕ → Api → Option (Api × PostResult)
post_request junk msg request_id a = post_msg junk msg request_id type_req a

unfoldable pub push_message : (ℕ → ℕ) → Serializable → Api → Option (Api × PostResult)
push_message junk msg a = post_msg junk msg 0 type_rtn a

unfoldable pub send_heartbeat : (ℕ → ℕ) → Api → Option Api
send_heartbeat junk a = do (a', _) ← post_msg junk heartbeat_command 0 type_req a; some a'

-- `reqHandle` on `inStream`: the object of the cache that the first byte names is read over.
unfoldable pub req_handle : ByteArray → Api → Option (Api × List Event)
req_handle stream a =
    if a.has_spi
    then (do
      type_bytes ← copy_out stream.chars stream.left 1
      let t = get_or type_bytes 0 0
      cmd ← get_cached_obj a.obj_cache t
      (obj, _) ← deserialize cmd stream
      some (record a { obj_cache = store_cached_obj a.obj_cache t obj }, on_recv_msg obj ∷ []))
    else some (a, [])

-- `connect_cb`, for `status < 0` and for a connection.
unfoldable pub connect_failed : Api → List Event
connect_failed a = when a.has_spi on_disconnect ++ reconnect_later a

unfoldable pub connect_succeeded : Api → Api × List Event
connect_succeeded a = (
  record a { connected = true; recv_buffer = init a.recv_buffer; need_read = package_head_len },
  uv_read_start ∷ uv_idle_start ∷ when a.has_spi on_connect,
)

-- The branch of `read_cb` for a head or a body that is complete.
unfoldable pub on_complete : (ℕ → ℕ) → Api → Option (Api × List Event)
on_complete junk a = do
  (head, buffer) ← decode_head a.recv_buffer
  elim a.recv_stat [
    | recv_head ↦ do
      let back = left_backward package_head_len buffer
      let needed = head.pkg_body_len + package_head_len
      roomy ← if ltb back.capacity needed then reallocate junk needed back else some back
      some (
        record a { recv_buffer = roomy; recv_stat = recv_body; need_read = head.pkg_body_len },
        [],
      )
    | recv_body ↦ do
      (a', events) ← req_handle buffer a
      some (
        record a' {
          recv_buffer = init buffer;
          recv_stat = recv_head;
          need_read = package_head_len;
        },
        events,
      )
  ]

-- `read_cb` for `nread > 0`, after libuv has put the bytes where `alloc_cb` pointed: at the right
-- position of the receive buffer.
unfoldable pub read_bytes : (ℕ → ℕ) → ℕ → List ℕ → Api → Option (Api × List Event)
read_bytes junk now bs a = do
  chars' ← copy_in a.recv_buffer.chars a.recv_buffer.right bs
  let longer = right_forward (length bs) (record a.recv_buffer { chars = chars' })
  let received = record a { recv_buffer = longer }
  (a', events) ←
      if length bs == a.need_read
      then on_complete junk received
      else some (record received { need_read = sub32 a.need_read (length bs) }, [])
  some (record a' { last_read = now }, events)

-- `read_cb` for `nread == 0`, and for an error.
unfoldable pub read_nothing : ℕ → Api → Api
read_nothing now a = record a { last_read = now }

unfoldable pub read_failed : Api → Api × List Event
read_failed a = let (a', events) = close_connection a in (a', events ++ reconnect_later a')

-- `req_write_cb`.
unfoldable pub write_failed : Api → Api × List Event
write_failed a = let (a', events) = close_connection a in (a', events ++ reconnect_later a')

unfoldable pub write_done : ℕ → Api → Api
write_done now a = record a {
  send_cache = (head_forward a.send_cache).0;
  req_busy = false;
  last_write = now;
}

unfoldable pub reconn_timer_cb : Api → List Event
reconn_timer_cb a = if a.connected then [] else uv_tcp_init ∷ connect_server a

unfoldable pub init_timer_cb : Api → List Event
init_timer_cb a = connect_server a

-- The first part of `idle_cb`, on a connected object with something to send.
unfoldable pub idle_write : Api → Option (Api × List Event)
idle_write a = if a.req_busy then some (a, []) else elim (current_slot a.send_cache) [
  | none ↦ some (a, [])
  | some i ↦ do
    slot_array ← get_elem? a.send_cache.elements i
    bytes ← copy_out slot_array.chars 0 slot_array.right
    some (record a { req_busy = true }, uv_write bytes ∷ [])
]

-- The second part: MAX_WRITE_IDLE_INTERVAL is 3, MAX_IDLE_INTERVAL is 100, and both intervals are
-- counted from `lastWrite`.
unfoldable pub idle_keep_alive : (ℕ → ℕ) → ℕ → Api → Option (Api × List Event)
idle_keep_alive junk now a = do
  kept ←
      if ltb (a.last_write + 3) now
      then (do sent ← send_heartbeat junk a; some (record sent { last_write = now }))
      else some a
  if ltb (kept.last_write + 100) now
      then (let (closed, events) = close_connection kept in
          let again = if closed.auto_reconn && not closed.stop then connect_server closed else [] in
          some (closed, events ++ again))
      else some (kept, [])

unfoldable pub idle_cb : (ℕ → ℕ) → ℕ → Api → Option (Api × List Event)
idle_cb junk now a = do
  let writing = a.connected && not (is_empty a.send_cache)
  (written, w_events) ← if writing then idle_write a else some (a, [])
  (kept, k_events) ←
      if a.connected && not a.stop then idle_keep_alive junk now written else some (written, [])
  if kept.stop && not writing
      then (let (closed, c_events) = close_connection kept in
          some (closed, w_events ++ (k_events ++ (uv_idle_stop ∷ c_events))))
      else some (kept, w_events ++ k_events)

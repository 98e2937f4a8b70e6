-- ===== src/Solcom/Server/Callbacks.antt =====
-- The callbacks of solcomapi/src/SolConnServer.cpp as libuv calls them, over the parts of them that
-- stand in Server.antt.
use cpp_linux_learn.Common.{
  ◌>>=◌, ℕ, zero, suc, ◌==◌, Bool, true, false, Option, some, List, [], ◌∷◌, ◌++◌, length,
  get_elem?, if◌then◌else◌,
}
use cpp_linux_learn.Solcom.Codec.{Members}
use cpp_linux_learn.Solcom.Server.{
  Client, Server, ServerEvent, close_client, CommandTask, deref, assign, new_client, accept,
  read_client, read_client_failed, cmd_handle, queue_work, write_client_done, write_client_failed,
  hbt_timer_cb, server_idle_cb,
}

-- `connect_cb`; a status below 0 is only printed. `accepted` is whether `uv_accept` succeeds, and
-- `unset` are the client's times and the key, which nothing has set when it does not.
unfoldable pub connect_cb :
    (ℕ → ℕ) → (accepted : Bool) → (now key unset : ℕ) → Server → Server × List ServerEvent
connect_cb junk true now key unset s = accept junk now key s
connect_cb junk false now key unset s = (
  record s {
    heap = s.heap ++ some (record (new_client junk unset unset) { connected = false }) ∷ [];
  },
  close_client (length s.heap) ∷ [],
)

-- What `nread` says: bytes, none of them for EAGAIN, or an error, which may be UV_ECANCELED.
pub data ReadResult : Type 0 where
  bytes_read : List ℕ → ReadResult
  read_error : Bool → ReadResult

-- `read_cb`.
unfoldable pub read_cb_client :
    (ℕ → ℕ) → Members → ℕ → ReadResult → ℕ → Client → Option (Client × List ServerEvent)
read_cb_client junk fresh now (bytes_read bs) p c =
    if length bs == 0
    then some (record c { last_read = now }, [])
    else read_client junk fresh now bs p c
read_cb_client junk fresh now (read_error canceled) p c = some (read_client_failed canceled p c)

unfoldable pub server_read_cb :
    (ℕ → ℕ) → Members → ℕ → ReadResult → ℕ → Server → Option (Server × List ServerEvent)
server_read_cb junk fresh now result p s = do
  c ← deref s.heap p
  (c', events) ← read_cb_client junk fresh now result p c
  some (assign s p c', events)

-- `work_cb`, on a thread of the pool; `after_work_cb` frees the task and nothing of the server.
unfoldable pub work_cb :
    (ℕ → ℕ) → (str_data db_data int_data : List ℕ) → CommandTask → Server → Option Server
work_cb junk sd dd id task s = cmd_handle junk sd dd id task.cmd task.client s

-- The loop: the server, and the tasks that wait for a thread or are with one.
pub record Loop : Type 0 where
  pub server : Server
  pub tasks : List CommandTask

unfoldable pub queued : List ServerEvent → List CommandTask
queued [] = []
queued (queue_work task ∷ events) = task ∷ queued events
queued (_ ∷ events) = queued events

-- The callbacks, and a call of Stop, with what libuv, the clock and fresh memory give them. `worked i` is the work of
-- the `i`-th task, which is freed behind it.
pub data Callback : Type 0 where
  connected : (accepted : Bool) → (now key unset : ℕ) → Callback
  read : Members → ℕ → ReadResult → ℕ → Callback
  written : ℕ → ℕ → Callback
  write_error : Bool → ℕ → Callback
  timer : ℕ → Callback
  idle : Callback
  stop_called : Callback
  worked : ℕ → (str_data db_data int_data : List ℕ) → Callback

unfoldable pub remove_at : ℕ → List CommandTask → List CommandTask
remove_at i [] = []
remove_at zero (task ∷ tasks) = tasks
remove_at (suc i) (task ∷ tasks) = task ∷ remove_at i tasks

unfoldable pub handle : (ℕ → ℕ) → Callback → Loop → Option Loop
unfolding connect_cb server_read_cb work_cb queued remove_at
handle junk (connected accepted now key unset) l =
    some (record l { server = (connect_cb junk accepted now key unset l.server).0 })
handle junk (read fresh now result p) l = do
  (s, events) ← server_read_cb junk fresh now result p l.server
  some (record { server = s; tasks = l.tasks ++ queued events })
handle junk (written now p) l = do
  c ← deref l.server.heap p
  some (record l { server = assign l.server p (write_client_done now c) })
handle junk (write_error canceled p) l = do
  c ← deref l.server.heap p
  some (record l { server = assign l.server p (write_client_failed canceled p c).0 })
handle junk (timer now) l = do
  (s, events) ← hbt_timer_cb now l.server
  some (record l { server = s })
handle junk idle l = do (s, events) ← server_idle_cb l.server; some (record l { server = s })
handle junk stop_called l = some (record l { server = record l.server { stop = true } })
handle junk (worked i sd dd id) l = do
  task ← get_elem? l.tasks i
  s ← work_cb junk sd dd id task l.server
  some (record { server = s; tasks = remove_at i l.tasks })

unfoldable pub run : (ℕ → ℕ) → List Callback → Loop → Option Loop
run junk [] l = some l
run junk (callback ∷ callbacks) l = do l' ← handle junk callback l; run junk callbacks l'

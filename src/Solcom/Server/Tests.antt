-- ===== src/Solcom/Server/Tests.antt =====
-- Runs of the server on small states.
use cpp_linux_learn.Common.{
  ℕ, ◌≡◌, refl, Bool, true, false, Option, none, some, copy_in, copy_out, List, [], ◌∷◌, ◌++◌,
  arith, ltb,
}
use cpp_linux_learn.Solcom.ByteArray
use cpp_linux_learn.Solcom.ByteArray.{ByteArray}
use cpp_linux_learn.Solcom.Codec.{
  recv_body, PackageHead, head_bytes, plain, Serializable, create_object, heartbeat_command,
  type_req, decode_head, deserialize, data_size, serialize,
}
use cpp_linux_learn.Solcom.Codec.Digits.{le_bytes, le_value}
use cpp_linux_learn.Solcom.Codec.RoundTrip.{wire}
use cpp_linux_learn.Solcom.Api.Post.{create-IsReady, posted_head}
use cpp_linux_learn.Solcom.Server.{
  Client, Server, ServerEvent, CommandTask, queue_work, assign, accept, has_key, read_client,
  cmd_handle, wevent_add, server_idle_cb, write_all, write_client_done, close_all, write_client,
  is_idle, hbt_timer_cb, write_handle, post_client, complete_read, new_client, close_conn, sweep,
}
use cpp_linux_learn.Solcom.Server.Answers.{complete_read-work_cb}
use cpp_linux_learn.Solcom.Server.Swept.{IsAlive}
use cpp_linux_learn.Solcom.Server.Sweep.{recent, hbt_timer_cb_lem, hbt_timer_cb-write_handle}
use cpp_linux_learn.Solcom.Server.Runs.{run-IsAlive}
use cpp_linux_learn.Solcom.Api.{fill_slot}
use cpp_linux_learn.Solcom.Server.Callbacks.{
  connect_cb, read_cb_client, server_read_cb, work_cb, Loop, Callback, connected, read, written,
  timer, idle, worked, bytes_read, handle, run, queued, remove_at,
}

abbrev junk : ℕ → ℕ
junk i = 7

abbrev a_client : Client
a_client = new_client junk 5 80

abbrev a_server : Server
a_server = record {
  heap = some a_client ∷ [];
  map_conn_client = (80, 0) ∷ [];
  list_wevent = [];
  list_wevent_bck = [];
  stop = false;
}

abbrev a_heartbeat : Serializable
a_heartbeat = record { n_type = 1; members = plain }

a_server-IsAlive : IsAlive a_server.heap a_server.map_conn_client
a_server-IsAlive = ((a_client, refl), tt, tt)

hbt_timer_cb_lem_example :
    (s' : Server) × (events : List ServerEvent) × (hbt_timer_cb 300 a_server ≡ some (s', events))
    × (s'.map_conn_client ≡ recent 300 a_server.heap a_server.map_conn_client)
    × IsAlive s'.heap s'.map_conn_client
unfolding new_client
hbt_timer_cb_lem_example =
    hbt_timer_cb_lem 300 a_server a_server-IsAlive (omega arith) ((omega arith, omega arith), tt)

-- The client is registered for writing, and is swept.
abbrev registered : Server
registered = record a_server { list_wevent = 0 ∷ [] }

abbrev after_sweep : Server
after_sweep = record registered { heap = none ∷ []; map_conn_client = [] }

sweeps : hbt_timer_cb 300 registered ≡ some (after_sweep, ServerEvent.close_client 0 ∷ [])
unfolding hbt_timer_cb sweep is_idle close_conn new_client
sweeps = refl

hbt_timer_cb-write_handle_example : write_handle after_sweep ≡ none
unfolding new_client
hbt_timer_cb-write_handle_example =
    hbt_timer_cb-write_handle 300 80 0 [] [] [] [] a_client registered after_sweep
      (ServerEvent.close_client 0 ∷ []) refl a_server-IsAlive refl (omega arith) (omega arith)
      (omega arith) refl sweeps

-- The buffer is in use in the first three rounds.
abbrev three_rounds : ℕ → Bool
three_rounds t = ltb t 3

abbrev a_head : PackageHead
a_head = record { version_id = 0; req_rtn_type = 0; pkg_body_len = 1; request_id = 5 }

abbrev reading : Client
reading = record a_client {
  recv_buffer = record {
    chars = 0 ∷ 0 ∷ 1 ∷ 0 ∷ 5 ∷ 0 ∷ 0 ∷ 0 ∷ 0 ∷ 0 ∷ 0 ∷ 0 ∷ 1 ∷ [];
    capacity = 13;
    right = 13;
    left = 0;
  };
  recv_stat = recv_body;
  need_read = 1;
}

abbrev a_reading : Server
a_reading = record a_server { heap = some reading ∷ [] }

body_arrived : ByteArray.contents reading.recv_buffer ≡ head_bytes a_head ++ wire a_heartbeat
unfolding le_bytes
body_arrived = refl

heartbeat_made : create_object plain 1 ≡ some a_heartbeat
unfolding create_object
heartbeat_made = refl

complete_read-work_cb_example :
    (c' : Client) × (task : CommandTask) × (a b : Server) × (complete_read junk plain 0 reading
      ≡ some (c', queue_work task ∷ []))
    × (task.cmd ≡ a_heartbeat)
    × (work_cb junk [] [] [] task (assign a_reading 0 c') ≡ some a)
    × (write_handle a
        ≡ some (
          b,
          write_client 0
                (head_bytes (posted_head heartbeat_command 0 type_req) ++ wire heartbeat_command)
              ∷ [],
        ))
unfolding new_client heartbeat_command
complete_read-work_cb_example =
    complete_read-work_cb junk plain [] [] [] 0 a_head a_heartbeat a_heartbeat a_reading reading
      refl refl refl refl refl (create-IsReady junk 1424 (omega arith)) (omega arith) (omega arith)
      body_arrived refl tt heartbeat_made tt tt

-- A client connects, sends a heartbeat in three parts and is answered; it is idle, and is deleted.
abbrev empty_loop : Loop
empty_loop = record {
  server = record {
    heap = [];
    map_conn_client = [];
    list_wevent = [];
    list_wevent_bck = [];
    stop = false;
  };
  tasks = [];
}

abbrev arriving : List Callback
arriving =
    connected true 5 80 0
    ∷ read plain 6 (bytes_read (0 ∷ 0 ∷ 1 ∷ 0 ∷ 5 ∷ 0 ∷ 0 ∷ [])) 0
    ∷ read plain 6 (bytes_read (0 ∷ 0 ∷ 0 ∷ 0 ∷ 0 ∷ [])) 0
    ∷ read plain 7 (bytes_read (1 ∷ [])) 0
    ∷ []

abbrev serving : List Callback
serving = arriving ++ worked 0 [] [] [] ∷ idle ∷ written 8 0 ∷ timer 300 ∷ []

abbrev served : Loop
served = record empty_loop { server = record empty_loop.server { heap = none ∷ [] } }

serves : run junk serving empty_loop ≡ some served
unfolding run handle connect_cb accept has_key new_client server_read_cb read_cb_client read_client
    complete_read decode_head create_object deserialize queued work_cb cmd_handle post_client
    wevent_add heartbeat_command fill_slot server_idle_cb write_handle write_all write_client_done
    hbt_timer_cb sweep is_idle close_conn remove_at copy_in ByteArray.create ByteArray.right_forward
    ByteArray.head_intercept copy_out ByteArray.left_backward le_value ByteArray.init data_size
    serialize ByteArray.append ByteArray.left_forward ByteArray.prepend le_bytes
serves = refl

run-IsAlive_example :
    IsAlive served.server.heap served.server.map_conn_client
    × ((s : Server) × (events : List ServerEvent) × (hbt_timer_cb 400 served.server
          ≡ some (s, events)))
    × ((heap : List (Option Client)) × (events : List ServerEvent) × (close_all served.server.heap
            served.server.map_conn_client
          ≡ some (heap, events)))
run-IsAlive_example = run-IsAlive junk serving empty_loop served 400 tt serves

-- The timer deletes the client while its task waits for a thread, which then uses it.
work_after_sweep : run junk (arriving ++ timer 300 ∷ worked 0 [] [] [] ∷ []) empty_loop ≡ none
unfolding run handle connect_cb accept has_key new_client server_read_cb read_cb_client read_client
    complete_read decode_head create_object deserialize queued work_cb cmd_handle post_client
    hbt_timer_cb sweep is_idle close_conn copy_in ByteArray.create ByteArray.right_forward
    ByteArray.head_intercept copy_out ByteArray.left_backward le_value
work_after_sweep = refl

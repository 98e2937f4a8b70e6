-- ===== src/Solcom/Server/Answers.antt =====
-- From a command that a client has sent to the write of the answer.
use cpp_linux_learn.Common.{
  ℕ, ◌%◌, ◌^◌, ◌≡◌, refl, true, false, some, List, [], ◌∷◌, ◌++◌, ◌==◌, arith, if◌then◌else◌,
}
use cpp_linux_learn.Solcom.ByteArray.{IsValid, contents}
use cpp_linux_learn.Solcom.Codec.{
  recv_head, recv_body, PackageHead, head_bytes, Members, Serializable, create_object,
  heartbeat_command, test_command, type_heartbeat, type_req,
}
use cpp_linux_learn.Solcom.Codec.Head.{InRange}
use cpp_linux_learn.Solcom.Codec.RoundTrip.{wire, IsSized, SameClass}
use cpp_linux_learn.Solcom.Api.Post.{IsReady, posted_head}
use cpp_linux_learn.Solcom.Server.{
  Client, Server, CommandTask, write_client, queue_work, deref, assign, complete_read, cmd_handle,
  write_handle, posted, post_client,
}
use cpp_linux_learn.Solcom.Server.Callbacks.{work_cb}
use cpp_linux_learn.Solcom.Server.Reading.{complete_read-body}
use cpp_linux_learn.Solcom.Server.Writing.{deref-set_self, post_client-write_handle}

-- A heartbeat is answered with a heartbeat, and a TestCommand with a new TestCommand.
abbrev pub answer_of : (str_data db_data int_data : List ℕ) → Serializable → Serializable
answer_of sd dd id obj =
    if obj.n_type == type_heartbeat then heartbeat_command else test_command sd dd id

cmd_handle-post_client :
    (junk : ℕ → ℕ) (fresh : Members) (sd dd id : List ℕ) (obj old : Serializable) (p : ℕ)
    (s a : Server)
    → create_object fresh obj.n_type ≡ some old
    → post_client junk (answer_of sd dd id obj) 0 type_req p s ≡ some (a, posted)
    → cmd_handle junk sd dd id obj p s ≡ some a
unfolding cmd_handle create_object
cmd_handle-post_client junk fresh sd dd id obj old p s a made runs = ground (arith, made, runs)

-- The body of a heartbeat or a TestCommand that is complete on a connected client with a free buffer,
-- while no client is registered for writing and the server is not stopping: one task is queued, the
-- thread that runs it registers the client, and the next `writeHandle` writes one thing, the answer, to
-- the client that sent the command.
pub complete_read-work_cb :
    (junk : ℕ → ℕ) (fresh : Members) (sd dd id : List ℕ) (p : ℕ) (h : PackageHead)
    (obj old : Serializable) (s : Server) (c : Client)
    → deref s.heap p ≡ some c
    → c.connected ≡ true
    → c.req_pending ≡ false
    → s.stop ≡ false
    → s.list_wevent ≡ []
    → IsReady c.req_buffer
    → InRange h
    → IsValid c.recv_buffer
    → contents c.recv_buffer ≡ head_bytes h ++ wire obj
    → c.recv_stat ≡ recv_body
    → IsSized obj.members
    → create_object fresh obj.n_type ≡ some old
    → SameClass old.members obj.members
    → IsSized (answer_of sd dd id obj).members
    → (c' : Client) × (task : CommandTask) × (a b : Server) × (complete_read junk fresh p c
        ≡ some (c', queue_work task ∷ []))
      × (task.cmd ≡ obj)
      × (work_cb junk sd dd id task (assign s p c') ≡ some a)
      × (write_handle a
          ≡ some (
            b,
            write_client p (
                  head_bytes (posted_head (answer_of sd dd id obj) 0 type_req)
                  ++ wire (answer_of sd dd id obj))
                ∷ [],
          ))
unfolding work_cb
complete_read-work_cb junk fresh sd dd id p h obj old s c at_p conn free going none_waits r i v e
      stat z made same za =
    let c' : Client = record c {
      recv_buffer = record c.recv_buffer { right = 0; left = 0 };
      recv_stat = recv_head;
      need_read = 12;
    } in
    let task : CommandTask = record {
      req_rtn_type = h.req_rtn_type;
      request_id = h.request_id % 2 ^ 32;
      client = p;
      cmd = obj;
    } in
    let (a, b, runs, writes, _, _) =
      post_client-write_handle junk (answer_of sd dd id obj) 0 type_req p (assign s p c') c'
        (deref-set_self s.heap p c c' at_p) conn free going none_waits r za in
    (
      c',
      task,
      a,
      b,
      complete_read-body junk fresh p h obj old c i v e stat z made same,
      refl,
      cmd_handle-post_client junk fresh sd dd id obj old p (assign s p c') a made runs,
      writes,
    )

-- ===== src/Deployer/Answering.antt =====
-- StragetyDeployer: a query's answer, from the database's rows to the manager's callbacks.
use cpp_linux_learn.Common.{
  ℕ, ◌^◌, ◌<◌, ◌≡◌, refl, true, some, List, [], ◌∷◌, length, arith, ltb, ◌>>=◌, codes,
}
use cpp_linux_learn.Deployer.Protocol.{Element, message_of}
use cpp_linux_learn.Deployer.Protocol.Frames.{message_of-four, message_of-four_last}
use cpp_linux_learn.Deployer.Manager.{Manager, stat_init, recv_message}
use cpp_linux_learn.Deployer.Service.{
  Service, DispatcherClient, find_client, forward, relay, inner_send, answer, is_error, send_rows,
  on_qry_by_sql,
}
use cpp_linux_learn.Deployer.Cmd
use cpp_linux_learn.Deployer.Delivery.{
  row_events, query_frames, after_answer, message_of-send_rows, recv_query_frames,
  IsResponse-answer,
}

message_of-answer :
    (a b c d : List ℕ) (rows : List (List ℕ))
    → message_of (
        inner_send a true
        ∷ inner_send b true
        ∷ inner_send c true
        ∷ inner_send d (ltb 0 (length rows))
        ∷ send_rows (length rows) 0 rows)
      ≡ some (a ∷ b ∷ c ∷ d ∷ rows)
message_of-answer a b c d [] = message_of-four_last a b c d
message_of-answer a b c d (o ∷ os) =
    message_of-four a b c d _ _ _ _ (ground arith)
      (message_of-send_rows o os (length (o ∷ os)) 0 (omega arith))

-- A thread's message goes on to its client as it is, without the frame that names the thread.
message_of-forward :
    (f : List ℕ) (fs : List (List ℕ)) → message_of (forward (f ∷ fs)) ≡ some (f ∷ fs)
unfolding message_of
message_of-forward f [] = refl
message_of-forward f (g ∷ []) = refl
message_of-forward f (g ∷ h ∷ fs) = rw (message_of-forward g (h ∷ fs))

relay-message_of :
    (thread f : List ℕ) (fs : List (List ℕ))
    → (relay (thread ∷ f ∷ fs) >>= message_of) ≡ some (f ∷ fs)
unfolding relay
relay-message_of thread f fs = message_of-forward f fs

-- What a thread sends on a query's answer is one message to the client's router, and the service
-- sends it on whole, without the frame that names the thread. The manager's
-- machine, when no message is half read, calls back once for each object, in order and unchanged, with the
-- last one flagged, or once with a null pointer when there is none; it sends nothing and is ready again.
pub on_qry_by_sql-recv_message :
    (e : Element) (id : List ℕ) (reqid : ℕ) (rows : List (List ℕ)) (error : List ℕ) (s : Service)
    (c : DispatcherClient) (m : Manager) (thread : List ℕ)
    → find_client id s.clients ≡ some c
    → reqid < 2 ^ 32
    → m.state_machine ≡ stat_init
    → let r = answer Cmd.query (is_error error) error (codes "Query Successfully") reqid in
      let frames = query_frames e r rows in
      ((on_qry_by_sql e id reqid rows error s >>= message_of) ≡ some (c.router ∷ frames))
      × ((relay (thread ∷ c.router ∷ frames) >>= message_of) ≡ some (c.router ∷ frames))
      × (recv_message frames m
          ≡ some record { manager = after_answer e r m; events = row_events e r rows; sends = [] })
unfolding on_qry_by_sql
on_qry_by_sql-recv_message e id reqid rows error s c m thread hc hq hs = (
  rw (hc, ◌>>=◌) (message_of-answer _ _ _ _ rows),
  relay-message_of thread c.router _,
  recv_query_frames e _ rows m hs
      (IsResponse-answer Cmd.query reqid _ error (codes "Query Successfully") (omega arith) hq)
      refl,
)

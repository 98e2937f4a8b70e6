-- ===== src/Zmq/Echo.antt =====
-- The messages of the clients of zmqnet, what its server end sends for them and which clients it keeps.
use cpp_linux_learn.Common.{ℕ, ◌≤◌, ◌≡◌, refl, some, List, [], ◌∷◌, ◌++◌, le→leb, length, arith}
use cpp_linux_learn.Zmq.{
  ZmqClient, ZmqServerEnd, client_send, recv_string, find_zmq_client, msg_handle, poll_function,
}

-- What a client has sent: its identity, its name and the message.
pub record ClientMessage : Type 0 where
  pub router_id : List ℕ
  pub client_id : List ℕ
  pub message : List ℕ

abbrev pub AllFit : List ClientMessage → Type 0
AllFit [] = Unit
AllFit (m ∷ ms) =
    (length m.router_id ≤ 65536)
    × (length m.client_id ≤ 65536)
    × (length m.message ≤ 65536)
    × AllFit ms

abbrev pub frames_of : List ClientMessage → List (List ℕ)
frames_of [] = []
frames_of (m ∷ ms) = client_send m.router_id m.client_id m.message ++ frames_of ms

-- Each message, back to where it came from.
abbrev pub echoes : List ClientMessage → List (List (List ℕ))
echoes [] = []
echoes (m ∷ ms) = (m.router_id ∷ m.message ∷ []) ∷ echoes ms

-- The clients, the last one first, on those that were there.
abbrev pub clients_on : List ClientMessage → List ZmqClient → List ZmqClient
clients_on [] old = old
clients_on (m ∷ ms) old =
    clients_on ms (record { router_id = m.router_id; client_id = m.client_id } ∷ old)

recv_string-fits : (f : List ℕ) → length f ≤ 65536 → recv_string f ≡ some f
unfolding recv_string
recv_string-fits f h = rw (le→leb (length f) 65536 h) refl

-- The server end, with nothing in its map, sends each message of the clients, where no part of it has more
-- than 65536 bytes, back to the client it came from, in order; its map stays empty, for a client is made
-- anew for each message and never stored, so that all of them are lost.
pub poll_function_lem :
    (ms : List ClientMessage) (s : ZmqServerEnd)
    → s.map_clients ≡ []
    → AllFit ms
    → poll_function (frames_of ms) s
      ≡ some (record { map_clients = []; unreachable = clients_on ms s.unreachable }, echoes ms)
unfolding poll_function msg_handle find_zmq_client client_send
poll_function_lem [] s e f = ground arith
poll_function_lem (m ∷ ms) s e f =
    let r = recv_string-fits m.router_id f.0 in
    let c = recv_string-fits m.client_id f.1 in
    let d = recv_string-fits m.message f.2 in
    let next : ZmqServerEnd = record {
      map_clients = [];
      unreachable = record { router_id = m.router_id; client_id = m.client_id } ∷ s.unreachable;
    } in
    let rest = poll_function_lem ms next refl f.3 in ground (arith, r, c, d, rest, e)

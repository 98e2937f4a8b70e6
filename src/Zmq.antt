-- ===== src/Zmq.antt =====
-- zmqtest: the server end and the client end of zmqnet (ZmqServerEnd.cpp, ZmqClientEnd.cpp), and the
-- replies of server.cpp and reqrepworker.cpp. ZeroMQ is seen as the frames that it delivers: a ROUTER
-- socket puts the identity of the peer in front of a message. `none` is an access outside a buffer.
-- Starting, stopping and joining the thread, and errors of zmq_recv, are not modelled.
pub mod Echo
pub mod Replies
mod Tests
use cpp_linux_learn.Common.{
  ℕ, zero, suc, ◌+◌, ◌>>=◌, Bool, true, false, ◌&&◌, Option, none, some, List, [], ◌∷◌, ◌++◌, ltb,
  leb, ◌=ᵇ◌, if◌then◌else◌, length, take, drop, replicate, codes, until_nul,
}

pub record ZmqClient : Type 0 where
  pub router_id : List ℕ
  pub client_id : List ℕ

-- mapClients, and the clients that `new` made and nothing refers to any more.
pub record ZmqServerEnd : Type 0 where
  pub map_clients : List (List ℕ × ZmqClient)
  pub unreachable : List ZmqClient

-- The frames that ZmqClientEnd::Send gives to a DEALER socket, as the ROUTER socket delivers them.
unfoldable pub client_send : List ℕ → List ℕ → List ℕ → List (List ℕ)
client_send router_id client_id message = router_id ∷ client_id ∷ message ∷ []

-- `zmq_recv` into the array of 65536 bytes, and the string made of what it returns, which is the size
-- of the frame.
unfoldable pub recv_string : List ℕ → Option (List ℕ)
recv_string frame = if leb (length frame) 65536 then some frame else none

unfoldable pub find_zmq_client : List ℕ → List (List ℕ × ZmqClient) → Option ZmqClient
find_zmq_client client_id [] = none
find_zmq_client client_id ((key, c) ∷ clients) =
    if key =ᵇ client_id then some c else find_zmq_client client_id clients

-- MsgHandle: the state, and the frames that Send sends.
abbrev pub looked_up : List ℕ → List ℕ → ZmqServerEnd → Option ZmqClient → ZmqServerEnd
looked_up router_id client_id s (some c) = s
looked_up router_id client_id s none =
    let client : ZmqClient = record { router_id = router_id; client_id = client_id } in
    record s { unreachable = client ∷ s.unreachable }

unfoldable pub msg_handle : List ℕ → List ℕ → List ℕ → ZmqServerEnd → ZmqServerEnd × List (List ℕ)
unfolding find_zmq_client
msg_handle router_id client_id message s = (
  looked_up router_id client_id s (find_zmq_client client_id s.map_clients),
  router_id ∷ message ∷ [],
)

-- The rounds of pollFunction over the frames that have come, until there are fewer than three.
unfoldable pub poll_function :
    List (List ℕ) → ZmqServerEnd → Option (ZmqServerEnd × List (List (List ℕ)))
unfolding recv_string
poll_function [] s = some (s, [])
poll_function (r ∷ []) s = some (s, [])
poll_function (r ∷ c ∷ []) s = some (s, [])
poll_function (r ∷ c ∷ m ∷ frames) s = do
  router_id ← recv_string r
  client_id ← recv_string c
  message ← recv_string m
  let (t, sent) = msg_handle router_id client_id message s
  (u, more) ← poll_function frames t
  some (u, sent ∷ more)

-- The loop `for (i = 0; i < 31; i++)` that stops at the first digit, from `i` on.
pub is_digit : ℕ → Bool
is_digit c = leb b'0' c && leb c b'9'

unfoldable pub first_digit : List ℕ → ℕ → ℕ
unfolding is_digit
first_digit recvstr zero = 0
first_digit [] (suc n) = 0
first_digit (c ∷ recvstr) (suc n) = if is_digit c then 0 else suc (first_digit recvstr n)

-- The array `recvstr` of 32 bytes after a message.
unfoldable pub received : List ℕ → List ℕ
received message = take 32 (take 31 message ++ replicate 32 0)

-- `sprintf(sendstr, "World_%s", recvstr + i)` into an array of 32 bytes, and what is sent of it.
unfoldable pub reply : List ℕ → Option (List ℕ)
unfolding first_digit received
reply message =
    let recvstr = received message in
    let text = codes "World_" ++ until_nul (drop (first_digit recvstr 31) recvstr) in
    if ltb (length text) 32 then some text else none

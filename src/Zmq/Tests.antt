-- ===== src/Zmq/Tests.antt =====
-- Requests and their answers, and the frames of a client that sends one frame too many.
use cpp_linux_learn.Common.{List, arith, ◌≡◌, refl, none, some, [], ◌∷◌, codes}
use cpp_linux_learn.Zmq.Echo.{ClientMessage, frames_of, clients_on, echoes, poll_function_lem}
use cpp_linux_learn.Zmq.{
  ZmqServerEnd, client_send, recv_string, find_zmq_client, msg_handle, poll_function, first_digit,
  received, reply,
}

reply_seven : reply (codes "Hello_7") ≡ some (codes "World_7")
unfolding reply first_digit received
reply_seven = refl

-- A request without a digit is answered with what is behind its 31 bytes: nothing.
reply_no_digit : reply (codes "Hello") ≡ some (codes "World_")
unfolding reply first_digit received
reply_no_digit = refl

-- Twenty-six digits are one too many.
reply_too_long : reply (codes "12345678901234567890123456") ≡ none
unfolding reply first_digit received
reply_too_long = refl

abbrev two_messages : List ClientMessage
two_messages =
    record { router_id = codes "A"; client_id = codes "a"; message = codes "x" }
    ∷ record { router_id = codes "A"; client_id = codes "a"; message = codes "y" }
    ∷ []

abbrev empty_server : ZmqServerEnd
empty_server = record { map_clients = []; unreachable = [] }

-- The client "A" sends "x" and "y" as two frames, then the client "B" sends "z": the name of "B" goes to
-- the peer "y", and what comes after waits.
shifted :
    poll_function
      (codes "A"
        ∷ codes "a"
        ∷ codes "x"
        ∷ codes "y"
        ∷ client_send (codes "B") (codes "b") (codes "z"))
      empty_server
    ≡ some (
      record {
        map_clients = [];
        unreachable =
            record { router_id = codes "y"; client_id = codes "B" }
            ∷ record { router_id = codes "A"; client_id = codes "a" }
            ∷ [];
      },
      (codes "A" ∷ codes "x" ∷ []) ∷ (codes "y" ∷ codes "b" ∷ []) ∷ [],
    )
unfolding poll_function client_send recv_string msg_handle find_zmq_client
shifted = refl

poll_function_lem_example :
    poll_function (frames_of two_messages) empty_server
    ≡ some
        (record { map_clients = []; unreachable = clients_on two_messages [] }, echoes two_messages)
poll_function_lem_example =
    poll_function_lem two_messages empty_server refl
      (omega arith, omega arith, omega arith, (omega arith, omega arith, omega arith, tt))

-- ===== src/Solcom/Api/RunTests.antt =====
-- Runs of the callbacks of SolcomApi on small states.
use cpp_linux_learn.Common.{
  ◌+◌, ◌≡◌, refl, true, false, copy_in, copy_out, none, some, List, [], ◌∷◌, inr, arith,
}
use cpp_linux_learn.Solcom.ByteArray
use cpp_linux_learn.Solcom.ByteArray.{ByteArray, head_intercept, init, right_forward}
use cpp_linux_learn.Solcom.CachedBuffer.{is_empty}
use cpp_linux_learn.Solcom.CachedBuffer.Positions
use cpp_linux_learn.Solcom.CachedBuffer.Positions.{used}
use cpp_linux_learn.Solcom.Codec.{recv_body, decode_head}
use cpp_linux_learn.Solcom.Api.{
  idle_write, Api, Event, uv_write, idle_cb, idle_keep_alive, write_done, write_failed, read_bytes,
  on_complete, req_handle, close_connection, connect_succeeded,
}
use cpp_linux_learn.Solcom.Api.Sending.{queue}
use cpp_linux_learn.Solcom.Api.Outgoing.{idle_cb-write_done}
use cpp_linux_learn.Solcom.Api.Receive.{feed}
use cpp_linux_learn.Solcom.Api.Flight.{writes}
use cpp_linux_learn.Solcom.Api.Steps.{
  Link, done, then, connects, IsGuarded, Run-IsGuarded, write_failed-idle_cb,
}
use cpp_linux_learn.Solcom.Api.Tests.{junk, new_array, idle_api, head_part, head_rest}

abbrev two_bytes : ByteArray
two_bytes = record { chars = 9 ∷ 8 ∷ []; capacity = 2; right = 2; left = 0 }

-- One message of two bytes waits.
abbrev waiting_api : Api
waiting_api = record idle_api {
  send_cache = record {
    elements = two_bytes ∷ new_array ∷ [];
    capacity = 2;
    head = 0;
    current = 0;
    tail = 0;
  };
}

waiting_ring-IsValid : Positions.IsValid waiting_api.send_cache
waiting_ring-IsValid = record {
  power = (1, refl, omega arith);
  sized = refl;
  fits = omega arith;
  head_u64 = omega arith;
  tail_u64 = omega arith;
}

idle_cb-write_done_example :
    (b : Api) × (idle_cb junk 3 waiting_api ≡ some (b, uv_write (9 ∷ 8 ∷ []) ∷ []))
    × (queue b ≡ two_bytes ∷ [])
    × (queue (write_done 4 b) ≡ [])
    × (b ≡ record waiting_api { req_busy = true })
idle_cb-write_done_example =
    idle_cb-write_done junk waiting_api two_bytes [] 3 4 waiting_ring-IsValid refl refl refl
      (omega arith) refl (omega arith) refl

abbrev quiet_link : Link
quiet_link = record { api = idle_api; in_flight = 0 }

Run-IsGuarded_example : IsGuarded (record {
  api = (connect_succeeded idle_api).0;
  in_flight = 0 + writes (connect_succeeded idle_api).1;
})
Run-IsGuarded_example = Run-IsGuarded {junk = junk} {l = quiet_link} refl (then done connects)

-- A write of the message is in flight; it fails, and the object connects again.
abbrev writing_api : Api
writing_api = record waiting_api { req_busy = true }

abbrev reconnected_link : Link
reconnected_link = record {
  api = (connect_succeeded (write_failed writing_api).0).0;
  in_flight = 0 + writes (connect_succeeded (write_failed writing_api).0).1;
}

nothing_written : idle_cb junk 0 reconnected_link.api ≡ some (reconnected_link.api, [])
unfolding idle_cb idle_write idle_keep_alive write_failed close_connection connect_succeeded
    is_empty
nothing_written = refl

write_failed-idle_cb_example : writes [] ≡ 0
write_failed-idle_cb_example =
    write_failed-idle_cb junk writing_api reconnected_link 0 reconnected_link.api []
      (inr (refl, refl)) (then done connects) nothing_written

-- The last connection broke within a body.
abbrev cut_api : Api
cut_api = record idle_api { recv_stat = recv_body; has_spi = false }

abbrev fed_api : Api
fed_api = elim (feed junk (head_part ∷ head_rest ∷ []) (connect_succeeded cut_api).0) [
  | none ↦ cut_api
  | some (b, _) ↦ b
]

head_taken :
    feed junk (head_part ∷ head_rest ∷ []) (connect_succeeded cut_api).0 ≡ some (fed_api, [])
unfolding feed read_bytes connect_succeeded on_complete copy_in copy_out decode_head head_intercept
    req_handle right_forward init ByteArray.create
head_taken = refl

abbrev no_events : List Event
no_events = []

kept_alive : idle_keep_alive junk 2 idle_api ≡ some (idle_api, [])
unfolding idle_keep_alive
kept_alive = refl

-- ===== src/Asio/Tests.antt =====
-- A server whose first client is lost and whose third gets its number.
use cpp_linux_learn.Common.{◌≡◌, refl, inl, ◌>>=◌, none, some, true, false, List, [], ◌∷◌, arith}
use cpp_linux_learn.Asio.{
  ServerEnd, success, waiting, writing, async_accept, create_client_id, insert_id, close_client,
  beat, beat_all, deadline_timer_handle, erase_id, insert_client, accept_handler, read_handler,
  write_handler, Handler, deadline_called, accept_called, handle, run,
}
use cpp_linux_learn.Asio.Forgotten.{IsOut, Ignores, accept_handler-forgotten}

abbrev started : ServerEnd
started = record { objects = []; client_map = []; max_cli_id = 0; ava_ids = [] }

-- The first client does not answer six times; the second takes the number 2, the third the number 1.
abbrev handlers : List Handler
handlers =
    accept_called success 0
    ∷ deadline_called
    ∷ deadline_called
    ∷ deadline_called
    ∷ deadline_called
    ∷ deadline_called
    ∷ deadline_called
    ∷ accept_called success 1
    ∷ []

abbrev lost : ServerEnd
lost = record {
  objects =
      record { id = 1; hbt_count = 6; is_open = false }
      ∷ record { id = 2; hbt_count = 0; is_open = true }
      ∷ record { id = 1; hbt_count = 0; is_open = true }
      ∷ [];
  client_map = (1, none) ∷ (2, some 1) ∷ [];
  max_cli_id = 2;
  ava_ids = [];
}

lost_end : run handlers (async_accept started).0 ≡ some lost
unfolding run handle async_accept create_client_id insert_id close_client beat beat_all
    deadline_timer_handle erase_id insert_client accept_handler read_handler write_handler
lost_end = refl

abbrev next : ServerEnd
next = record lost {
  objects =
      record { id = 1; hbt_count = 6; is_open = false }
      ∷ record { id = 2; hbt_count = 1; is_open = true }
      ∷ record { id = 1; hbt_count = 0; is_open = true }
      ∷ record { id = 3; hbt_count = 0; is_open = true }
      ∷ [];
  max_cli_id = 3;
}

abbrev later : ServerEnd
later = record next {
  objects =
      record { id = 1; hbt_count = 6; is_open = false }
      ∷ record { id = 2; hbt_count = 2; is_open = true }
      ∷ record { id = 1; hbt_count = 0; is_open = true }
      ∷ record { id = 3; hbt_count = 0; is_open = true }
      ∷ [];
}

next_end : (accept_handler success 2 lost >>= λ a. run (deadline_called ∷ []) a.0) ≡ some next
unfolding run handle async_accept create_client_id insert_id close_client beat beat_all
    deadline_timer_handle erase_id insert_client accept_handler read_handler write_handler
next_end = refl

later_end : deadline_timer_handle next ≡ some (later, writing 1 ∷ waiting ∷ [])
unfolding beat beat_all deadline_timer_handle close_client insert_id
later_end = refl

accept_handler-forgotten_example :
    IsOut 2 next.client_map × Ignores 2 next (later, writing 1 ∷ waiting ∷ [])
accept_handler-forgotten_example =
    accept_handler-forgotten 2 (record { id = 1; hbt_count = 0; is_open = true })
      (deadline_called ∷ []) lost next (later, writing 1 ∷ waiting ∷ []) refl (inl refl)
      (omega arith, tt) (tt, tt) next_end later_end

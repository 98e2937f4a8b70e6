-- ===== src/Deployer/Lifecycle/Tests.antt =====
-- A manager that is opened, connected, closed and opened again.
use cpp_linux_learn.Common.{◌≡◌, refl, true, false, some, List, [], ◌∷◌, codes}
use cpp_linux_learn.Deployer.Lifecycle.{
  absent, begun, leaving, AsyncApi, closed, aborted, connect, start, stop, poll_step,
  open_async_api, call_step, Move, call, poll, event, step, run,
}

abbrev new_api : AsyncApi
new_api = record {
  init_connect = false;
  stopped = false;
  polling = false;
  tcp_connected = false;
  addr = codes "tcp://127.0.0.1:5889";
  thread = absent;
}

abbrev moves : List Move
moves = call true ∷ poll true ∷ event true ∷ call true ∷ poll true ∷ poll true ∷ call true ∷ []

-- The manager is closed, and still says that it is connected.
abbrev closed_api : AsyncApi
closed_api = record new_api { stopped = true; tcp_connected = true }

-- OpenAsyncApi twice, before the thread has set `m_bPolling`: the program ends.
opened_twice :
    open_async_api true (open_async_api true new_api).api
    ≡ record { api = record new_api { init_connect = true; thread = begun }; phase = aborted }
unfolding open_async_api connect start
opened_twice = refl

-- An address that the socket does not take, and one that the thread cannot disconnect.
connect_throws : (open_async_api false new_api).phase ≡ aborted
unfolding open_async_api connect
connect_throws = refl

disconnect_throws :
    run
      (call true ∷ call true ∷ poll true ∷ poll false ∷ [])
      (record { api = new_api; phase = closed })
    ≡ some (record {
      api = record new_api { init_connect = true; stopped = true; thread = leaving };
      phase = aborted;
    })
unfolding run step call_step open_async_api connect start stop poll_step
disconnect_throws = refl

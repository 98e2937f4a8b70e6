-- ===== src/Deployer/Lifecycle.antt =====
-- StragetyDeployer/AsyncZmqApi.h, AsyncZmqApi.cpp, and OpenAsyncApi and CloseAsyncApi of
-- DispatcherManager.cpp: connecting, starting and stopping. A step is what the calling thread or the
-- poll thread does between two points at which the other can come in. What the sockets carry is not
-- seen here. A thread of the standard library that was started and not joined is joinable also after
-- its function has returned; an assignment to it ends the program. Starting a thread is taken to succeed.
pub mod Reopen
mod Tests
use cpp_linux_learn.Common.{
  ℕ, ◌>>=◌, Bool, true, false, Option, none, some, List, [], ◌∷◌, if◌then◌else◌,
}

-- m_thdPoll: none, started and not yet in pollFunc, in its loop, past the loop, returned.
pub data Thread : Type 0 where
  absent begun looping leaving returned : Thread

pub record AsyncApi : Type 0 where
  pub init_connect : Bool
  pub stopped : Bool
  pub polling : Bool
  pub tcp_connected : Bool
  pub addr : List ℕ
  pub thread : Thread

-- Where the calling thread is: nothing is open, OpenAsyncApi has returned success, CloseAsyncApi waits.
pub data Phase : Type 0 where
  closed opened closing aborted : Phase

pub record Session : Type 0 where
  pub api : AsyncApi
  pub phase : Phase

-- Connect: whether it returns ASYNCZMQAPI_OK. `ok` is whether the socket's `connect` comes back; else it
-- throws, and so does Connect, for which `none` stands.
unfoldable pub connect : (ok : Bool) → AsyncApi → List ℕ → Option (AsyncApi × Bool)
connect ok a [] = some (a, a.init_connect)
connect ok a (c ∷ cs) =
    if a.init_connect
    then some (a, true)
    else if ok
    then some (record a { init_connect = true }, true)
    else none

-- Start. `none` is the assignment to a joinable thread.
abbrev pub new_thread : AsyncApi → Thread → Option AsyncApi
new_thread a absent = some (record a { thread = begun })
new_thread a begun = none
new_thread a looping = none
new_thread a leaving = none
new_thread a returned = none

unfoldable pub start : AsyncApi → Option AsyncApi
start a =
    let b = record a { stopped = false } in if b.polling then some b else new_thread b b.thread

unfoldable pub stop : AsyncApi → AsyncApi
stop a = record a { stopped = true }

-- Join. `none` is the wait.
unfoldable pub join : AsyncApi → Thread → Option AsyncApi
join a absent = some a
join a begun = none
join a looping = none
join a leaving = none
join a returned = some (record a { thread = absent })

-- A step of pollFunc: `none` where the thread has none, and `some none` where a call of a socket in a round
-- of the loop, or `disconnect` behind it, throws on the thread, so that the program ends; `ok` is
-- whether the step's calls come back. The rounds of the loop leave the state.
unfoldable pub poll_step : (ok : Bool) → AsyncApi → Thread → Option (Option AsyncApi)
poll_step ok a absent = none
poll_step ok a begun =
    if a.stopped
    then some (some (record a { thread = leaving }))
    else some (some (record a { polling = true; thread = looping }))
poll_step ok a looping =
    if a.stopped
    then some (some (record a { thread = leaving }))
    else if ok
    then some (some a)
    else some none
poll_step ok a leaving =
    if ok
    then some (some (record a { init_connect = false; polling = false; thread = returned }))
    else some none
poll_step ok a returned = none

-- on_event_connected and on_event_disconnected, from check_event within the loop.
unfoldable pub event_step : Bool → AsyncApi → Thread → Option AsyncApi
event_step b a absent = none
event_step b a begun = none
event_step b a looping = some (record a { tcp_connected = b })
event_step b a leaving = none
event_step b a returned = none

abbrev pub phase_after : AsyncApi → Option AsyncApi → Session
phase_after a none = record { api = a; phase = aborted }
phase_after a (some b) = record { api = b; phase = opened }

-- OpenAsyncApi. Nothing in the program catches what Connect throws.
abbrev pub started : AsyncApi → Option (AsyncApi × Bool) → Session
started a none = record { api = a; phase = aborted }
started a (some (b, ok)) =
    if ok then phase_after b (start b) else record { api = b; phase = closed }

unfoldable pub open_async_api : Bool → AsyncApi → Session
unfolding connect start
open_async_api ok a = started a (connect ok a a.addr)

-- The caller opens, and closes what is open: Stop, and then Join.
unfoldable pub call_step : Bool → Session → Phase → Option Session
unfolding open_async_api stop join
call_step ok s closed = some (open_async_api ok s.api)
call_step ok s opened = some (record { api = stop s.api; phase = closing })
call_step ok s closing = do b ← join s.api s.api.thread; some (record { api = b; phase = closed })
call_step ok s aborted = none

abbrev pub after_poll : Session → Option AsyncApi → Session
after_poll s none = record s { phase = aborted }
after_poll s (some b) = record s { api = b }

-- The flags are whether the step's calls of the sockets come back.
pub data Move : Type 0 where
  call poll : Bool → Move
  event : Bool → Move

unfoldable pub step : Move → Session → Option Session
unfolding call_step poll_step event_step
step (call ok) s = call_step ok s s.phase
step (poll ok) s = do b ← poll_step ok s.api s.api.thread; some (after_poll s b)
step (event c) s = do b ← event_step c s.api s.api.thread; some (record s { api = b })

unfoldable pub run : List Move → Session → Option Session
run [] s = some s
run (m ∷ ms) s = do t ← step m s; run ms t

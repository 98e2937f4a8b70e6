-- ===== src/Deployer/Lifecycle/Reopen.antt =====
-- A manager that is opened and closed by turns, whatever the poll thread does in between.
use cpp_linux_learn.Common.{◌≡◌, ◌≢◌, true, false, List, [], ◌∷◌}
use cpp_linux_learn.Deployer.Lifecycle.{
  Thread, absent, begun, looping, leaving, returned, AsyncApi, Phase, closed, opened, closing,
  aborted, Session, Move, call, poll, event,
}

-- As the constructors leave it.
abbrev pub IsNew : AsyncApi → Type 0
IsNew a = (a.init_connect ≡ false) × (a.polling ≡ false) × (a.thread ≡ absent)

abbrev Polls : AsyncApi → Thread → Type 0
Polls a absent = ⊥
Polls a begun = (a.init_connect ≡ true) × (a.polling ≡ false)
Polls a looping = (a.init_connect ≡ true) × (a.polling ≡ true)
Polls a leaving = (a.init_connect ≡ true) × (a.stopped ≡ true)
Polls a returned = (a.init_connect ≡ false) × (a.polling ≡ false) × (a.stopped ≡ true)

abbrev Holds : AsyncApi → Phase → Type 0
Holds a closed = (a.init_connect ≡ false) × (a.polling ≡ false) × (a.thread ≡ absent)
Holds a opened = (a.stopped ≡ false) × Polls a a.thread
Holds a closing = (a.stopped ≡ true) × Polls a a.thread
Holds a aborted = ⊥

record Inv (s : Session) : Type 0 where
  holds : Holds s.api s.phase

-- No call of a socket throws.
abbrev pub NoThrow : List Move → Type 0
NoThrow [] = Unit {0}
NoThrow (call ok ∷ ms) = (ok ≡ true) × NoThrow ms
NoThrow (poll ok ∷ ms) = (ok ≡ true) × NoThrow ms
NoThrow (event c ∷ ms) = NoThrow ms

-- What a caller finds between its calls.
abbrev pub IsSound : AsyncApi → Phase → Type 0
IsSound a closed = IsNew a
IsSound a opened = (a.stopped ≡ false) × (a.init_connect ≡ true) × (a.thread ≢ absent)
IsSound a closing = a.stopped ≡ true
IsSound a aborted = ⊥

-- ===== src/Deployer/Service/Poll.antt =====
-- StragetyDeployer/DispatcherService.cpp, lines 34-238 and 590-608: the service's loop. One step
-- reads the clock once.
use cpp_linux_learn.Common.{
  ℕ, ◌+◌, ◌>>=◌, Bool, true, false, not, ◌&&◌, Option, none, some, List, [], ◌∷◌, ◌==◌, ltb, slice,
  if◌then◌else◌, codes, c_string, ◌=ᵇ◌,
}
use cpp_linux_learn.Deployer.Protocol.{Sent, int_frame, int_at_front, active_push}
use cpp_linux_learn.Deployer.Service.State.{
  Service, DispatcherClient, Step, timeout, recount, identify_user, has_name, find_client,
  create_client,
}
use cpp_linux_learn.Deployer.Service.Frames.{recv, recv_pod_object}
use cpp_linux_learn.Deployer.Service.Commands.{
  inner_send, respond, response_of, with_client, on_recv_cmd,
}
use cpp_linux_learn.Deployer.Cmd
use cpp_linux_learn.Deployer.Err

-- `updManagerCache` on the rows of the table `ManageUser`, each of 128 bytes with the name in front.
abbrev pub insert_name : List ℕ → List (List ℕ) → List (List ℕ)
insert_name n ns = if has_name n ns then ns else n ∷ ns

abbrev pub names_of : List (List ℕ) → List (List ℕ) → Option (List (List ℕ))
names_of [] names = some names
names_of (row ∷ rows) names = do
  name ← c_string (slice row 0 64)
  names_of rows (insert_name name names)

unfoldable pub refresh_cache : List (List ℕ) → Service → Option Service
refresh_cache rows s = do names ← names_of rows []; some (record s { manager_cache = names })

-- The request's number in a message that is refused: 0 when no frame follows the command.
abbrev pub reqid_at_front : List (List ℕ) → Option ℕ
reqid_at_front [] = some 0
reqid_at_front (f ∷ fs) = int_at_front f

abbrev pub reqid_or_zero : List (List ℕ) → Option ℕ
reqid_or_zero [] = some 0
reqid_or_zero (f ∷ fs) = do (reqid, rest) ← recv_pod_object (f ∷ fs); some reqid

-- `m_mapClients.find(strIdentity)`, and the entry that is made when there is none.
abbrev pub or_create : List ℕ → ℕ → Service → Option DispatcherClient → Service × DispatcherClient
or_create id now s none =
    (record s { clients = create_client id now ∷ s.clients }, create_client id now)
or_create id now s (some c) = (s, c)

abbrev pub find_or_create : List ℕ → ℕ → Service → Service × DispatcherClient
find_or_create id now s = or_create id now s (find_client id s.clients)

abbrev pub take_up : List ℕ → List ℕ → ℕ → ℕ → List ℕ → List (List ℕ) → Service → Option Step
take_up junk router now cmd id fs s =
    on_recv_cmd junk now cmd id fs
      (with_client id (λ d. record d { router = router; last_read = now }) s)

abbrev pub refuse : List ℕ → List ℕ → ℕ → ℕ → List ℕ → ℕ → Service → Step
refuse junk router cmd err text reqid s = record {
  service = s;
  sends = respond router (response_of junk cmd err reqid text);
  tasks = [];
}

-- The part of `pollFunc` that a message from a client leads to, lines 91 to 190; the frames that no
-- handler received are skipped.
abbrev pub serve : List ℕ → List ℕ → ℕ → ℕ → List ℕ → List (List ℕ) → Service → Option Step
serve junk router now cmd id fs s =
    let found = find_or_create id now s in
    if not found.1.login && (not (cmd == Cmd.login) && not (cmd == Cmd.keep_alive))
    then (do
      reqid ← reqid_or_zero fs
      some (refuse junk router cmd Err.no_login (codes "No-Login Error") reqid found.0))
    else if found.1.login && not (found.1.router =ᵇ router)
    then (do
      reqid ← reqid_or_zero fs
      some (refuse junk router cmd Err.multi_login (codes "Multi-Login Error") reqid found.0))
    else take_up junk router now cmd id fs found.0

abbrev pub answer_to : List ℕ → List ℕ → ℕ → ℕ → List ℕ → List (List ℕ) → Service → Option Step
answer_to junk router now cmd id fs s =
    if not (identify_user id s)
    then (do
      reqid ← reqid_at_front fs
      some (refuse junk router cmd Err.identify_err (codes "Identify Error") reqid s))
    else serve junk router now cmd id fs s

unfoldable pub poll_message : List ℕ → ℕ → List (List ℕ) → Service → Option Step
poll_message junk now message s = do
  (router, fs) ← recv message
  (id, fs1) ← recv fs
  (cmd_frame, fs2) ← recv fs1
  cmd ← int_at_front cmd_frame
  answer_to junk router now cmd id fs2 s

-- A message of a worker thread is sent on without its router frame, lines 75 to 90.
abbrev pub forward : List (List ℕ) → List Sent
forward [] = []
forward (f ∷ []) = inner_send f false ∷ []
forward (f ∷ g ∷ fs) = inner_send f true ∷ forward (g ∷ fs)

unfoldable pub relay : List (List ℕ) → Option (List Sent)
relay message = do
  (router, fs) ← recv message
  (first, rest) ← recv fs
  some (forward (first ∷ rest))

-- `katimeHandle`.
abbrev pub is_silent : ℕ → DispatcherClient → Bool
is_silent now c = ltb (c.last_read + 60000) now

abbrev pub check_client : ℕ → DispatcherClient → DispatcherClient
check_client now c = record c {
  login = if is_silent now c then false else c.login;
  last_write = if is_silent now c then c.last_write else now;
}

abbrev pub after_katime : ℕ → List DispatcherClient → List DispatcherClient
after_katime now [] = []
after_katime now (c ∷ cs) = check_client now c ∷ after_katime now cs

abbrev pub katime_sends : ℕ → List DispatcherClient → List Sent
katime_sends now [] = []
katime_sends now (c ∷ cs) =
    let rest = katime_sends now cs in
    if is_silent now c
    then rest
    else inner_send c.router true
      ∷ inner_send (int_frame active_push) true
      ∷ inner_send (int_frame Cmd.keep_alive) false
      ∷ rest

unfoldable pub katime_handle : ℕ → Service → Service × List Sent
katime_handle now s =
    (record s { clients = after_katime now s.clients }, katime_sends now s.clients)

-- The front of an iteration of `pollFunc`: the cache, on the table's rows, and the timer.
abbrev pub check_cache : List (List ℕ) → Service → Option Service
check_cache rows s =
    if s.upd_manager_cache
    then refresh_cache rows (record s { upd_manager_cache = false })
    else some s

abbrev pub check_timer : ℕ → Service → Service × List Sent
check_timer now s =
    let fired = katime_handle now s in
    if timeout now s.timer_ka
    then (record fired.0 { timer_ka = recount now s.timer_ka }, fired.1)
    else (s, [])

unfoldable pub poll_front : ℕ → List (List ℕ) → Service → Option (Service × List Sent)
poll_front now rows s = do s1 ← check_cache rows s; some (check_timer now s1)

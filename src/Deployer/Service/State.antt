-- ===== src/Deployer/Service/State.antt =====
-- StragetyDeployer/DispatcherService.h: the service's fields and its map of clients. Times are
-- milliseconds of the system clock. The map is the list of its values, keyed by their identity; a
-- `shared_ptr` to one of them is its key, for none is ever erased or replaced.
use cpp_linux_learn.Common.{
  ℕ, ◌+◌, Bool, true, false, Option, none, some, List, [], ◌∷◌, leb, if◌then◌else◌, ◌=ᵇ◌,
}
use cpp_linux_learn.Deployer.Protocol.{Element, Sent}

-- `Timer`, without the handle it was given.
pub record Timer : Type 0 where
  pub trigtime : ℕ
  pub mills : ℕ

abbrev pub new_timer : ℕ → ℕ → Timer
new_timer mills now = record { trigtime = now + mills; mills = mills }

abbrev pub recount : ℕ → Timer → Timer
recount now t = record t { trigtime = now + t.mills }

abbrev pub timeout : ℕ → Timer → Bool
timeout now t = leb t.trigtime now

-- `DispatcherClient`.
pub record DispatcherClient : Type 0 where
  pub router : List ℕ
  pub identify : List ℕ
  pub last_write : ℕ
  pub last_read : ℕ
  pub login : Bool

pub record Service : Type 0 where
  pub clients : List DispatcherClient
  pub timer_ka : Timer
  pub manager_cache : List (List ℕ)
  pub upd_manager_cache : Bool

-- What `threadPool.submit` is given: the member function, its instance and what is bound to it.
pub data Task : Type 0 where
  qry_by_sql : Element → List ℕ → List ℕ → ℕ → Task
  del_by_sql : Element → List ℕ → List ℕ → ℕ → Task
  ins_by_objects : Element → List ℕ → List (List ℕ) → ℕ → Task
  del_by_objects : Element → List ℕ → List (List ℕ) → ℕ → Task
  upd_by_objects : Element → List ℕ → List (List ℕ) → ℕ → Task

-- What a handler leaves: the state, what it sent and what it submitted. The frames of the message
-- that it did not receive are received and dropped, as `skipRemainMFrame` and the end of the loop do.
pub record Step : Type 0 where
  pub service : Service
  pub sends : List Sent
  pub tasks : List Task

-- `DispatcherService`, with the clock's time.
unfoldable pub new_service : ℕ → Service
new_service now = record {
  clients = [];
  timer_ka = new_timer 10000 now;
  manager_cache = [];
  upd_manager_cache = true;
}

-- `identifyUser`.
abbrev pub has_name : List ℕ → List (List ℕ) → Bool
has_name name [] = false
has_name name (n ∷ ns) = let rest = has_name name ns in if n =ᵇ name then true else rest

unfoldable pub identify_user : List ℕ → Service → Bool
identify_user id s = has_name id s.manager_cache

-- `m_mapClients.find`, a change through the pointer, and `m_mapClients[id] = client` of a new key.
abbrev pub find_client : List ℕ → List DispatcherClient → Option DispatcherClient
find_client id [] = none
find_client id (c ∷ cs) = let rest = find_client id cs in if c.identify =ᵇ id then some c else rest

abbrev pub change_client :
    List ℕ → (DispatcherClient → DispatcherClient) → List DispatcherClient → List DispatcherClient
change_client id f [] = []
change_client id f (c ∷ cs) =
    let rest = change_client id f cs in if c.identify =ᵇ id then f c ∷ cs else c ∷ rest

-- `DispatcherClient()` with its identity set.
abbrev pub create_client : List ℕ → ℕ → DispatcherClient
create_client id now = record {
  router = [];
  identify = id;
  last_write = now;
  last_read = now;
  login = false;
}

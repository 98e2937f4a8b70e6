-- ===== src/Deployer/Undisturbed.antt =====
-- StragetyDeployer: a session over whole runs of the service in which its client is not heard of.
use cpp_linux_learn.Common.{
  ℕ, ◌+◌, ◌≤◌, ◌≡◌, refl, ap, ◌∙◌, Bool, true, false, some, List, [], ◌∷◌, ◌=ᵇ◌, ltb, OnSome,
  OnSome-bind, OnSome-some, arith,
}
use cpp_linux_learn.Deployer.Protocol.{Element}
use cpp_linux_learn.Deployer.Service.{
  Service, DispatcherClient, Step, find_client, poll_message, katime_handle, refresh_cache,
  names_of, finish,
}
use cpp_linux_learn.Deployer.Sessions.{clients-store_cache_bool}
use cpp_linux_learn.Deployer.Isolation.{poll_message-other_router}
use cpp_linux_learn.Deployer.KeepAlive.{katime_handle_lem}

-- Runs of messages from other routers than `router`, of checks of the timer up to the time `limit`, of new
-- caches, and of answers without objects.
pub data OthersRun (router : List ℕ) (limit : ℕ) : Service → Service → Type 0 where
  done : (s : Service) → OthersRun router limit s s
  message :
      (junk other id cmd_frame : List ℕ) (now : ℕ) (fs : List (List ℕ)) (s t : Service)
      (step : Step)
      → (router =ᵇ other) ≡ false
      → poll_message junk now (other ∷ id ∷ cmd_frame ∷ fs) s ≡ some step
      → OthersRun router limit step.service t
      → OthersRun router limit s t
  timer :
      (now : ℕ) (s t : Service)
      → now ≤ limit
      → OthersRun router limit (katime_handle now s).0 t
      → OthersRun router limit s t
  cache :
      (rows : List (List ℕ)) (s s1 t : Service)
      → refresh_cache rows s ≡ some s1
      → OthersRun router limit s1 t
      → OthersRun router limit s t
  answered :
      (cmd : ℕ) (ok : List ℕ) (e : Element) (id : List ℕ) (reqid : ℕ) (failed : Bool)
      (error : List ℕ) (s t : Service) (step : Step)
      → finish cmd ok e id reqid failed error s ≡ some step
      → OthersRun router limit step.service t
      → OthersRun router limit s t

-- The session of a client that was last heard of at a time.
pub record IsOpen (id router : List ℕ) (heard : ℕ) (s : Service) : Type 0 where
  pub entry : DispatcherClient
  pub found : find_client id s.clients ≡ some entry
  pub login : entry.login ≡ true
  pub same_router : entry.router ≡ router
  pub last_read : entry.last_read ≡ heard

-- Only the entry matters.
IsOpen-clients :
    (id router : List ℕ) (heard : ℕ) (s t : Service)
    → t.clients ≡ s.clients
    → IsOpen id router heard s
    → IsOpen id router heard t
IsOpen-clients id router heard s t e h = record {
  entry = h.entry;
  found = ap (find_client id) e ∙ h.found;
  login = h.login;
  same_router = h.same_router;
  last_read = h.last_read;
}

clients-refresh_cache :
    (rows : List (List ℕ)) (s : Service)
    → OnSome (λ s1. s1.clients ≡ s.clients) (refresh_cache rows s)
unfolding refresh_cache
clients-refresh_cache rows s = OnSome-bind (names_of rows []) λ names e. OnSome-some refl

clients-finish :
    (cmd : ℕ) (ok : List ℕ) (e : Element) (id : List ℕ) (reqid : ℕ) (failed : Bool) (error : List ℕ)
    (s : Service)
    → OnSome (λ step. step.service.clients ≡ s.clients) (finish cmd ok e id reqid failed error s)
clients-finish cmd ok e id reqid true error s =
    OnSome-bind (find_client id s.clients) λ c h. OnSome-some refl
clients-finish cmd ok e id reqid false error s =
    OnSome-bind (find_client id s.clients) λ c h. OnSome-some (clients-store_cache_bool e s)

in_time :
    (now : ℕ) (c : DispatcherClient)
    → now ≤ c.last_read + 60000
    → ltb (c.last_read + 60000) now ≡ false
in_time now c h = ground arith

-- A session stays open, for the same router and with the same time it was last heard of, whatever the
-- other clients send, under its name or another, whatever the database answers, and over every check of the
-- timer up to a minute after that time.
pub OthersRun-IsOpen :
    (id router : List ℕ) (heard limit : ℕ) (s t : Service)
    → limit ≤ heard + 60000
    → IsOpen id router heard s
    → OthersRun router limit s t
    → IsOpen id router heard t
OthersRun-IsOpen id router heard limit s _ k h (done _) = h
OthersRun-IsOpen id router heard limit s t k h
      (message junk other i cmd now fs _ _ step d e later) =
    OthersRun-IsOpen id router heard limit step.service t k
      (record {
        entry = h.entry;
        found =
            poll_message-other_router junk other i cmd id now fs s h.entry step h.found h.login
              (ap (λ r. r =ᵇ other) h.same_router ∙ d) e;
        login = h.login;
        same_router = h.same_router;
        last_read = h.last_read;
      })
      later
OthersRun-IsOpen id router heard limit s t k h (timer now _ _ early later) =
    OthersRun-IsOpen id router heard limit (katime_handle now s).0 t k
      (record {
        entry = record h.entry { last_write = now };
        found =
            katime_handle_lem id now s h.entry h.found
            ∙ rw (in_time now h.entry (omega (arith, early, k, h.last_read)));
        login = h.login;
        same_router = h.same_router;
        last_read = h.last_read;
      })
      later
OthersRun-IsOpen id router heard limit s t k h (cache rows _ s1 _ e later) =
    OthersRun-IsOpen id router heard limit s1 t k
      (IsOpen-clients id router heard s s1 ((clients-refresh_cache rows s).holds s1 e) h) later
OthersRun-IsOpen id router heard limit s t k h
      (answered cmd ok el i reqid failed error _ _ step e later) =
    OthersRun-IsOpen id router heard limit step.service t k
      (IsOpen-clients id router heard s step.service
        ((clients-finish cmd ok el i reqid failed error s).holds step e) h)
      later

-- ===== src/Deployer/Sessions.antt =====
-- StragetyDeployer: whom a message to the service can affect.
use cpp_linux_learn.Common.{
  ℕ, ◌≡◌, refl, ap, ◌∙◌, Bool, true, false, not, ◌&&◌, Bool-cases, inl, inr, Option, none, some,
  List, [], ◌∷◌, ◌==◌, if◌then◌else◌, codes, ◌=ᵇ◌, eq_self, eq-≡, OnSome, OnSome-bind, OnSome-if,
  OnSome-some,
}
use cpp_linux_learn.Deployer.Protocol.{Element, int_at_front, element_of, element_size, table_name}
use cpp_linux_learn.Deployer.Service.{
  recv_pod_object, recv_vec_object, recv_filters, statement, Service, DispatcherClient, Step, Task,
  qry_by_sql, del_by_sql, ins_by_objects, del_by_objects, upd_by_objects, find_client,
  change_client, identify_user, find_or_create, or_create, by_filters, by_objects, receive_objects,
  store_cache_bool, is_manage_user, on_req_login, on_req_logout, on_keep_alive, on_query,
  on_del_by_col, on_insert, on_delete, on_update, on_recv_cmd, take_up, reqid_or_zero,
  reqid_at_front, serve, poll_message,
}
use cpp_linux_learn.Deployer.Serving.{touch}
use cpp_linux_learn.Deployer.Cmd

-- The client that a task is bound to.
abbrev pub task_client : Task → List ℕ
task_client (qry_by_sql e id sql reqid) = id
task_client (del_by_sql e id sql reqid) = id
task_client (ins_by_objects e id objects reqid) = id
task_client (del_by_objects e id objects reqid) = id
task_client (upd_by_objects e id objects reqid) = id

abbrev pub owned : List ℕ → List Task → Bool
owned id [] = true
owned id (t ∷ ts) = let rest = owned id ts in if task_client t =ᵇ id then rest else false

-- The entries of the other clients are the same, and what is submitted is this client's.
pub record IsLocal (id : List ℕ) (s : Service) (step : Step) : Type 0 where
  pub others :
      (id0 : List ℕ)
      → (id =ᵇ id0) ≡ false
      → find_client id0 step.service.clients ≡ find_client id0 s.clients
  pub owners : owned id step.tasks ≡ true

find_client-change_client_ne :
    (id id0 : List ℕ) (f : DispatcherClient → DispatcherClient) (cs : List DispatcherClient)
    → ((c : DispatcherClient) → (f c).identify ≡ c.identify)
    → (id =ᵇ id0) ≡ false
    → find_client id0 (change_client id f cs) ≡ find_client id0 cs
find_client-change_client_ne id id0 f [] k h = refl
find_client-change_client_ne id id0 f (c ∷ cs) k h = elim (Bool-cases (c.identify =ᵇ id)) [
  | inl e ↦ let same = eq-≡ c.identify id e in rw (e, k c, ap (λ x. x =ᵇ id0) same ∙ h)
  | inr e ↦ rw (e, find_client-change_client_ne id id0 f cs k h)
]

IsLocal-change :
    (id : List ℕ) (f : DispatcherClient → DispatcherClient) (s : Service) (step : Step)
    → ((c : DispatcherClient) → (f c).identify ≡ c.identify)
    → step.service.clients ≡ change_client id f s.clients
    → step.tasks ≡ []
    → IsLocal id s step
IsLocal-change id f s step k e ht = record {
  others = λ id0 h. ap (find_client id0) e ∙ find_client-change_client_ne id id0 f s.clients k h;
  owners = ap (owned id) ht;
}

IsLocal-same :
    (id : List ℕ) (s : Service) (step : Step)
    → step.service.clients ≡ s.clients
    → owned id step.tasks ≡ true
    → IsLocal id s step
IsLocal-same id s step e ht = record { others = λ id0 h. ap (find_client id0) e; owners = ht }

owned_one : (id : List ℕ) (t : Task) → task_client t ≡ id → owned id (t ∷ []) ≡ true
owned_one id t e = rw e (rw (eq_self id))

pub clients-store_cache_bool :
    (e : Element) (s : Service) → (store_cache_bool e s).clients ≡ s.clients
clients-store_cache_bool e s = elim (Bool-cases (is_manage_user e)) [ inl h ↦ rw h | inr h ↦ rw h ]

by_filters-IsLocal :
    (verb : List ℕ) (task : Element → List ℕ → List ℕ → ℕ → Task) (id : List ℕ) (fs : List (List ℕ))
    (s : Service)
    → ((e : Element) (sql : List ℕ) (q : ℕ) → task_client (task e id sql q) ≡ id)
    → OnSome (IsLocal id s) (by_filters verb task id fs s)
by_filters-IsLocal verb task id fs s k = OnSome-bind (recv_pod_object fs) λ x ex.
    OnSome-bind (recv_pod_object x.1) λ y ey. OnSome-bind (recv_filters y.1) λ filters ef.
      OnSome-bind (element_of y.0) λ e ee.
        OnSome-bind (statement verb (table_name e) filters) λ sql es.
          OnSome-some (IsLocal-same id s _ refl (owned_one id (task e id sql x.0) (k e sql x.0)))

receive_objects-IsLocal :
    (flag : Element → Service → Service) (task : Element → List ℕ → List (List ℕ) → ℕ → Task)
    (id : List ℕ) (q : ℕ) (fs : List (List ℕ)) (s : Service) (e : Option Element)
    → ((e : Element) → (flag e s).clients ≡ s.clients)
    → ((e : Element) (os : List (List ℕ)) (q : ℕ) → task_client (task e id os q) ≡ id)
    → OnSome (IsLocal id s) (receive_objects flag task id q fs s e)
receive_objects-IsLocal flag task id q fs s none k h = OnSome-some (IsLocal-same id s _ refl refl)
receive_objects-IsLocal flag task id q fs s (some e) k h =
    OnSome-bind (recv_vec_object (element_size e) fs)
      λ os eo. OnSome-some (IsLocal-same id s _ (k e) (owned_one id (task e id os q) (h e os q)))

by_objects-IsLocal :
    (flag : Element → Service → Service) (task : Element → List ℕ → List (List ℕ) → ℕ → Task)
    (id : List ℕ) (fs : List (List ℕ)) (s : Service)
    → ((e : Element) → (flag e s).clients ≡ s.clients)
    → ((e : Element) (os : List (List ℕ)) (q : ℕ) → task_client (task e id os q) ≡ id)
    → OnSome (IsLocal id s) (by_objects flag task id fs s)
by_objects-IsLocal flag task id fs s k h = OnSome-bind (recv_pod_object fs) λ x ex.
    OnSome-bind (recv_pod_object x.1)
      λ y ey. receive_objects-IsLocal flag task id x.0 y.1 s (element_of y.0) k h

on_req_login-IsLocal :
    (junk id : List ℕ) (fs : List (List ℕ)) (s : Service)
    → OnSome (IsLocal id s) (on_req_login junk id fs s)
unfolding on_req_login
on_req_login-IsLocal junk id fs s = OnSome-bind (find_client id s.clients) λ c ec.
    OnSome-bind (recv_pod_object fs) λ x ex. elim (Bool-cases c.login) [
      | inl e ↦ rw e (OnSome-some (IsLocal-same id s _ refl refl))
      | inr e ↦ rw e (
          OnSome-some
            (IsLocal-change id (λ d. record d { login = true }) s _ (λ d. refl) refl refl))
    ]

on_req_logout-IsLocal :
    (junk id : List ℕ) (fs : List (List ℕ)) (s : Service)
    → OnSome (IsLocal id s) (on_req_logout junk id fs s)
unfolding on_req_logout
on_req_logout-IsLocal junk id fs s = OnSome-bind (find_client id s.clients) λ c ec.
    OnSome-bind (recv_pod_object fs) λ x ex.
      OnSome-some (IsLocal-change id (λ d. record d { login = false }) s _ (λ d. refl) refl refl)

on_recv_cmd-IsLocal :
    (junk : List ℕ) (now cmd : ℕ) (id : List ℕ) (fs : List (List ℕ)) (s : Service)
    → OnSome (IsLocal id s) (on_recv_cmd junk now cmd id fs s)
unfolding on_recv_cmd on_query on_del_by_col on_insert on_delete on_update on_keep_alive
on_recv_cmd-IsLocal junk now cmd id fs s =
    OnSome-if (cmd == Cmd.login) (λ h. on_req_login-IsLocal junk id fs s)
      λ h.
        OnSome-if (cmd == Cmd.logout) (λ h. on_req_logout-IsLocal junk id fs s)
          λ h.
            OnSome-if (cmd == Cmd.keep_alive)
              (λ h.
                OnSome-some
                  (IsLocal-change id (λ d. record d { last_read = now }) s _ (λ d. refl) refl refl))
              λ h.
                OnSome-if (cmd == Cmd.query)
                  (λ h.
                    by_filters-IsLocal (codes "select * from ") qry_by_sql id fs s (λ e q n. refl))
                  λ h.
                    OnSome-if (cmd == Cmd.del_by_col)
                      (λ h.
                        by_filters-IsLocal (codes "delete from ") del_by_sql id fs s
                          (λ e q n. refl))
                      λ h.
                        OnSome-if (cmd == Cmd.delete)
                          (λ h.
                            by_objects-IsLocal (λ e t. t) del_by_objects id fs s (λ e. refl)
                              (λ e os n. refl))
                          λ h.
                            OnSome-if (cmd == Cmd.insert)
                              (λ h.
                                by_objects-IsLocal store_cache_bool ins_by_objects id fs s
                                  (λ e. clients-store_cache_bool e s) (λ e os n. refl))
                              λ h.
                                OnSome-if (cmd == Cmd.update)
                                  (λ h.
                                    by_objects-IsLocal (λ e t. t) upd_by_objects id fs s (λ e. refl)
                                      (λ e os n. refl))
                                  λ h. OnSome-some (IsLocal-same id s _ refl refl)

-- A state that differs in this client alone.
IsLocal-from :
    (id : List ℕ) (s s1 : Service) (step : Step)
    → ((id0 : List ℕ)
        → (id =ᵇ id0) ≡ false
        → find_client id0 s1.clients ≡ find_client id0 s.clients)
    → IsLocal id s1 step
    → IsLocal id s step
IsLocal-from id s s1 step k h = record {
  others = λ id0 e. h.others id0 e ∙ k id0 e;
  owners = h.owners;
}

find_or_create_others :
    (id : List ℕ) (now : ℕ) (s : Service) (o : Option DispatcherClient) (id0 : List ℕ)
    → (id =ᵇ id0) ≡ false
    → find_client id0 (or_create id now s o).0.clients ≡ find_client id0 s.clients
find_or_create_others id now s none id0 h = rw h
find_or_create_others id now s (some c) id0 h = refl

take_up-IsLocal :
    (junk router : List ℕ) (now cmd : ℕ) (id : List ℕ) (fs : List (List ℕ)) (s : Service)
    → OnSome (IsLocal id s) (take_up junk router now cmd id fs s)
take_up-IsLocal junk router now cmd id fs s = record {
  holds = λ step e.
      IsLocal-from id s (touch id router now s) step
        (λ id0 h.
          find_client-change_client_ne id id0 (λ d. record d { router = router; last_read = now })
            s.clients (λ d. refl) h)
        ((on_recv_cmd-IsLocal junk now cmd id fs (touch id router now s)).holds step e);
}

serve-IsLocal :
    (junk router : List ℕ) (now cmd : ℕ) (id : List ℕ) (fs : List (List ℕ)) (s : Service)
    → OnSome (IsLocal id s) (serve junk router now cmd id fs s)
serve-IsLocal junk router now cmd id fs s =
    let found = find_or_create id now s in
    let inner : OnSome (IsLocal id found.0) (serve junk router now cmd id fs s) =
      OnSome-if (not found.1.login && (not (cmd == Cmd.login) && not (cmd == Cmd.keep_alive)))
        (λ h.
          OnSome-bind (reqid_or_zero fs) λ q e. OnSome-some (IsLocal-same id found.0 _ refl refl))
        λ h.
          OnSome-if (found.1.login && not (found.1.router =ᵇ router))
            (λ h.
              OnSome-bind (reqid_or_zero fs)
                λ q e. OnSome-some (IsLocal-same id found.0 _ refl refl))
            λ h. take_up-IsLocal junk router now cmd id fs found.0 in
    record {
      holds = λ step e.
          IsLocal-from id s found.0 step (find_or_create_others id now s (find_client id s.clients))
            (inner.holds step e);
    }

pub poll_message-IsLocal :
    (junk router id cmd_frame : List ℕ) (now : ℕ) (fs : List (List ℕ)) (s : Service)
    → OnSome (IsLocal id s) (poll_message junk now (router ∷ id ∷ cmd_frame ∷ fs) s)
unfolding poll_message
poll_message-IsLocal junk router id cmd_frame now fs s =
    OnSome-bind (int_at_front cmd_frame) λ cmd ec.
      OnSome-if (not (identify_user id s))
        (λ h. OnSome-bind (reqid_at_front fs) λ q e. OnSome-some (IsLocal-same id s _ refl refl))
        λ h. serve-IsLocal junk router now cmd id fs s

-- ===== src/Solcom/Server/Runs.antt =====
-- What holds in every run of the callbacks of the server.
use cpp_linux_learn.Common.{
  ◌>>=◌, ℕ, zero, suc, ◌≡◌, refl, ap, sym, ◌∙◌, subst, Bool, true, false, Option, none, some, List,
  [], ◌∷◌, ◌++◌, arith, length, set, get_elem?, ◌==◌, ◌&&◌, not, OnSome, OnSome-some, OnSome-bind,
  OnSome-if, Bool-cases, inl, inr,
}
use cpp_linux_learn.Solcom.Codec.{
  Serializable, type_heartbeat, type_test_cmd, type_req, heartbeat_command, test_command,
}
use cpp_linux_learn.Solcom.Api.{fill_slot}
use cpp_linux_learn.Solcom.Server.{
  Client, Server, ServerEvent, CommandTask, deref, assign, accept, has_key, new_client, close_conn,
  close_all, server_idle_cb, write_handle, write_all, post_client, wevent_add, cmd_handle,
  hbt_timer_cb,
}
use cpp_linux_learn.Solcom.Server.Callbacks.{
  connect_cb, server_read_cb, read_cb_client, work_cb, Loop, Callback, connected, read, written,
  write_error, timer, idle, stop_called, worked, handle, run,
}
use cpp_linux_learn.Solcom.Server.Swept.{Absent, IsAlive}
use cpp_linux_learn.Solcom.Server.Sweep.{hbt_timer_cb-IsAlive}

-- What is allocated stays allocated.
abbrev Keeps : List (Option Client) → List (Option Client) → Type 0
Keeps heap heap' =
    (q : ℕ) (d : Client) → deref heap q ≡ some d → (d' : Client) × (deref heap' q ≡ some d')

IsAlive-Keeps :
    (heap heap' : List (Option Client)) (m : List (ℕ × ℕ))
    → Keeps heap heap'
    → IsAlive heap m
    → IsAlive heap' m
IsAlive-Keeps heap heap' [] k a = tt
IsAlive-Keeps heap heap' ((key, p) ∷ m) k ((c, e), d, a) =
    (k p c e, d, IsAlive-Keeps heap heap' m k a)

Keeps-set : (heap : List (Option Client)) (p : ℕ) (c : Client) → Keeps heap (set heap p (some c))
Keeps-set [] p c q d e = (d, e)
Keeps-set (o ∷ heap) zero c zero d e = (c, refl)
Keeps-set (o ∷ heap) zero c (suc q) d e = (d, e)
Keeps-set (o ∷ heap) (suc p) c zero d e = (d, e)
Keeps-set (o ∷ heap) (suc p) c (suc q) d e = Keeps-set heap p c q d e

Keeps-append : (heap more : List (Option Client)) → Keeps heap (heap ++ more)
Keeps-append [] more q d e = absurd (ground (arith, e))
Keeps-append (o ∷ heap) more zero d e = (d, e)
Keeps-append (o ∷ heap) more (suc q) d e = Keeps-append heap more q d e

deref-length :
    (heap : List (Option Client)) (c : Client) → deref (heap ++ some c ∷ []) (length heap) ≡ some c
deref-length [] c = refl
deref-length (o ∷ heap) c = deref-length heap c

deref-outside : (heap : List (Option Client)) → deref heap (length heap) ≡ none
deref-outside [] = refl
deref-outside (o ∷ heap) = deref-outside heap

Absent-outside :
    (heap : List (Option Client)) (m : List (ℕ × ℕ)) → IsAlive heap m → Absent (length heap) m
Absent-outside heap [] a = tt
Absent-outside heap ((key, p) ∷ m) ((c, e), d, a) = (
  λ same. absurd (ground (arith, deref-outside heap, sym (ap (deref heap) same) ∙ e)),
  Absent-outside heap m a,
)

-- The clients of the map of a server are allocated, and each has one key.
abbrev pub ServesAlive : Server → Type 0
ServesAlive s = IsAlive s.heap s.map_conn_client

assign-ServesAlive : (s : Server) (p : ℕ) (c : Client) → ServesAlive s → ServesAlive (assign s p c)
assign-ServesAlive s p c a =
    IsAlive-Keeps s.heap (set s.heap p (some c)) s.map_conn_client (Keeps-set s.heap p c) a

connect_cb-ServesAlive :
    (junk : ℕ → ℕ) (accepted : Bool) (now key unset : ℕ) (s : Server)
    → ServesAlive s
    → ServesAlive (connect_cb junk accepted now key unset s).0
unfolding connect_cb accept
connect_cb-ServesAlive junk false now key unset s a =
    IsAlive-Keeps s.heap (s.heap ++ _) s.map_conn_client (Keeps-append s.heap _) a
connect_cb-ServesAlive junk true now key unset s a =
    let new = new_client junk now key in
    let kept : IsAlive (s.heap ++ some new ∷ []) s.map_conn_client =
      IsAlive-Keeps s.heap (s.heap ++ some new ∷ []) s.map_conn_client (Keeps-append s.heap _) a in
    elim (Bool-cases (has_key key s.map_conn_client)) [
      | inl e ↦ rw e kept
      | inr e ↦
          rw e ((new, deref-length s.heap new), Absent-outside s.heap s.map_conn_client a, kept)
    ]

post_client-ServesAlive :
    (junk : ℕ → ℕ) (msg : Serializable) (id rtn p : ℕ) (s : Server)
    → ServesAlive s
    → OnSome (λ r. ServesAlive r.0) (post_client junk msg id rtn p s)
unfolding post_client wevent_add
post_client-ServesAlive junk msg id rtn p s a = OnSome-bind (deref s.heap p) λ c e.
    OnSome-if (c.connected && not s.stop)
      (λ go.
        OnSome-if c.req_pending (λ pending. OnSome-some a)
          λ free.
            OnSome-bind (fill_slot junk msg id rtn c.req_buffer)
              λ filled f. OnSome-some (assign-ServesAlive s p _ a))
      (λ refused. OnSome-some a)

work_cb-ServesAlive :
    (junk : ℕ → ℕ) (sd dd id : List ℕ) (task : CommandTask) (s : Server)
    → ServesAlive s
    → OnSome ServesAlive (work_cb junk sd dd id task s)
unfolding work_cb cmd_handle
work_cb-ServesAlive junk sd dd id task s a =
    let posts : (msg : Serializable)
        → OnSome ServesAlive (post_client junk msg 0 type_req task.client s >>= λ r. some r.0) =
      λ msg. OnSome-bind (post_client junk msg 0 type_req task.client s) λ r e.
        OnSome-some ((post_client-ServesAlive junk msg 0 type_req task.client s a).holds r e) in
    OnSome-if (task.cmd.n_type == type_heartbeat) (λ h. posts heartbeat_command)
      λ n.
        OnSome-if (task.cmd.n_type == type_test_cmd) (λ h. posts (test_command sd dd id))
          λ m. OnSome-some a

close_all-Keeps :
    (heap : List (Option Client)) (m : List (ℕ × ℕ))
    → OnSome (λ r. Keeps heap r.0) (close_all heap m)
unfolding close_all
close_all-Keeps heap [] = OnSome-some (λ q d e. (d, e))
close_all-Keeps heap ((key, p) ∷ m) = OnSome-bind (deref heap p) λ c e.
    let next = set heap p (some (close_conn p c).0) in
    OnSome-bind (close_all next m) λ r f. OnSome-some (λ q d g.
      let (d', g') = Keeps-set heap p (close_conn p c).0 q d g in
      (close_all-Keeps next m).holds r f q d' g')

close_all_lem :
    (heap : List (Option Client)) (m : List (ℕ × ℕ))
    → IsAlive heap m
    → (heap' : List (Option Client)) × (events : List ServerEvent) × (close_all heap m
        ≡ some (heap', events))
unfolding close_all
close_all_lem heap [] a = (heap, [], refl)
close_all_lem heap ((key, p) ∷ m) ((c, e), d, a) =
    let closed = (close_conn p c).0 in
    let kept = IsAlive-Keeps heap (set heap p (some closed)) m (Keeps-set heap p closed) a in
    let (heap', events, runs) = close_all_lem (set heap p (some closed)) m kept in
    (heap', (close_conn p c).1 ++ events, rw (e, ◌>>=◌) (rw (runs, ◌>>=◌) refl))

write_handle-ServesAlive :
    (s : Server) → ServesAlive s → OnSome (λ r. ServesAlive r.0) (write_handle s)
unfolding write_handle
write_handle-ServesAlive s a =
    OnSome-bind (write_all s.heap s.list_wevent) λ events e. OnSome-some a

server_idle_cb-ServesAlive :
    (s : Server) → ServesAlive s → OnSome (λ r. ServesAlive r.0) (server_idle_cb s)
unfolding server_idle_cb write_handle
server_idle_cb-ServesAlive s a = OnSome-bind (write_handle s) λ w e.
    let kept : ServesAlive w.0 = (write_handle-ServesAlive s a).holds w e in
    OnSome-if s.stop
      (λ stops. OnSome-bind (close_all w.0.heap w.0.map_conn_client) λ r f.
        let keeps = (close_all-Keeps w.0.heap w.0.map_conn_client).holds r f in
        OnSome-some (IsAlive-Keeps w.0.heap r.0 w.0.map_conn_client keeps kept))
      (λ goes_on. OnSome-some kept)

handle-ServesAlive :
    (junk : ℕ → ℕ) (callback : Callback) (l : Loop)
    → ServesAlive l.server
    → OnSome (λ l'. ServesAlive l'.server) (handle junk callback l)
unfolding handle server_read_cb hbt_timer_cb
handle-ServesAlive junk (connected accepted now key unset) l a =
    OnSome-some (connect_cb-ServesAlive junk accepted now key unset l.server a)
handle-ServesAlive junk (read fresh now result p) l a =
    OnSome-bind (server_read_cb junk fresh now result p l.server) λ r e. OnSome-some (
      (OnSome-bind {P = λ r. ServesAlive r.0} (deref l.server.heap p) λ c f.
          OnSome-bind (read_cb_client junk fresh now result p c)
            λ t g. OnSome-some (assign-ServesAlive l.server p t.0 a)).holds
        r e)
handle-ServesAlive junk (written now p) l a =
    OnSome-bind (deref l.server.heap p) λ c e. OnSome-some (assign-ServesAlive l.server p _ a)
handle-ServesAlive junk (write_error canceled p) l a =
    OnSome-bind (deref l.server.heap p) λ c e. OnSome-some (assign-ServesAlive l.server p _ a)
handle-ServesAlive junk (timer now) l a =
    let (s', events, runs, _, alive) = hbt_timer_cb-IsAlive now l.server a in
    OnSome-bind (hbt_timer_cb now l.server) λ r e.
      let same : s' ≡ r.0 = ground (arith, runs, e) in OnSome-some (subst ServesAlive same alive)
handle-ServesAlive junk idle l a =
    OnSome-bind (server_idle_cb l.server)
      λ r e. OnSome-some ((server_idle_cb-ServesAlive l.server a).holds r e)
handle-ServesAlive junk stop_called l a = OnSome-some a
handle-ServesAlive junk (worked i sd dd id) l a = OnSome-bind (get_elem? l.tasks i) λ task e.
    OnSome-bind (work_cb junk sd dd id task l.server)
      λ s f. OnSome-some ((work_cb-ServesAlive junk sd dd id task l.server a).holds s f)

run-ServesAlive :
    (junk : ℕ → ℕ) (callbacks : List Callback) (l : Loop)
    → ServesAlive l.server
    → OnSome (λ l'. ServesAlive l'.server) (run junk callbacks l)
unfolding run
run-ServesAlive junk [] l a = OnSome-some a
run-ServesAlive junk (callback ∷ callbacks) l a =
    OnSome-bind (handle junk callback l)
      λ l' e. run-ServesAlive junk callbacks l' ((handle-ServesAlive junk callback l a).holds l' e)

-- From a server whose map names allocated clients, and none twice, no run of callbacks and stops that stays within
-- memory leads to one whose map names a deleted client or a client twice; so the timer callback that
-- comes next, whenever it does, succeeds, and so does the closing of all clients of a server that stops.
pub run-IsAlive :
    (junk : ℕ → ℕ) (callbacks : List Callback) (l l' : Loop) (now : ℕ)
    → IsAlive l.server.heap l.server.map_conn_client
    → run junk callbacks l ≡ some l'
    → IsAlive l'.server.heap l'.server.map_conn_client
      × ((s : Server) × (events : List ServerEvent) × (hbt_timer_cb now l'.server
            ≡ some (s, events)))
      × ((heap : List (Option Client)) × (events : List ServerEvent) × (close_all l'.server.heap
              l'.server.map_conn_client
            ≡ some (heap, events)))
run-IsAlive junk callbacks l l' now a e =
    let alive = (run-ServesAlive junk callbacks l a).holds l' e in
    let (s, events, runs, _, _) = hbt_timer_cb-IsAlive now l'.server alive in
    (alive, (s, events, runs), close_all_lem l'.server.heap l'.server.map_conn_client alive)

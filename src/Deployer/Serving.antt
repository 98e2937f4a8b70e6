-- ===== src/Deployer/Serving.antt =====
-- StragetyDeployer: what the manager sends as a request, as the service takes it up.
use cpp_linux_learn.Common.{
  ℕ, ◌+◌, ◌-◌, ◌^◌, ◌<◌, ◌≡◌, refl, Bool, true, false, some, List, [], ◌∷◌, length, take_all, arith,
  le→leb, ◌==◌, if◌then◌else◌, ◌>>=◌, eq_self,
}
use cpp_linux_learn.Deployer.Protocol.{
  Element, element_code, element_size, table_name, int_frame, message_of, ColumnFilter,
}
use cpp_linux_learn.Deployer.Protocol.Frames.{
  int_of_frame-int_frame, int_at_front-int_frame, element_of-element_code, element_code_lt,
}
use cpp_linux_learn.Deployer.Manager.{send_filters, send_objects}
use cpp_linux_learn.Deployer.Service.{
  Service, DispatcherClient, Task, find_client, identify_user, with_client, recv_pod_object,
  recv_vec_object, recv_filters, statement, on_recv_cmd, poll_message, submit, by_filters,
  by_objects,
}

-- The client's entry as a message that is accepted leaves it.
abbrev pub touch : List ℕ → List ℕ → ℕ → Service → Service
touch id router now s = with_client id (λ d. record d { router = router; last_read = now }) s

-- A message of a client that is known, logged in, and sends from its router.
pub record IsSession (id router : List ℕ) (s : Service) : Type 0 where
  pub client : DispatcherClient
  pub known : identify_user id s ≡ true
  pub found : find_client id s.clients ≡ some client
  pub login : client.login ≡ true
  pub same_router : client.router ≡ router

pub poll_message-session :
    (junk router id : List ℕ) (now cmd : ℕ) (fs : List (List ℕ)) (s : Service)
    → cmd < 2 ^ 32
    → IsSession id router s
    → poll_message junk now (router ∷ id ∷ int_frame cmd ∷ fs) s
      ≡ on_recv_cmd junk now cmd id fs (touch id router now s)
unfolding poll_message
poll_message-session junk router id now cmd fs s hc h =
    rw (
      int_at_front-int_frame cmd hc,
      ◌>>=◌,
      h.known,
      h.found,
      h.login,
      h.same_router,
      eq_self router,
    )

pub message_of-send_objects :
    (o : List ℕ) (os : List (List ℕ)) (n i : ℕ)
    → i + length (o ∷ os) ≡ n
    → message_of (send_objects n i (o ∷ os)) ≡ some (o ∷ os)
unfolding message_of
message_of-send_objects o [] n i h = ground arith
message_of-send_objects o (p ∷ os) n i h =
    let ih = message_of-send_objects p os n (i + 1) (omega arith) in
    let more : (i == n - 1) ≡ false = ground arith in rw (more, ih)

-- The frames of the filters.
abbrev pub filter_frames : List ColumnFilter → List (List ℕ)
filter_frames [] = []
filter_frames (f ∷ fs) = f.col_name ∷ f.col_val ∷ filter_frames fs

pub message_of-send_filters :
    (f : ColumnFilter) (fs : List ColumnFilter) (n i : ℕ)
    → i + length (f ∷ fs) ≡ n
    → message_of (send_filters n i (f ∷ fs)) ≡ some (filter_frames (f ∷ fs))
unfolding message_of
message_of-send_filters f [] n i h = ground arith
message_of-send_filters f (g ∷ fs) n i h =
    let ih = message_of-send_filters g fs n (i + 1) (omega arith) in
    let more : (i == n - 1) ≡ false = ground arith in rw (more, ih)

-- What the service receives is what was sent.
pub recv_filters-filter_frames :
    (fs : List ColumnFilter) → recv_filters (filter_frames fs) ≡ some fs
unfolding recv_filters
recv_filters-filter_frames [] = refl
recv_filters-filter_frames (f ∷ fs) = rw (recv_filters-filter_frames fs)

abbrev pub has_size : ℕ → List (List ℕ) → Bool
has_size size [] = true
has_size size (o ∷ os) = let rest = has_size size os in if length o == size then rest else false

pub recv_vec_object-sized :
    (size : ℕ) (os : List (List ℕ)) → has_size size os ≡ true → recv_vec_object size os ≡ some os
unfolding recv_vec_object
recv_vec_object-sized size [] h = refl
recv_vec_object-sized size (o ∷ os) h =
    let k : length o ≡ size = ground arith in
    let hs : has_size size os ≡ true = ground arith in
    rw (
      le→leb size (length o) (omega arith),
      recv_vec_object-sized size os hs,
      ◌>>=◌,
      take_all size o (omega arith),
    )

pub recv_pod_object-int_frame :
    (n : ℕ) (fs : List (List ℕ)) → n < 2 ^ 32 → recv_pod_object (int_frame n ∷ fs) ≡ some (n, fs)
unfolding recv_pod_object
recv_pod_object-int_frame n fs h = rw (int_of_frame-int_frame n h)

pub by_filters-frames :
    (verb : List ℕ) (task : Element → List ℕ → List ℕ → ℕ → Task) (id : List ℕ) (e : Element)
    (reqid : ℕ) (filters : List ColumnFilter) (s : Service)
    → reqid < 2 ^ 32
    → by_filters verb task id
        (int_frame reqid ∷ int_frame (element_code e) ∷ filter_frames filters)
        s
      ≡ (statement verb (table_name e) filters >>= λ sql. some (submit s (task e id sql reqid)))
by_filters-frames verb task id e reqid filters s h = rw (
  recv_pod_object-int_frame reqid (int_frame (element_code e) ∷ filter_frames filters) h,
  ◌>>=◌,
  recv_pod_object-int_frame (element_code e) (filter_frames filters) (element_code_lt e),
  recv_filters-filter_frames filters,
  element_of-element_code e,
)

pub by_objects-frames :
    (flag : Element → Service → Service) (task : Element → List ℕ → List (List ℕ) → ℕ → Task)
    (id : List ℕ) (e : Element) (reqid : ℕ) (objects : List (List ℕ)) (s : Service)
    → reqid < 2 ^ 32
    → has_size (element_size e) objects ≡ true
    → by_objects flag task id (int_frame reqid ∷ int_frame (element_code e) ∷ objects) s
      ≡ some (submit (flag e s) (task e id objects reqid))
by_objects-frames flag task id e reqid objects s h k = rw (
  recv_pod_object-int_frame reqid (int_frame (element_code e) ∷ objects) h,
  ◌>>=◌,
  recv_pod_object-int_frame (element_code e) objects (element_code_lt e),
  element_of-element_code e,
  recv_vec_object-sized (element_size e) objects k,
)

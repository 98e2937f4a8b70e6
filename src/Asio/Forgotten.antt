-- ===== src/Asio/Forgotten.antt =====
-- A client that gets the number of one that was lost is never looked after.
use cpp_linux_learn.Common.{
  ℕ, zero, suc, ◌≡◌, refl, ap, ◌∙◌, ◌≢◌, ◌⊎◌, inl, inr, ◌>>=◌, false, Option, none, some, List, [],
  ◌∷◌, ◌++◌, ltb, ◌==◌, get_elem?, get_elem?-set_ne, OnSome, OnSome-some, OnSome-bind, Bool-cases,
  List-cases, ==_iff, arith,
}
use cpp_linux_learn.Asio.{
  Client, ServerEnd, Started, accepting, reading, writing, waiting, success, named, failure,
  create_client_id, async_accept, close_client, beat, beat_all, deadline_timer_handle, erase_id,
  insert_client, accept_handler, read_handler, write_handler, Handler, deadline_called,
  accept_called, read_called, write_called, handle, run,
}

module _ (p : ℕ) where
  -- No entry points to the client.
  abbrev pub IsOut : List (ℕ × Option ℕ) → Type 0
  IsOut [] = Unit
  IsOut ((i, none) ∷ entries) = IsOut entries
  IsOut ((i, some q) ∷ entries) = (q ≢ p) × IsOut entries

  -- The handler is not the one of the client's acceptance.
  abbrev pub IsOther : Handler → Type 0
  IsOther deadline_called = Unit
  IsOther (accept_called err q) = q ≢ p
  IsOther (read_called err n buffer q) = Unit
  IsOther (write_called err q) = Unit

  abbrev pub AllOther : List Handler → Type 0
  AllOther [] = Unit
  AllOther (h ∷ hs) = IsOther h × AllOther hs

  -- Nothing was started that writes to the client.
  abbrev pub NoWriting : List Started → Type 0
  NoWriting [] = Unit
  NoWriting (accepting q ∷ rest) = NoWriting rest
  NoWriting (reading q ∷ rest) = NoWriting rest
  NoWriting (writing q ∷ rest) = (q ≢ p) × NoWriting rest
  NoWriting (waiting ∷ rest) = NoWriting rest

  -- What a timer's round leaves of a client that is in no entry.
  record Untouched (objects : List Client) (r : List (ℕ × Option ℕ) × ServerEnd × List Started)
      : Type 0 where
    out : IsOut r.0
    same : get_elem? r.1.objects p ≡ get_elem? objects p
    silent : NoWriting r.2

  beat-objects :
      (q : ℕ) (c : Client) (s : ServerEnd)
      → q ≢ p
      → get_elem? (beat q c s).0.objects p ≡ get_elem? s.objects p
  unfolding beat close_client
  beat-objects q c s h = ground (
    arith,
    get_elem?-set_ne s.objects q p (record c { hbt_count = suc c.hbt_count }) h,
    get_elem?-set_ne s.objects q p (record c { hbt_count = suc c.hbt_count; is_open = false }) h,
  )

  beat-entry :
      (i q : ℕ) (c : Client) (s : ServerEnd) (kept : List (ℕ × Option ℕ)) (started : List Started)
      → q ≢ p
      → IsOut kept
      → NoWriting started
      → IsOut ((i, (beat q c s).1) ∷ kept) × NoWriting ((beat q c s).2 ++ started)
  unfolding beat
  beat-entry i q c s kept started h o n = elim (Bool-cases (ltb 5 (suc c.hbt_count))) [
    | inl e ↦ rw e (o, n)
    | inr e ↦ rw e ((h, o), (h, n))
  ]

  beat_all-Untouched :
      (entries : List (ℕ × Option ℕ)) (s : ServerEnd)
      → IsOut entries
      → OnSome (Untouched s.objects) (beat_all entries s)
  unfolding beat_all
  beat_all-Untouched [] s o = OnSome-some (record { out = tt; same = refl; silent = tt })
  beat_all-Untouched ((i, none) ∷ entries) s o = OnSome-bind (beat_all entries s) λ r e.
      let u = (beat_all-Untouched entries s o).holds r e in
      OnSome-some (record { out = u.out; same = u.same; silent = u.silent })
  beat_all-Untouched ((i, some q) ∷ entries) s o = OnSome-bind (get_elem? s.objects q) λ c e.
      OnSome-bind (beat_all entries (beat q c s).0) λ r f.
        let u = (beat_all-Untouched entries (beat q c s).0 o.1).holds r f in
        let both = beat-entry i q c s r.0 r.2 o.0 u.out u.silent in
        OnSome-some
          (record { out = both.0; same = u.same ∙ beat-objects q c s o.0; silent = both.1 })

  IsOut-erase_id :
      (i : ℕ) (entries : List (ℕ × Option ℕ)) → IsOut entries → IsOut (erase_id i entries)
  unfolding erase_id
  IsOut-erase_id i [] o = o
  IsOut-erase_id i ((j, none) ∷ entries) o = elim (Bool-cases (j == i)) [
    | inl e ↦ rw e o
    | inr e ↦ rw e (IsOut-erase_id i entries o)
  ]
  IsOut-erase_id i ((j, some q) ∷ entries) o = elim (Bool-cases (j == i)) [
    | inl e ↦ rw e o.1
    | inr e ↦ rw e (o.0, IsOut-erase_id i entries o.1)
  ]

  IsOut-insert_client :
      (i q : ℕ) (entries : List (ℕ × Option ℕ))
      → q ≢ p
      → IsOut entries
      → IsOut (insert_client i q entries)
  unfolding insert_client
  IsOut-insert_client i q [] h o = (h, tt)
  IsOut-insert_client i q ((j, none) ∷ entries) h o = elim (Bool-cases (j == i)) [
    | inl e ↦ rw e o
    | inr e ↦ rw e (IsOut-insert_client i q entries h o)
  ]
  IsOut-insert_client i q ((j, some r) ∷ entries) h o = elim (Bool-cases (j == i)) [
    | inl e ↦ rw e o
    | inr e ↦ rw e (o.0, IsOut-insert_client i q entries h o.1)
  ]

  -- A new acceptance leaves the map.
  async_accept-map : (s : ServerEnd) → (async_accept s).0.client_map ≡ s.client_map
  unfolding async_accept create_client_id
  async_accept-map s = elim (List-cases s.ava_ids) [
    | inl e ↦ rw e refl
    | inr (i, is, e) ↦ rw e refl
  ]

  abbrev Kept : ServerEnd × List Started → Type 0
  Kept r = IsOut r.0.client_map

  handle-IsOut :
      (h : Handler) (s : ServerEnd) → IsOther h → IsOut s.client_map → OnSome Kept (handle h s)
  unfolding handle deadline_timer_handle accept_handler read_handler write_handler close_client
  handle-IsOut deadline_called s h o =
      OnSome-bind (beat_all s.client_map s)
        λ r e. OnSome-some ((beat_all-Untouched s.client_map s o).holds r e).out
  handle-IsOut (accept_called success q) s h o = OnSome-bind (get_elem? s.objects q) λ c e.
      OnSome-some (
        rw (async_accept-map (record s { client_map = insert_client c.id q s.client_map }))
          (IsOut-insert_client c.id q s.client_map h o))
  handle-IsOut (accept_called named q) s h o =
      OnSome-bind (get_elem? s.objects q) λ c e. OnSome-some (IsOut-erase_id c.id s.client_map o)
  handle-IsOut (accept_called failure q) s h o =
      OnSome-bind (get_elem? s.objects q) λ c e. OnSome-some (IsOut-erase_id c.id s.client_map o)
  handle-IsOut (read_called success zero buffer q) s h o =
      OnSome-bind (get_elem? s.objects q) λ c e. OnSome-some o
  handle-IsOut (read_called success (suc n) buffer q) s h o =
      OnSome-bind (get_elem? s.objects q) λ c e. OnSome-some (ground arith)
  handle-IsOut (read_called named n buffer q) s h o =
      OnSome-bind (get_elem? s.objects q) λ c e. OnSome-some o
  handle-IsOut (read_called failure n buffer q) s h o =
      OnSome-bind (get_elem? s.objects q) λ c e. OnSome-some o
  handle-IsOut (write_called success q) s h o =
      OnSome-bind (get_elem? s.objects q) λ c e. OnSome-some o
  handle-IsOut (write_called named q) s h o =
      OnSome-bind (get_elem? s.objects q) λ c e. OnSome-some o
  handle-IsOut (write_called failure q) s h o =
      OnSome-bind (get_elem? s.objects q) λ c e. OnSome-some o

  run-IsOut :
      (hs : List Handler) (s : ServerEnd)
      → AllOther hs
      → IsOut s.client_map
      → OnSome (λ t. IsOut t.client_map) (run hs s)
  unfolding run
  run-IsOut [] s a o = OnSome-some o
  run-IsOut (h ∷ hs) s a o =
      OnSome-bind (handle h s) λ r e. run-IsOut hs r.0 a.1 ((handle-IsOut h s a.0 o).holds r e)

-- There is an entry for the number, with a pointer or after `reset`.
abbrev pub HasEntry : ℕ → List (ℕ × Option ℕ) → Type 0
HasEntry i [] = ⊥
HasEntry i ((j, q) ∷ entries) = (j ≡ i) ⊎ HasEntry i entries

insert_client_old :
    (i p : ℕ) (entries : List (ℕ × Option ℕ))
    → HasEntry i entries
    → insert_client i p entries ≡ entries
unfolding insert_client
insert_client_old i p [] h = absurd h
insert_client_old i p ((j, q) ∷ entries) (inl e) = rw ((==_iff j i).1 e) refl
insert_client_old i p ((j, q) ∷ entries) (inr h) = elim (Bool-cases (j == i)) [
  | inl e ↦ rw e refl
  | inr e ↦ rw e (ap (◌∷◌ (j, q)) (insert_client_old i p entries h))
]

-- What a timer's callback does for a client: nothing.
abbrev pub Ignores : ℕ → ServerEnd → ServerEnd × List Started → Type 0
Ignores p t r = (get_elem? r.0.objects p ≡ get_elem? t.objects p) × NoWriting p r.1

NoWriting-append :
    (p : ℕ) (started : List Started) → NoWriting p started → NoWriting p (started ++ (waiting ∷ []))
NoWriting-append p [] n = tt
NoWriting-append p (accepting q ∷ rest) n = NoWriting-append p rest n
NoWriting-append p (reading q ∷ rest) n = NoWriting-append p rest n
NoWriting-append p (writing q ∷ rest) n = (n.0, NoWriting-append p rest n.1)
NoWriting-append p (waiting ∷ rest) n = NoWriting-append p rest n

deadline-Ignores :
    (p : ℕ) (t : ServerEnd) → IsOut p t.client_map → OnSome (Ignores p t) (deadline_timer_handle t)
unfolding deadline_timer_handle
deadline-Ignores p t o = OnSome-bind (beat_all t.client_map t) λ r e.
    let u = (beat_all-Untouched p t.client_map t o).holds r e in
    OnSome-some (u.same, NoWriting-append p r.2 u.silent)

accept-run :
    (p : ℕ) (c : Client) (hs : List Handler) (s : ServerEnd)
    → get_elem? s.objects p ≡ some c
    → HasEntry c.id s.client_map
    → IsOut p s.client_map
    → AllOther p hs
    → OnSome (λ t. IsOut p t.client_map) (accept_handler success p s >>= λ a. run hs a.0)
unfolding accept_handler
accept-run p c hs s e old o others =
    let inserted = record s { client_map = insert_client c.id p s.client_map } in
    let same = async_accept-map p inserted ∙ insert_client_old c.id p s.client_map old in
    rw e (run-IsOut p hs (async_accept inserted).0 others (rw same o))

-- A client that is accepted under a number which the map has an entry for, as it has after the client
-- of that number was lost, is in no entry afterwards. Whatever handlers run then, but for a second
-- acceptance of the client, the timer's callback neither writes to it, nor counts for it, nor closes it.
pub accept_handler-forgotten :
    (p : ℕ) (c : Client) (hs : List Handler) (s t : ServerEnd) (r : ServerEnd × List Started)
    → get_elem? s.objects p ≡ some c
    → HasEntry c.id s.client_map
    → IsOut p s.client_map
    → AllOther p hs
    → (accept_handler success p s >>= λ a. run hs a.0) ≡ some t
    → deadline_timer_handle t ≡ some r
    → IsOut p t.client_map × Ignores p t r
accept_handler-forgotten p c hs s t r e old o others runs later =
    let out = (accept-run p c hs s e old o others).holds t runs in
    (out, (deadline-Ignores p t out).holds r later)

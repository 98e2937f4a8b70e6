-- ===== src/Shared/Semaphores/Turns.antt =====
-- Whole interleavings: the reader prints what the writer wrote, each object once and in order, and the
-- two processes come to the end of their ten rounds.
use cpp_linux_learn.Common.{
  ℕ, zero, suc, ◌+◌, ◌-◌, ◌*◌, ◌≤◌, ◌≡◌, refl, sym, ap, ◌∙◌, ◌⊎◌, inl, inr, some, List, [], ◌∷◌,
  ◌++◌, append-nil, append_assoc, length, OnSome, OnSome-some, OnSome-bind, Option-cases, arith,
}
use native.Mathlib.Decide.{dec_lt}
use cpp_linux_learn.Shared.Semaphores.{
  Stage, waiting, at_name, at_age, posting, Process, writer, reader, Shown, shown_name, shown_age,
  System, rounds, age_of, write_step, read_step, step, run,
}
use cpp_linux_learn.Shared.Semaphores.Steps.{busy, IsFresh, shown, started, Inv, step-Inv}

module _ (names : ℕ → List ℕ) where
  pub run-Inv :
      {n : ℕ} (ps : List Process) (s : System)
      → Inv names n s
      → OnSome (Inv names n) (run names ps s)
  unfolding run
  run-Inv [] s v = OnSome-some v
  run-Inv (p ∷ ps) s v = OnSome-bind (step names p s) (λ t h. run-Inv ps t (step-Inv names p v h))

  pub IsFresh-Inv : {n : ℕ} {s : System} → n ≤ rounds → IsFresh n s → Inv names n s
  IsFresh-Inv b f = ground arith

  shown-prefix :
      (n k m : ℕ) → k ≤ m → (rest : List Shown) × (shown names n k ++ rest ≡ shown names n m)
  shown-prefix n k zero h = let none_left : k ≡ 0 = omega arith in ([], rw none_left refl)
  shown-prefix n k (suc m) h = elim (dec_lt k (suc m)) [
    | yes l ↦
        let (rest, e) = shown-prefix n k m (omega arith) in
        let last = shown_name (names (n + m)) ∷ shown_age (age_of (n + m)) ∷ [] in
        (rest ++ last, sym (append_assoc (shown names n k) rest last) ∙ ap (λ l. l ++ last) e)
    | no l ↦ let all : k ≡ suc m = omega arith in ([], rw all (append-nil _))
  ]

  started-prefix :
      (i : ℕ) (p : Stage)
      → (rest : List Shown) × (started names i p ++ rest
          ≡ shown_name (names i) ∷ shown_age (age_of i) ∷ [])
  started-prefix i waiting = (shown_name (names i) ∷ shown_age (age_of i) ∷ [], refl)
  started-prefix i at_name = (shown_name (names i) ∷ shown_age (age_of i) ∷ [], refl)
  started-prefix i at_age = (shown_age (age_of i) ∷ [], refl)
  started-prefix i posting = ([], refl)

  -- The current object goes on what was printed before it.
  printed-prefix :
      (n k m : ℕ) (p : Stage)
      → k + busy p ≤ m
      → (rest : List Shown) × ((shown names n k ++ started names (n + k) p) ++ rest
          ≡ shown names n m)
  printed-prefix n k m p h = elim (dec_lt k m) [
    | yes l ↦
        let (more, f) = started-prefix (n + k) p in
        let (rest, e) = shown-prefix n (suc k) m (omega arith) in
        (
          more ++ rest,
          sym (append_assoc (shown names n k ++ started names (n + k) p) more rest)
              ∙ (ap (λ l. l ++ rest)
                    (append_assoc (shown names n k) _ more ∙ ap (λ l. shown names n k ++ l) f)
                  ∙ e),
        )
    | no l ↦
        let all : k ≡ m = omega arith in
        let idle : started names (n + k) p ≡ [] = ground arith in
        ([], append-nil _ ∙ (rw (idle, all) (append-nil _)))
  ]

  -- What is left of the ten objects, by the rounds that were missed.
  pub Inv-prefix :
      (n : ℕ) (s : System)
      → Inv names n s
      → (rest : List Shown) × (s.printed ++ rest ≡ shown names n (rounds - n))
  Inv-prefix n s v =
      let (rest, e) =
        printed-prefix n s.read (rounds - n) s.reader_at (omega (arith, v.behind, v.within)) in
      (rest, ap (λ l. l ++ rest) v.out ∙ e)

  abbrev rank : Stage → ℕ
  rank waiting = 0
  rank at_name = 1
  rank at_age = 2
  rank posting = 3

  abbrev work : System → ℕ
  work s = 4 * s.written + rank s.writer_at + (4 * s.read + rank s.reader_at)

  write_step-work :
      (s : System) {t : System} (q : Stage)
      → s.writer_at ≡ q
      → write_step names s q ≡ some t
      → work t ≡ suc (work s)
  unfolding write_step
  write_step-work s waiting e h = ground arith
  write_step-work s at_name e h = ground arith
  write_step-work s at_age e h = ground arith
  write_step-work s posting e h = ground arith

  read_step-work :
      (s : System) {t : System} (q : Stage)
      → s.reader_at ≡ q
      → read_step s q ≡ some t
      → work t ≡ suc (work s)
  unfolding read_step
  read_step-work s waiting e h = ground arith
  read_step-work s at_name e h = ground arith
  read_step-work s at_age e h = ground arith
  read_step-work s posting e h = ground arith

  step-work :
      (s : System) {t : System} (p : Process) → step names p s ≡ some t → work t ≡ suc (work s)
  unfolding step
  step-work s writer h = write_step-work s s.writer_at refl h
  step-work s reader h = read_step-work s s.reader_at refl h

  run-work :
      (ps : List Process) (s : System) → OnSome (λ t. work t ≡ length ps + work s) (run names ps s)
  unfolding run
  run-work [] s = OnSome-some (omega arith)
  run-work (p ∷ ps) s =
      OnSome-bind (step names p s)
        λ t h. record { holds = λ u e. omega (arith, (run-work ps t).holds u e, step-work s p h) }

  work-le : (s : System) → Inv names 0 s → work s ≤ 8 * rounds
  work-le s v = ground (arith, v.one, v.behind, v.within)

  -- Somebody can go on, or the reader has read everything.
  Inv-moves :
      (s : System)
      → Inv names 0 s
      → (s.read ≡ rounds) ⊎ ((p : Process) × (t : System) × (step names p s ≡ some t))
  unfolding step write_step read_step
  Inv-moves s v = elim (Option-cases (step names reader s)) [
    | inr (t, e) ↦ inr (reader, t, e)
    | inl r ↦ elim (Option-cases (step names writer s)) [
      | inr (t, e) ↦ inr (writer, t, e)
      | inl w ↦ inl (
          ground
            (arith, v.one, v.behind, v.within, stage_cases s.reader_at, stage_cases s.writer_at))
    ]
  ]
    where
      stage_cases : (q : Stage) → (q ≡ waiting) ⊎ ((q ≡ at_name) ⊎ ((q ≡ at_age) ⊎ (q ≡ posting)))
      stage_cases waiting = inl refl
      stage_cases at_name = inr (inl refl)
      stage_cases at_age = inr (inr (inl refl))
      stage_cases posting = inr (inr (inr refl))

  module _ (ps : List Process) (s t : System) (r : run names ps s ≡ some t) where
    -- From both processes before their first round with new semaphores, whatever the interleaving,
    -- what the reader has printed is a beginning of the ten objects in the order of the rounds, with
    -- each name beside the age of its round, and the reader is at most one round behind.
    pub run-in_order :
        IsFresh 0 s
        → ((rest : List Shown) × (t.printed ++ rest ≡ shown names 0 rounds))
          × (t.read ≤ t.written)
          × (t.written ≤ suc t.read)
    run-in_order f =
        let v = (run-Inv ps s (IsFresh-Inv (omega arith) f)).holds t r in
        (Inv-prefix 0 t v, omega (arith, v.one, v.behind), omega (arith, v.one, v.behind))

    -- From the same states every interleaving has at most 80 steps, and one at whose end neither
    -- process can go on has printed all ten objects.
    pub run-ends :
        IsFresh 0 s
        → (length ps ≤ 8 * rounds)
          × ((t.printed ≡ shown names 0 rounds)
              ⊎ ((p : Process) × (u : System) × (step names p t ≡ some u)))
    run-ends f =
        let v = (run-Inv ps s (IsFresh-Inv (omega arith) f)).holds t r in
        (
          omega (arith, (run-work ps s).holds t r, work-le t v),
          elim (Inv-moves t v) [ inl all ↦ inl (complete v all) | inr (p, u, e) ↦ inr (p, u, e) ],
        )
      where
        complete : Inv names 0 t → t.read ≡ rounds → t.printed ≡ shown names 0 rounds
        complete v all =
            let idle : started names (0 + t.read) t.reader_at ≡ [] =
              ground (arith, v.behind, v.within) in
            v.out ∙ (rw (idle, all) (append-nil _))

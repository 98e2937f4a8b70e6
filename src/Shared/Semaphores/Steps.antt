-- ===== src/Shared/Semaphores/Steps.antt =====
-- What holds before and after every step of the two processes: whose turn it is, what has been
-- written and read, and what has been printed.
use cpp_linux_learn.Common.{
  ℕ, zero, suc, ◌+◌, ◌≤◌, ◌<◌, ◌≡◌, refl, sym, ap, ◌∙◌, some, List, [], ◌∷◌, ◌++◌, append-nil,
  append_assoc, subst, arith,
}
use cpp_linux_learn.Shared.Semaphores.{
  Stage, waiting, at_name, at_age, posting, Process, writer, reader, Shown, shown_name, shown_age,
  System, rounds, age_of, write_step, read_step, step,
}

-- 1 between `sem_wait` and `sem_post`.
abbrev pub busy : Stage → ℕ
busy waiting = 0
busy at_name = 1
busy at_age = 1
busy posting = 1

-- Both processes before their `n`-th round, with both semaphores new.
abbrev pub IsFresh : ℕ → System → Type 0
IsFresh n s =
    (s.semr ≡ 0)
    × (s.semw ≡ 1)
    × (s.writer_at ≡ waiting)
    × (s.written ≡ n)
    × (s.reader_at ≡ waiting)
    × (s.read ≡ 0)
    × (s.printed ≡ [])

module _ (names : ℕ → List ℕ) where
  -- What printing `k` objects shows, from the one of round `n` on.
  abbrev pub shown : ℕ → ℕ → List Shown
  shown n zero = []
  shown n (suc k) = shown n k ++ (shown_name (names (n + k)) ∷ shown_age (age_of (n + k)) ∷ [])

  -- The part of the current object that has been printed.
  abbrev pub started : ℕ → Stage → List Shown
  started i waiting = []
  started i at_name = []
  started i at_age = shown_name (names i) ∷ []
  started i posting = shown_name (names i) ∷ shown_age (age_of i) ∷ []

  -- The part of the current object that has been written.
  abbrev pub Holds : ℕ → System → Stage → Type 0
  Holds i s waiting = Unit
  Holds i s at_name = Unit
  Holds i s at_age = s.name ≡ names i
  Holds i s posting = (s.name ≡ names i) × (s.age ≡ age_of i)

  abbrev pub IsPrinted : ℕ → System → Type 0
  IsPrinted n s = s.printed ≡ shown n s.read ++ started (n + s.read) s.reader_at

  -- One token goes round; the reader is behind the writer by what is written and not yet read.
  pub record Inv (n : ℕ) (s : System) : Type 0 where
    pub one : s.semr + s.semw + busy s.writer_at + busy s.reader_at ≡ 1
    pub behind : s.written ≡ n + s.read + s.semr + busy s.reader_at
    pub within : s.written + busy s.writer_at ≤ rounds
    pub first : Holds s.written s s.writer_at
    pub whole :
        0 < s.semr + busy s.reader_at
        → (s.name ≡ names (n + s.read)) × (s.age ≡ age_of (n + s.read))
    pub out : IsPrinted n s

  write_step-Inv :
      {n : ℕ} {s t : System} (p : Stage)
      → s.writer_at ≡ p
      → Inv n s
      → write_step names s p ≡ some t
      → Inv n t
  unfolding write_step
  write_step-Inv waiting e v h = ground (arith, v.whole)
  write_step-Inv at_name e v h = ground (arith, v.whole)
  write_step-Inv at_age e v h = ground (arith, v.whole)
  write_step-Inv posting e v h = ground (arith, v.whole)

  -- What one line of the reader adds to what is printed.
  printed-step :
      {out : List Shown} (before part more : List Shown) {after : List Shown}
      → out ≡ before ++ part
      → part ++ more ≡ after
      → out ++ more ≡ before ++ after
  printed-step before part more e f =
      ap (λ l. l ++ more) e ∙ (append_assoc before part more ∙ ap (λ l. before ++ l) f)

  module _ {n : ℕ} {s t : System} (v : Inv n s) where
    name-out : s.reader_at ≡ at_name → read_step s at_name ≡ some t → IsPrinted n t
    unfolding read_step
    name-out e h =
        let same : s.name ≡ names (n + s.read) = ground (arith, v.whole) in
        let here = rw e at v.out in
        let moved : record s { printed = s.printed ++ (shown_name s.name ∷ []); reader_at = at_age }
            ≡ t =
          cc h in
        subst (IsPrinted n) moved (
          printed-step (shown n s.read) [] (shown_name s.name ∷ []) here
            (ap (λ l. shown_name l ∷ []) same))

    age-out : s.reader_at ≡ at_age → read_step s at_age ≡ some t → IsPrinted n t
    unfolding read_step
    age-out e h =
        let same : s.age ≡ age_of (n + s.read) = ground (arith, v.whole) in
        let here = rw e at v.out in
        let moved : record s { printed = s.printed ++ (shown_age s.age ∷ []); reader_at = posting }
            ≡ t =
          cc h in
        subst (IsPrinted n) moved (
          printed-step (shown n s.read) (shown_name (names (n + s.read)) ∷ [])
            (shown_age s.age ∷ []) here
            (ap (λ a. shown_name (names (n + s.read)) ∷ shown_age a ∷ []) same))

    post-out : s.reader_at ≡ posting → read_step s posting ≡ some t → IsPrinted n t
    unfolding read_step
    post-out e h =
        let here = rw e at v.out in
        let moved : record s { semw = s.semw + 1; read = suc s.read; reader_at = waiting } ≡ t =
          cc h in
        subst (IsPrinted n) moved (here ∙ sym (append-nil _))

    wait-out : s.reader_at ≡ waiting → read_step s waiting ≡ some t → IsPrinted n t
    unfolding read_step
    wait-out e h = ground (arith, v.out)

  pub record Turn (n : ℕ) (t : System) : Type 0 where
    pub one : t.semr + t.semw + busy t.writer_at + busy t.reader_at ≡ 1
    pub behind : t.written ≡ n + t.read + t.semr + busy t.reader_at
    pub within : t.written + busy t.writer_at ≤ rounds
    pub first : Holds t.written t t.writer_at
    pub whole :
        0 < t.semr + busy t.reader_at
        → (t.name ≡ names (n + t.read)) × (t.age ≡ age_of (n + t.read))

  read_step-Turn :
      {n : ℕ} {s t : System} (p : Stage)
      → s.reader_at ≡ p
      → Inv n s
      → read_step s p ≡ some t
      → Turn n t
  unfolding read_step
  read_step-Turn waiting e v h = ground (arith, v.whole)
  read_step-Turn at_name e v h = ground (arith, v.whole)
  read_step-Turn at_age e v h = ground (arith, v.whole)
  read_step-Turn posting e v h = ground (arith, v.whole)

  read_step-out :
      {n : ℕ} {s t : System} (p : Stage)
      → s.reader_at ≡ p
      → Inv n s
      → read_step s p ≡ some t
      → IsPrinted n t
  read_step-out waiting e v h = wait-out v e h
  read_step-out at_name e v h = name-out v e h
  read_step-out at_age e v h = age-out v e h
  read_step-out posting e v h = post-out v e h

  pub step-Inv : {n : ℕ} {s t : System} (p : Process) → Inv n s → step names p s ≡ some t → Inv n t
  unfolding step
  step-Inv {s = s} writer v h = write_step-Inv s.writer_at refl v h
  step-Inv {s = s} reader v h =
      let u = read_step-Turn s.reader_at refl v h in
      record {
        one = u.one;
        behind = u.behind;
        within = u.within;
        first = u.first;
        whole = u.whole;
        out = read_step-out s.reader_at refl v h;
      }

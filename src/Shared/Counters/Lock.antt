-- ===== src/Shared/Counters/Lock.antt =====
-- Under the lock no count is lost.
use cpp_linux_learn.Common.{
  ℕ, ◌+◌, ◌*◌, ◌≡◌, refl, ◌⊎◌, inl, inr, Option, none, some, List, [], ◌∷◌, OnSome, OnSome-some,
  OnSome-bind, arith,
}
use cpp_linux_learn.Shared.Counters.{
  Process, child, parent, Stage, outside, locked, written, loaded, Locked, amount, worker,
  lock_step, run_locked,
}

-- What a process in the body has and has not added.
abbrev IsInside : ℕ → Stage → Type 0
IsInside num outside = ⊥
IsInside num locked = Unit
IsInside num (loaded v) = v ≡ num
IsInside num written = Unit

abbrev pub added : Process → Stage → ℕ
added p outside = 0
added p locked = 0
added p (loaded v) = 0
added p written = amount p

-- The process that has the lock is in the body, and no other.
abbrev Holds : Locked → Option Process → Type 0
Holds s none = (s.child_worker.stage ≡ outside) × (s.parent_worker.stage ≡ outside)
Holds s (some child) = IsInside s.num s.child_worker.stage × (s.parent_worker.stage ≡ outside)
Holds s (some parent) = (s.child_worker.stage ≡ outside) × IsInside s.num s.parent_worker.stage

record Inv (s : Locked) : Type 0 where
  holds : Holds s s.holder
  counted :
      s.num
      ≡ s.child_worker.done
        + 2 * s.parent_worker.done
        + added child s.child_worker.stage
        + added parent s.parent_worker.stage

holder_cases : (o : Option Process) → (o ≡ none) ⊎ ((o ≡ some child) ⊎ (o ≡ some parent))
holder_cases none = inl refl
holder_cases (some child) = inr (inl refl)
holder_cases (some parent) = inr (inr refl)

lock_step-Inv :
    (p : Process) (s t : Locked) (q : Stage)
    → (worker p s).stage ≡ q
    → Inv s
    → lock_step p s q ≡ some t
    → Inv t
unfolding lock_step
lock_step-Inv child s t outside e v h = ground (arith, holder_cases s.holder)
lock_step-Inv child s t locked e v h = ground (arith, holder_cases s.holder)
lock_step-Inv child s t (loaded n) e v h = ground (arith, holder_cases s.holder)
lock_step-Inv child s t written e v h = ground (arith, holder_cases s.holder)
lock_step-Inv parent s t outside e v h = ground (arith, holder_cases s.holder)
lock_step-Inv parent s t locked e v h = ground (arith, holder_cases s.holder)
lock_step-Inv parent s t (loaded n) e v h = ground (arith, holder_cases s.holder)
lock_step-Inv parent s t written e v h = ground (arith, holder_cases s.holder)

run_locked-Inv : (ps : List Process) (s : Locked) → Inv s → OnSome Inv (run_locked ps s)
unfolding run_locked
run_locked-Inv [] s v = OnSome-some v
run_locked-Inv (p ∷ ps) s v =
    OnSome-bind (lock_step p s (worker p s).stage)
      λ t h. run_locked-Inv ps t (lock_step-Inv p s t (worker p s).stage refl v h)

-- As before the fork, with the lock free and nothing counted.
abbrev pub IsStart : Locked → Type 0
IsStart s =
    (s.holder ≡ none)
    × (s.num ≡ 0)
    × (s.child_worker ≡ record { stage = outside; done = 0 })
    × (s.parent_worker ≡ record { stage = outside; done = 0 })

-- From the start, whatever the interleaving, one of the two processes is outside the lock, and the
-- number is one for each round of the child and two for each round of the parent, with what the one
-- inside has already written: it is 30 when both have done ten rounds.
pub run_locked_lem :
    (ps : List Process) (s t : Locked)
    → IsStart s
    → run_locked ps s ≡ some t
    → ((t.child_worker.stage ≡ outside) ⊎ (t.parent_worker.stage ≡ outside))
      × (t.num
          ≡ t.child_worker.done
            + 2 * t.parent_worker.done
            + added child t.child_worker.stage
            + added parent t.parent_worker.stage)
run_locked_lem ps s t f r =
    let start : Inv s = ground arith in
    let v = (run_locked-Inv ps s start).holds t r in
    ground (arith, v.holds, v.counted, holder_cases t.holder)

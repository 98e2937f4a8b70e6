-- ===== src/Shared/Counters/Atomic.antt =====
-- The atomic number loses no count and gives every value once; the plain one may lose counts.
use cpp_linux_learn.Common.{
  ℕ, zero, suc, ◌+◌, ◌≤◌, ◌≡◌, ap, Option, none, some, List, [], ◌∷◌, ◌++◌, OnSome, OnSome-some,
  OnSome-bind, Option-cases, arith,
}
use cpp_linux_learn.Shared.Counters.{
  Process, child, parent, Numbers, counting, count_step, run_numbers,
}

-- The numbers below `n`, in order.
abbrev pub range : ℕ → List ℕ
range zero = []
range (suc n) = range n ++ (n ∷ [])

abbrev IsBehind : ℕ → Option ℕ → Type 0
IsBehind n none = Unit
IsBehind n (some v) = v ≤ n

-- What a process has read is no more than the rounds that were written by then.
record Inv (s : Numbers) : Type 0 where
  exact : s.atomic ≡ s.child_counting.atomic_done + s.parent_counting.atomic_done
  values : s.seen ≡ range s.atomic
  most : s.numeric ≤ s.child_counting.numeric_done + s.parent_counting.numeric_done
  child_read :
      IsBehind
        (s.child_counting.numeric_done + s.parent_counting.numeric_done)
        s.child_counting.read_number
  parent_read :
      IsBehind
        (s.child_counting.numeric_done + s.parent_counting.numeric_done)
        s.parent_counting.read_number

-- The next value goes behind those that were taken.
values-step : (s : Numbers) → Inv s → s.seen ++ (s.atomic ∷ []) ≡ range (suc s.atomic)
values-step s v = ap (λ l. l ++ (s.atomic ∷ [])) v.values

count_step-Inv :
    (p : Process) (s t : Numbers) → Inv s → count_step p s (counting p s) ≡ some t → Inv t
unfolding count_step
count_step-Inv child s t v h =
    ground (arith, values-step s v, Option-cases s.child_counting.read_number)
count_step-Inv parent s t v h =
    ground (arith, values-step s v, Option-cases s.parent_counting.read_number)

run_numbers-Inv : (ps : List Process) (s : Numbers) → Inv s → OnSome Inv (run_numbers ps s)
unfolding run_numbers
run_numbers-Inv [] s v = OnSome-some v
run_numbers-Inv (p ∷ ps) s v =
    OnSome-bind (count_step p s (counting p s))
      λ t h. run_numbers-Inv ps t (count_step-Inv p s t v h)

-- As before the fork.
abbrev pub IsStart : Numbers → Type 0
IsStart s =
    (s.atomic ≡ 0)
    × (s.numeric ≡ 0)
    × (s.seen ≡ [])
    × (s.child_counting ≡ record { atomic_done = 0; numeric_done = 0; read_number = none })
    × (s.parent_counting ≡ record { atomic_done = 0; numeric_done = 0; read_number = none })

-- From the start, whatever the interleaving, the atomic number is the number of rounds done on it, and
-- the values that the processes took from it are the numbers below it, each once; the plain number is
-- at most the number of rounds done on it.
pub run_numbers_lem :
    (ps : List Process) (s t : Numbers)
    → IsStart s
    → run_numbers ps s ≡ some t
    → (t.atomic ≡ t.child_counting.atomic_done + t.parent_counting.atomic_done)
      × (t.seen ≡ range t.atomic)
      × (t.numeric ≤ t.child_counting.numeric_done + t.parent_counting.numeric_done)
run_numbers_lem ps s t f r =
    let start : Inv s = ground arith in
    let v = (run_numbers-Inv ps s start).holds t r in (v.exact, v.values, v.most)

-- ===== src/Shared/Counters/Tests.antt =====
-- Interleavings of the two processes.
use cpp_linux_learn.Common.{
  ◌+◌, ◌*◌, ◌≤◌, ◌≡◌, refl, ◌⊎◌, none, some, List, [], ◌∷◌, ◌++◌, replicate,
}
use cpp_linux_learn.Shared.Counters.{
  Process, child, parent, outside, loaded, Locked, lock_step, run_locked, Numbers, count_step,
  run_numbers,
}
use cpp_linux_learn.Shared.Counters.Lock.{added, run_locked_lem}
use cpp_linux_learn.Shared.Counters.Atomic.{range, run_numbers_lem}

abbrev unlocked : Locked
unlocked = record {
  holder = none;
  num = 0;
  child_worker = record { stage = outside; done = 0 };
  parent_worker = record { stage = outside; done = 0 };
}

-- A round of the child, and the parent up to its reading of the number.
abbrev rounds : List Process
rounds = child ∷ child ∷ child ∷ child ∷ parent ∷ parent ∷ []

abbrev loading : Locked
loading = record {
  holder = some parent;
  num = 1;
  child_worker = record { stage = outside; done = 1 };
  parent_worker = record { stage = loaded 1; done = 0 };
}

rounds_end : run_locked rounds unlocked ≡ some loading
unfolding run_locked lock_step
rounds_end = refl

run_locked_lem_example :
    ((loading.child_worker.stage ≡ outside) ⊎ (loading.parent_worker.stage ≡ outside))
    × (loading.num
        ≡ loading.child_worker.done
          + 2 * loading.parent_worker.done
          + added child loading.child_worker.stage
          + added parent loading.parent_worker.stage)
run_locked_lem_example = run_locked_lem rounds unlocked loading (refl, refl, refl, refl) rounds_end

-- All rounds of both, one process after the other.
run_locked_all :
    run_locked (replicate 40 child ++ replicate 40 parent) unlocked
    ≡ some (record {
      holder = none;
      num = 30;
      child_worker = record { stage = outside; done = 10 };
      parent_worker = record { stage = outside; done = 10 };
    })
unfolding run_locked lock_step
run_locked_all = refl

abbrev zeros : Numbers
zeros = record {
  atomic = 0;
  numeric = 0;
  seen = [];
  child_counting = record { atomic_done = 0; numeric_done = 0; read_number = none };
  parent_counting = record { atomic_done = 0; numeric_done = 0; read_number = none };
}

-- Both atomic loops, and then a round of each on the plain number in which both read 0.
abbrev lossy : List Process
lossy = replicate 20 child ++ (replicate 20 parent ++ (child ∷ parent ∷ child ∷ parent ∷ []))

abbrev one_lost : Numbers
one_lost = record {
  atomic = 40;
  numeric = 1;
  seen = range 40;
  child_counting = record { atomic_done = 20; numeric_done = 1; read_number = none };
  parent_counting = record { atomic_done = 20; numeric_done = 1; read_number = none };
}

lossy_end : run_numbers lossy zeros ≡ some one_lost
unfolding run_numbers count_step
lossy_end = refl

run_numbers_lem_example :
    (one_lost.atomic ≡ one_lost.child_counting.atomic_done + one_lost.parent_counting.atomic_done)
    × (one_lost.seen ≡ range one_lost.atomic)
    × (one_lost.numeric
        ≤ one_lost.child_counting.numeric_done + one_lost.parent_counting.numeric_done)
run_numbers_lem_example =
    run_numbers_lem lossy zeros one_lost (refl, refl, refl, refl, refl) lossy_end

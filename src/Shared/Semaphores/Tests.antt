-- ===== src/Shared/Semaphores/Tests.antt =====
-- The programs on words of one letter.
use cpp_linux_learn.Common.{
  ℕ, suc, ◌+◌, ◌*◌, ◌≤◌, ◌≡◌, refl, ◌⊎◌, some, List, [], ◌∷◌, ◌++◌, length,
}
use cpp_linux_learn.Shared.Semaphores.{
  waiting, at_age, Process, writer, reader, Shown, shown_name, System, rounds, run, step,
  write_step, read_step, age_of,
}
use cpp_linux_learn.Shared.Semaphores.Steps.{shown}
use cpp_linux_learn.Shared.Semaphores.Turns.{run-in_order, run-ends}

abbrev letter : ℕ → List ℕ
letter i = (97 + i) ∷ []

abbrev opened : System
opened = record {
  semr = 0;
  semw = 1;
  name = [];
  age = 0;
  writer_at = waiting;
  written = 0;
  reader_at = waiting;
  read = 0;
  printed = [];
}

-- One round of the writer, and the reader up to the name.
abbrev schedule : List Process
schedule = writer ∷ writer ∷ writer ∷ writer ∷ reader ∷ reader ∷ []

abbrev half_read : System
half_read = record {
  semr = 0;
  semw = 0;
  name = 97 ∷ [];
  age = 11;
  writer_at = waiting;
  written = 1;
  reader_at = at_age;
  read = 0;
  printed = shown_name (97 ∷ []) ∷ [];
}

half_way : run letter schedule opened ≡ some half_read
unfolding run step write_step read_step age_of
half_way = refl

run-in_order_example :
    ((rest : List Shown) × (half_read.printed ++ rest ≡ shown letter 0 rounds))
    × (half_read.read ≤ half_read.written)
    × (half_read.written ≤ suc half_read.read)
run-in_order_example =
    run-in_order letter schedule opened half_read half_way
      (refl, refl, refl, refl, refl, refl, refl)

run-ends_example :
    (length schedule ≤ 8 * rounds)
    × ((half_read.printed ≡ shown letter 0 rounds)
        ⊎ ((p : Process) × (u : System) × (step letter p half_read ≡ some u)))
run-ends_example =
    run-ends letter schedule opened half_read half_way (refl, refl, refl, refl, refl, refl, refl)

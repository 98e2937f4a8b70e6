-- ===== src/Shared/Semaphores.antt =====
-- shm_named_sem_sync and shm_anony_sem_sync: shmWrite.cpp and shmRead.cpp, ten rounds each, which take
-- turns by the semaphores semw and semr. A step is what one process does between two points at which
-- the other can come in; a list of processes is an interleaving. `none` is a wait that does not end
-- yet, or a process that has left its loop. The word that `cin` gives for a round is a parameter; the
-- system calls that set the memory up and take it down are not modelled.
pub mod Steps
pub mod Turns
mod Tests
use cpp_linux_learn.Common.{
  ℕ, zero, suc, ◌+◌, ◌-◌, ◌>>=◌, Option, none, some, List, [], ◌∷◌, ◌++◌, ltb, if◌then◌else◌,
}

-- Where a process is in the body of its loop: before `sem_wait`, before the line about the name,
-- before the line about the age, before `sem_post`.
pub data Stage : Type 0 where
  waiting at_name at_age posting : Stage

pub data Process : Type 0 where
  writer reader : Process

-- What the reader prints.
pub data Shown : Type 0 where
  shown_name : List ℕ → Shown
  shown_age : ℕ → Shown

-- The semaphores, the object in shared memory, and the two processes, with the rounds that each has
-- completed and what was printed.
pub record System : Type 0 where
  pub semr : ℕ
  pub semw : ℕ
  pub name : List ℕ
  pub age : ℕ
  pub writer_at : Stage
  pub written : ℕ
  pub reader_at : Stage
  pub read : ℕ
  pub printed : List Shown

-- `int n = 10`.
abbrev pub rounds : ℕ
rounds = 10

-- `20 - n`, where `n--` has left one less than the rounds that were to come.
unfoldable pub age_of : ℕ → ℕ
age_of written = 20 - (rounds - written - 1)

module _ (names : ℕ → List ℕ) where
  -- The loop of shmWrite.cpp.
  unfoldable pub write_step : System → Stage → Option System
  write_step s waiting =
      if ltb s.written rounds
      then (if ltb 0 s.semw
          then some (record s { semw = s.semw - 1; writer_at = at_name })
          else none)
      else none
  write_step s at_name = some (record s { name = names s.written; writer_at = at_age })
  write_step s at_age = some (record s { age = age_of s.written; writer_at = posting })
  write_step s posting =
      some (record s { semr = s.semr + 1; written = suc s.written; writer_at = waiting })

-- The loop of shmRead.cpp.
unfoldable pub read_step : System → Stage → Option System
read_step s waiting =
    if ltb s.read rounds
    then (if ltb 0 s.semr then some (record s { semr = s.semr - 1; reader_at = at_name }) else none)
    else none
read_step s at_name =
    some (record s { printed = s.printed ++ (shown_name s.name ∷ []); reader_at = at_age })
read_step s at_age =
    some (record s { printed = s.printed ++ (shown_age s.age ∷ []); reader_at = posting })
read_step s posting = some (record s { semw = s.semw + 1; read = suc s.read; reader_at = waiting })

module _ (names : ℕ → List ℕ) where
  unfoldable pub step : Process → System → Option System
  unfolding write_step read_step
  step writer s = write_step names s s.writer_at
  step reader s = read_step s s.reader_at

  unfoldable pub run : List Process → System → Option System
  run [] s = some s
  run (p ∷ ps) s = do t ← step p s; run ps t

-- ===== src/Shared/Counters.antt =====
-- trivials/ipc_lock_trivial.cpp and trivials/ipc_atomic_trivial.cpp: a child and its parent that count
-- in shared memory, under a lock, by an atomic number and by a plain one. A step is what one process
-- does between two points at which the other can come in; a list of processes is an interleaving.
-- `none` is a lock that is not given yet, or a process that has left its loops. The lock is given to
-- one process at a time, as fcntl and pthread_mutex_lock document. The counters stay far below the
-- bounds of int.
pub mod Lock
pub mod Atomic
mod Tests
use cpp_linux_learn.Common.{
  ℕ, zero, suc, ◌+◌, ◌>>=◌, Option, none, some, List, [], ◌∷◌, ◌++◌, ltb, if◌then◌else◌,
}

pub data Process : Type 0 where
  child parent : Process

-- Where a process is in the body of the loop under the lock: before it takes the lock, before it reads
-- `*num`, before it writes the number it read, before it gives the lock back.
pub data Stage : Type 0 where
  outside locked written : Stage
  loaded : ℕ → Stage

pub record Worker : Type 0 where
  pub stage : Stage
  pub done : ℕ

pub record Locked : Type 0 where
  pub holder : Option Process
  pub num : ℕ
  pub child_worker : Worker
  pub parent_worker : Worker

-- `(*num)++` and `(*num) += 2`.
abbrev pub amount : Process → ℕ
amount child = 1
amount parent = 2

abbrev pub worker : Process → Locked → Worker
worker child s = s.child_worker
worker parent s = s.parent_worker

abbrev pub set_worker : Process → Worker → Locked → Locked
set_worker child w s = record s { child_worker = w }
set_worker parent w s = record s { parent_worker = w }

-- `writeLock` and `pthread_mutex_lock`.
abbrev pub take_lock : Process → Locked → Option Process → Option Locked
take_lock p s none = some (record s { holder = some p })
take_lock p s (some q) = none

-- The loop of ten rounds of FileLockFunc and of ShareMutexFunc.
unfoldable pub lock_step : Process → Locked → Stage → Option Locked
lock_step p s outside =
    if ltb (worker p s).done 10
    then (do
      t ← take_lock p s s.holder
      some (set_worker p (record { stage = locked; done = (worker p s).done }) t))
    else none
lock_step p s locked =
    some (set_worker p (record { stage = loaded s.num; done = (worker p s).done }) s)
lock_step p s (loaded v) = some (
    set_worker p (record { stage = written; done = (worker p s).done })
      (record s { num = v + amount p }))
lock_step p s written = some (
    set_worker p (record { stage = outside; done = suc (worker p s).done })
      (record s { holder = none }))

unfoldable pub run_locked : List Process → Locked → Option Locked
run_locked [] s = some s
run_locked (p ∷ ps) s = do t ← lock_step p s (worker p s).stage; run_locked ps t

-- A process of ipc_atomic_trivial.cpp: the rounds of its two loops, and `*n_int` while it is read and
-- not yet written.
pub record Counting : Type 0 where
  pub atomic_done : ℕ
  pub numeric_done : ℕ
  pub read_number : Option ℕ

-- The two numbers in shared memory, and the values `t` of the atomic loops in the order of the steps.
pub record Numbers : Type 0 where
  pub atomic : ℕ
  pub numeric : ℕ
  pub seen : List ℕ
  pub child_counting : Counting
  pub parent_counting : Counting

abbrev pub counting : Process → Numbers → Counting
counting child s = s.child_counting
counting parent s = s.parent_counting

abbrev pub set_counting : Process → Counting → Numbers → Numbers
set_counting child w s = record s { child_counting = w }
set_counting parent w s = record s { parent_counting = w }

-- `int t = (*n_int)++`: the number is read, and then written.
abbrev pub numeric_step : Process → Numbers → Counting → Option ℕ → Numbers
numeric_step p s w none = set_counting p (record w { read_number = some s.numeric }) s
numeric_step p s w (some v) =
    set_counting p (record w { read_number = none; numeric_done = suc w.numeric_done })
      (record s { numeric = v + 1 })

-- `int t = (*a_int)++` in one step, and after the first loop the second.
unfoldable pub count_step : Process → Numbers → Counting → Option Numbers
count_step p s w =
    if ltb w.atomic_done 20
    then some (
        set_counting p (record w { atomic_done = suc w.atomic_done })
          (record s { atomic = suc s.atomic; seen = s.seen ++ (s.atomic ∷ []) }))
    else (if ltb w.numeric_done 20 then some (numeric_step p s w w.read_number) else none)

unfoldable pub run_numbers : List Process → Numbers → Option Numbers
run_numbers [] s = some s
run_numbers (p ∷ ps) s = do t ← count_step p s (counting p s); run_numbers ps t

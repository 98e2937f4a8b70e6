-- ===== src/Deployer/Pool.antt =====
-- StragetyDeployer/FixedThreaPool.h: the threads that answer the requests. A step is what one thread,
-- a submitting one or the destroying one does in one use of the mutex or of an atomic, and a task's begin
-- and its end are steps of their own; a sequence of steps is an interleaving. A task is a number. A
-- thread in `cvTask.wait` may go on whenever its condition holds; which one is notified is not modelled.
pub mod Counts
pub mod Steps
pub mod Order
pub mod Tests
use cpp_linux_learn.Common.{
  ℕ, zero, suc, ◌+◌, ◌-◌, ◌>>=◌, Bool, true, false, Option, none, some, List, [], ◌∷◌, ◌++◌, ltb,
  if◌then◌else◌, get_elem?, set, replicate,
}

-- Where a thread is in `do_work`: at the loop's condition, on its way to the lock or in `wait`, with a
-- task that it took before `nIdlThredNum--`, behind that, in the task, behind the task, and returned.
pub data Worker : Type 0 where
  at_loop waiting returned : Worker
  holding counted working ended : ℕ → Worker

-- `submitting` are the tasks whose `submit` has passed the test of `bStoped` and not yet the lock.
pub record Pool : Type 0 where
  pub threads : List Worker
  pub submitting : List ℕ
  pub tasks : List ℕ
  pub stopped : Bool
  pub idle : ℕ

pub data Action : Type 0 where
  submit : ℕ → Action
  push : ℕ → Action
  advance : ℕ → Action
  stop : Action

-- What is seen of a step: a task put into the queue, taken out of it, begun or finished.
pub data Seen : Type 0 where
  pushed popped begun finished : ℕ → Seen

-- The constructor, on `hardware_concurrency()`.
unfoldable pub new_pool : ℕ → ℕ → Pool
new_pool hardware size =
    let n = if ltb size 1 then 1 else size in
    let threads = if ltb hardware n then hardware else n in
    record {
      threads = replicate threads at_loop;
      submitting = [];
      tasks = [];
      stopped = false;
      idle = threads;
    }

-- `submit` up to the lock: a pool that is stopped returns an invalid future.
unfoldable pub submit_task : ℕ → Pool → Pool
submit_task t p = if p.stopped then p else record p { submitting = p.submitting ++ t ∷ [] }

-- The part of `submit` under the lock, for the `i`-th of those that come to it.
unfoldable pub without : ℕ → List ℕ → List ℕ
without i [] = []
without zero (t ∷ ts) = ts
without (suc i) (t ∷ ts) = t ∷ without i ts

unfoldable pub push_task : ℕ → Pool → Option (Pool × List Seen)
push_task i p = do
  t ← get_elem? p.submitting i
  some (record p { submitting = without i p.submitting; tasks = p.tasks ++ t ∷ [] }, pushed t ∷ [])

-- Under the lock, when there is a task or the pool is stopped: the first task is taken, or the thread
-- returns. `none` is the wait.
abbrev pub take_at : ℕ → Pool → List ℕ → Option (Pool × List Seen)
take_at i p (t ∷ ts) =
    some (record p { threads = set p.threads i (holding t); tasks = ts }, popped t ∷ [])
take_at i p [] =
    if p.stopped then some (record p { threads = set p.threads i returned }, []) else none

-- The next step of a thread.
abbrev pub advance_at : ℕ → Pool → Worker → Option (Pool × List Seen)
advance_at i p at_loop =
    some (record p { threads = set p.threads i (if p.stopped then returned else waiting) }, [])
advance_at i p waiting = take_at i p p.tasks
advance_at i p (holding t) =
    some (record p { threads = set p.threads i (counted t); idle = p.idle - 1 }, [])
advance_at i p (counted t) = some (record p { threads = set p.threads i (working t) }, begun t ∷ [])
advance_at i p (working t) =
    some (record p { threads = set p.threads i (ended t) }, finished t ∷ [])
advance_at i p (ended t) =
    some (record p { threads = set p.threads i at_loop; idle = p.idle + 1 }, [])
advance_at i p returned = none

unfoldable pub do_work : ℕ → Pool → Option (Pool × List Seen)
do_work i p = do w ← get_elem? p.threads i; advance_at i p w

-- `stop` is the destructor's `bStoped.store(true)`.
unfoldable pub step : Action → Pool → Option (Pool × List Seen)
unfolding push_task do_work
step (submit t) p = some (submit_task t p, [])
step (push i) p = push_task i p
step (advance i) p = do_work i p
step stop p = some (record p { stopped = true }, [])

unfoldable pub run_pool : List Action → Pool → Option (Pool × List Seen)
run_pool [] p = some (p, [])
run_pool (a ∷ rest) p = do
  (q, seen) ← step a p
  (r, later) ← run_pool rest q
  some (r, seen ++ later)

-- ===== src/Deployer/Pool/Tests.antt =====
-- StragetyDeployer/FixedThreaPool.h: runs of the pool.
use cpp_linux_learn.Common.{◌+◌, ◌≤◌, ◌≡◌, refl, true, false, some, List, [], ◌∷◌, ◌++◌, length}
use cpp_linux_learn.Deployer.Pool.{
  Pool, Seen, pushed, popped, begun, Action, push, advance, new_pool, run_pool, waiting, working,
  holding, returned,
}
use cpp_linux_learn.Deployer.Pool.Counts.{
  all_pushed, all_popped, all_begun, times, is_counted, is_waiting, has_taken, has_task, count,
}
use cpp_linux_learn.Deployer.Pool.Order.{run_pool_lem, run_pool-stopped}
use cpp_linux_learn.Deployer.Pool

-- A machine with three cores and three tasks: the first task is taken before the second, and begun behind
-- it.
abbrev pool_actions : List Action
pool_actions =
    advance 0
    ∷ advance 1
    ∷ advance 2
    ∷ Pool.submit 10
    ∷ Pool.submit 20
    ∷ push 0
    ∷ push 0
    ∷ Pool.submit 30
    ∷ advance 0
    ∷ advance 1
    ∷ advance 1
    ∷ advance 1
    ∷ []

abbrev begun_pool : Pool
begun_pool = record {
  threads = holding 10 ∷ working 20 ∷ waiting ∷ [];
  submitting = 30 ∷ [];
  tasks = [];
  stopped = false;
  idle = 2;
}

abbrev begun_seen : List Seen
begun_seen = pushed 10 ∷ pushed 20 ∷ popped 10 ∷ popped 20 ∷ begun 20 ∷ []

begun-run : run_pool pool_actions (new_pool 3 4) ≡ some (begun_pool, begun_seen)
unfolding run_pool Pool.step new_pool Pool.submit_task Pool.push_task Pool.do_work Pool.without
begun-run = refl

run_pool_lem_example :
    (all_pushed begun_seen ≡ all_popped begun_seen ++ begun_pool.tasks)
    × (times 10 (all_popped begun_seen)
        ≡ times 10 (all_begun begun_seen) + count (has_task 10) begun_pool.threads)
    × (begun_pool.idle + count is_counted begun_pool.threads ≡ length begun_pool.threads)
run_pool_lem_example = run_pool_lem 3 4 10 pool_actions begun_pool begun_seen begun-run

-- Behind the stop the third task still comes into the queue, and the waiting thread takes it.
abbrev stopped_pool : Pool
stopped_pool = record begun_pool { stopped = true }

abbrev last_pool : Pool
last_pool = record {
  threads = working 10 ∷ returned ∷ holding 30 ∷ [];
  submitting = [];
  tasks = [];
  stopped = true;
  idle = 2;
}

abbrev last_actions : List Action
last_actions =
    push 0
    ∷ advance 2
    ∷ advance 0
    ∷ advance 0
    ∷ advance 1
    ∷ advance 1
    ∷ advance 1
    ∷ Pool.submit 40
    ∷ []

abbrev last_seen : List Seen
last_seen = pushed 30 ∷ popped 30 ∷ begun 10 ∷ Pool.finished 20 ∷ []

last-run : run_pool last_actions stopped_pool ≡ some (last_pool, last_seen)
unfolding run_pool Pool.step Pool.submit_task Pool.push_task Pool.do_work Pool.without
last-run = refl

run_pool-stopped_example :
    (last_pool.stopped ≡ true)
    × (length (all_popped last_seen) ≤ count is_waiting stopped_pool.threads)
    × (length (all_begun last_seen)
        ≤ count has_taken stopped_pool.threads + count is_waiting stopped_pool.threads)
    × (length (all_pushed last_seen) ≤ length stopped_pool.submitting)
    × (stopped_pool.tasks ++ all_pushed last_seen ≡ all_popped last_seen ++ last_pool.tasks)
run_pool-stopped_example =
    run_pool-stopped last_actions stopped_pool last_pool last_seen refl last-run

-- ===== src/Deployer/Pool/Order.antt =====
-- StragetyDeployer/FixedThreaPool.h: order of the tasks, the count of idle threads, and the stop.
use cpp_linux_learn.Common.{
  ℕ, zero, suc, ◌+◌, ◌≤◌, ◌≡◌, refl, ap, sym, ◌∙◌, true, some, List, [], ◌∷◌, ◌++◌, append-nil,
  append_assoc, length, replicate, arith, OnSome, OnSome-bind, OnSome-some, length-append,
}
use cpp_linux_learn.Deployer.Pool.{
  at_loop, Pool, Worker, Action, Seen, pushed, popped, begun, finished, step, run_pool, new_pool,
}
use cpp_linux_learn.Deployer.Pool.Counts.{
  all_pushed, all_popped, all_begun, times, is_counted, is_waiting, has_taken, has_task, count,
}
use cpp_linux_learn.Deployer.Pool.Steps.{IsGoodStep, step-IsGoodStep}

all_pushed-append : (es fs : List Seen) → all_pushed (es ++ fs) ≡ all_pushed es ++ all_pushed fs
all_pushed-append [] fs = refl
all_pushed-append (pushed t ∷ es) fs = ap (◌∷◌ t) (all_pushed-append es fs)
all_pushed-append (popped t ∷ es) fs = all_pushed-append es fs
all_pushed-append (begun t ∷ es) fs = all_pushed-append es fs
all_pushed-append (finished t ∷ es) fs = all_pushed-append es fs

all_popped-append : (es fs : List Seen) → all_popped (es ++ fs) ≡ all_popped es ++ all_popped fs
all_popped-append [] fs = refl
all_popped-append (pushed t ∷ es) fs = all_popped-append es fs
all_popped-append (popped t ∷ es) fs = ap (◌∷◌ t) (all_popped-append es fs)
all_popped-append (begun t ∷ es) fs = all_popped-append es fs
all_popped-append (finished t ∷ es) fs = all_popped-append es fs

all_begun-append : (es fs : List Seen) → all_begun (es ++ fs) ≡ all_begun es ++ all_begun fs
all_begun-append [] fs = refl
all_begun-append (pushed t ∷ es) fs = all_begun-append es fs
all_begun-append (popped t ∷ es) fs = all_begun-append es fs
all_begun-append (begun t ∷ es) fs = ap (◌∷◌ t) (all_begun-append es fs)
all_begun-append (finished t ∷ es) fs = all_begun-append es fs

times-append : (t : ℕ) (us vs : List ℕ) → times t (us ++ vs) ≡ times t us + times t vs
times-append t [] vs = omega arith
times-append t (u ∷ us) vs = omega (arith, times-append t us vs)

-- Two steps in a row.
then_good :
    (p q r : Pool) (es fs : List Seen)
    → IsGoodStep p (q, es)
    → IsGoodStep q (r, fs)
    → IsGoodStep p (r, es ++ fs)
then_good p q r es fs h k = record {
  order =
      ap (λ ts. p.tasks ++ ts) (all_pushed-append es fs)
      ∙ sym (append_assoc p.tasks (all_pushed es) (all_pushed fs))
      ∙ ap (λ ts. ts ++ all_pushed fs) h.order
      ∙ append_assoc (all_popped es) q.tasks (all_pushed fs)
      ∙ ap (λ ts. all_popped es ++ ts) k.order
      ∙ sym (append_assoc (all_popped es) (all_popped fs) r.tasks)
      ∙ ap (λ ts. ts ++ r.tasks) (sym (all_popped-append es fs));
  idle = λ e. k.idle (h.idle e);
  taken = λ t. omega (
    arith,
    h.taken t,
    k.taken t,
    ap (times t) (all_popped-append es fs),
    times-append t (all_popped es) (all_popped fs),
    ap (times t) (all_begun-append es fs),
    times-append t (all_begun es) (all_begun fs),
  );
  stopped = λ e. k.stopped (h.stopped e);
  waits = λ e. omega (
    arith,
    h.waits e,
    k.waits (h.stopped e),
    ap length (all_popped-append es fs),
    length-append (all_popped es) (all_popped fs),
  );
  begins = omega (
    arith,
    h.begins,
    k.begins,
    ap length (all_popped-append es fs),
    length-append (all_popped es) (all_popped fs),
    ap length (all_begun-append es fs),
    length-append (all_begun es) (all_begun fs),
  );
  pushes = λ e. omega (
    arith,
    h.pushes e,
    k.pushes (h.stopped e),
    ap length (all_pushed-append es fs),
    length-append (all_pushed es) (all_pushed fs),
  );
}

run_pool-IsGoodStep :
    (actions : List Action) (p : Pool) → OnSome (IsGoodStep p) (run_pool actions p)
unfolding run_pool
run_pool-IsGoodStep [] p = OnSome-some (record {
  order = append-nil p.tasks;
  idle = λ k. k;
  taken = λ t. omega arith;
  stopped = λ k. k;
  waits = λ k. omega arith;
  begins = omega arith;
  pushes = λ k. omega arith;
})
run_pool-IsGoodStep (a ∷ rest) p = OnSome-bind (step a p) λ x ex.
    OnSome-bind (run_pool rest x.0) λ y ey. OnSome-some (
      then_good p x.0 y.0 x.1 y.1 ((step-IsGoodStep a p).holds x ex)
        ((run_pool-IsGoodStep rest x.0).holds y ey))

none_yet : (f : Worker → ℕ) (n : ℕ) → f at_loop ≡ 0 → count f (replicate n at_loop) ≡ 0
none_yet f zero e = refl
none_yet f (suc n) e = omega (arith, e, none_yet f n e)

length-replicate_at_loop : (n : ℕ) → length (replicate n at_loop) ≡ n
length-replicate_at_loop zero = refl
length-replicate_at_loop (suc n) = omega (arith, length-replicate_at_loop n)

-- In every interleaving from the pool's creation on, the tasks that threads took out of the queue are, in
-- the order they were put into it, the first of those, and the queue holds the others; each task was
-- begun as often as it was taken out, but for the threads which have taken it and are not yet in it;
-- and the count of idle threads is that of the threads which are not between counting themselves down and
-- up.
pub run_pool_lem :
    (hardware size t : ℕ) (actions : List Action) (q : Pool) (es : List Seen)
    → run_pool actions (new_pool hardware size) ≡ some (q, es)
    → (all_pushed es ≡ all_popped es ++ q.tasks)
      × (times t (all_popped es) ≡ times t (all_begun es) + count (has_task t) q.threads)
      × (q.idle + count is_counted q.threads ≡ length q.threads)
unfolding new_pool
run_pool_lem hardware size t actions q es e =
    let good = (run_pool-IsGoodStep actions (new_pool hardware size)).holds (q, es) e in
    let n = (new_pool hardware size).idle in
    (
      good.order,
      omega (arith, good.taken t, none_yet (has_task t) n refl),
      good.idle (omega (arith, none_yet is_counted n refl, length-replicate_at_loop n)),
    )

-- Once the pool is stopped it stays so, and in every interleaving after that at most as many tasks are
-- taken out of the queue as threads were waiting, and at most as many more begun as had been taken and not
-- begun; at most as many are still put into the queue as were past the test of `submit`. What is taken
-- is, in order, the first of what the queue held and gets: the others are never run.
pub run_pool-stopped :
    (actions : List Action) (p q : Pool) (es : List Seen)
    → p.stopped ≡ true
    → run_pool actions p ≡ some (q, es)
    → (q.stopped ≡ true)
      × (length (all_popped es) ≤ count is_waiting p.threads)
      × (length (all_begun es) ≤ count has_taken p.threads + count is_waiting p.threads)
      × (length (all_pushed es) ≤ length p.submitting)
      × (p.tasks ++ all_pushed es ≡ all_popped es ++ q.tasks)
run_pool-stopped actions p q es h e =
    let good = (run_pool-IsGoodStep actions p).holds (q, es) e in
    (
      good.stopped h,
      omega (arith, good.waits h),
      omega (arith, good.waits h, good.begins),
      omega (arith, good.pushes h),
      good.order,
    )

-- ===== src/Deployer/Pool/Steps.antt =====
-- StragetyDeployer/FixedThreaPool.h: what each step of the pool keeps.
use cpp_linux_learn.Common.{
  ℕ, ◌+◌, ◌≤◌, ◌≡◌, refl, ap, ◌∙◌, Bool, true, false, some, List, [], ◌∷◌, ◌++◌, append-nil, length,
  get_elem?, set, arith, OnSome, OnSome-bind, OnSome-if, OnSome-some, OnSome-none, length-set,
  if◌then◌else◌,
}
use cpp_linux_learn.Deployer.Pool.{
  Worker, at_loop, waiting, returned, holding, counted, working, ended, Pool, Action, submit, push,
  advance, stop, Seen, submit_task, push_task, take_at, advance_at, do_work, step,
}
use cpp_linux_learn.Deployer.Pool.Counts.{
  all_pushed, all_popped, all_begun, times, count, is_counted, is_waiting, has_taken, has_task,
  count-set, counted_lt, length-without,
}

-- A step keeps the order of the queue, the count of idle threads, and what the threads have taken; when
-- the pool is stopped it stays so, a task that is taken takes a thread from those that wait, and one that
-- is put into the queue a `submit` from those that have passed the test.
pub record IsGoodStep (p : Pool) (r : Pool × List Seen) : Type 0 where
  pub order : p.tasks ++ all_pushed r.1 ≡ all_popped r.1 ++ r.0.tasks
  pub idle :
      p.idle + count is_counted p.threads ≡ length p.threads
      → r.0.idle + count is_counted r.0.threads ≡ length r.0.threads
  pub taken :
      (t : ℕ)
      → count (has_task t) p.threads + times t (all_popped r.1)
        ≡ times t (all_begun r.1) + count (has_task t) r.0.threads
  pub stopped : p.stopped ≡ true → r.0.stopped ≡ true
  pub waits :
      p.stopped ≡ true
      → length (all_popped r.1) + count is_waiting r.0.threads ≤ count is_waiting p.threads
  pub begins :
      count has_taken p.threads + length (all_popped r.1)
      ≡ length (all_begun r.1) + count has_taken r.0.threads
  pub pushes :
      p.stopped ≡ true → length (all_pushed r.1) + length r.0.submitting ≤ length p.submitting

-- A thread that only moves on.
moved :
    (i : ℕ) (p : Pool) (w v : Worker)
    → get_elem? p.threads i ≡ some w
    → is_counted w ≡ is_counted v
    → ((t : ℕ) → has_task t w ≡ has_task t v)
    → has_taken w ≡ has_taken v
    → (p.stopped ≡ true → is_waiting v ≤ is_waiting w)
    → IsGoodStep p (record p { threads = set p.threads i v }, [])
moved i p w v h c t k s = record {
  order = append-nil p.tasks;
  idle = λ e. omega (arith, e, c, length-set p.threads i v, count-set is_counted p.threads i w v h);
  taken = λ u. omega (arith, t u, count-set (has_task u) p.threads i w v h);
  stopped = λ e. e;
  waits = λ e. omega (arith, s e, count-set is_waiting p.threads i w v h);
  begins = omega (arith, k, count-set has_taken p.threads i w v h);
  pushes = λ e. omega arith;
}

take-IsGoodStep :
    (i : ℕ) (p : Pool) (ts : List ℕ)
    → get_elem? p.threads i ≡ some waiting
    → p.tasks ≡ ts
    → OnSome (IsGoodStep p) (take_at i p ts)
take-IsGoodStep i p [] h e =
    OnSome-if p.stopped
      (λ s. OnSome-some (moved i p waiting returned h refl (λ t. refl) refl (λ s. omega arith)))
      (λ s. OnSome-none)
take-IsGoodStep i p (t ∷ ts) h e = OnSome-some (record {
  order = append-nil p.tasks ∙ e;
  idle = λ k. omega (
    arith,
    k,
    length-set p.threads i (holding t),
    count-set is_counted p.threads i waiting (holding t) h,
  );
  taken = λ u. omega (arith, count-set (has_task u) p.threads i waiting (holding t) h);
  stopped = λ k. k;
  waits = λ k. omega (arith, count-set is_waiting p.threads i waiting (holding t) h);
  begins = omega (arith, count-set has_taken p.threads i waiting (holding t) h);
  pushes = λ k. omega arith;
})

-- A thread at the loop's condition.
at_loop-IsGoodStep :
    (i : ℕ) (p : Pool) (b : Bool)
    → get_elem? p.threads i ≡ some at_loop
    → p.stopped ≡ b
    → IsGoodStep p (record p { threads = set p.threads i (if b then returned else waiting) }, [])
at_loop-IsGoodStep i p true h e =
    moved i p at_loop returned h refl (λ t. refl) refl (λ s. omega arith)
at_loop-IsGoodStep i p false h e =
    moved i p at_loop waiting h refl (λ t. refl) refl (λ s. absurd (cc (e, s)))

advance-IsGoodStep :
    (i : ℕ) (p : Pool) (w : Worker)
    → get_elem? p.threads i ≡ some w
    → OnSome (IsGoodStep p) (advance_at i p w)
advance-IsGoodStep i p at_loop h = OnSome-some (at_loop-IsGoodStep i p p.stopped h refl)
advance-IsGoodStep i p waiting h = take-IsGoodStep i p p.tasks h refl
advance-IsGoodStep i p returned h = OnSome-none
advance-IsGoodStep i p (holding t) h = OnSome-some (record {
  order = append-nil p.tasks;
  idle = λ k. omega (
    arith,
    k,
    length-set p.threads i (counted t),
    count-set is_counted p.threads i (holding t) (counted t) h,
    counted_lt p.threads i t h,
  );
  taken = λ u. omega (arith, count-set (has_task u) p.threads i (holding t) (counted t) h);
  stopped = λ k. k;
  waits = λ k. omega (arith, count-set is_waiting p.threads i (holding t) (counted t) h);
  begins = omega (arith, count-set has_taken p.threads i (holding t) (counted t) h);
  pushes = λ k. omega arith;
})
advance-IsGoodStep i p (counted t) h = OnSome-some (record {
  order = append-nil p.tasks;
  idle = λ k. omega (
    arith,
    k,
    length-set p.threads i (working t),
    count-set is_counted p.threads i (counted t) (working t) h,
  );
  taken = λ u. omega (arith, count-set (has_task u) p.threads i (counted t) (working t) h);
  stopped = λ k. k;
  waits = λ k. omega (arith, count-set is_waiting p.threads i (counted t) (working t) h);
  begins = omega (arith, count-set has_taken p.threads i (counted t) (working t) h);
  pushes = λ k. omega arith;
})
advance-IsGoodStep i p (working t) h = OnSome-some (record {
  order = append-nil p.tasks;
  idle = λ k. omega (
    arith,
    k,
    length-set p.threads i (ended t),
    count-set is_counted p.threads i (working t) (ended t) h,
  );
  taken = λ u. omega (arith, count-set (has_task u) p.threads i (working t) (ended t) h);
  stopped = λ k. k;
  waits = λ k. omega (arith, count-set is_waiting p.threads i (working t) (ended t) h);
  begins = omega (arith, count-set has_taken p.threads i (working t) (ended t) h);
  pushes = λ k. omega arith;
})
advance-IsGoodStep i p (ended t) h = OnSome-some (record {
  order = append-nil p.tasks;
  idle = λ k. omega (
    arith,
    k,
    length-set p.threads i at_loop,
    count-set is_counted p.threads i (ended t) at_loop h,
  );
  taken = λ u. omega (arith, count-set (has_task u) p.threads i (ended t) at_loop h);
  stopped = λ k. k;
  waits = λ k. omega (arith, count-set is_waiting p.threads i (ended t) at_loop h);
  begins = omega (arith, count-set has_taken p.threads i (ended t) at_loop h);
  pushes = λ k. omega arith;
})

-- A step that leaves the threads and the queue.
unmoved :
    (p q : Pool)
    → p.tasks ≡ q.tasks
    → p.threads ≡ q.threads
    → p.idle ≡ q.idle
    → (p.stopped ≡ true → q.stopped ≡ true)
    → (p.stopped ≡ true → length q.submitting ≤ length p.submitting)
    → IsGoodStep p (q, [])
unmoved p q e f g s l = record {
  order = append-nil p.tasks ∙ e;
  idle = λ k. omega (arith, k, g, ap (count is_counted) f, ap length f);
  taken = λ u. omega (arith, ap (count (has_task u)) f);
  stopped = s;
  waits = λ k. omega (arith, ap (count is_waiting) f);
  begins = omega (arith, ap (count has_taken) f);
  pushes = λ k. omega (arith, l k);
}

submit-IsGoodStep :
    (t : ℕ) (p : Pool) (b : Bool)
    → p.stopped ≡ b
    → IsGoodStep p (if b then p else record p { submitting = p.submitting ++ t ∷ [] }, [])
submit-IsGoodStep t p true e = unmoved p p refl refl refl (λ s. s) (λ s. omega arith)
submit-IsGoodStep t p false e =
    unmoved p (record p { submitting = p.submitting ++ t ∷ [] }) refl refl refl (λ s. s)
      (λ s. absurd (cc (e, s)))

pub step-IsGoodStep : (a : Action) (p : Pool) → OnSome (IsGoodStep p) (step a p)
unfolding step submit_task push_task do_work
step-IsGoodStep (submit t) p = OnSome-some (submit-IsGoodStep t p p.stopped refl)
step-IsGoodStep (push i) p = OnSome-bind (get_elem? p.submitting i) λ t h. OnSome-some (record {
  order = refl;
  idle = λ k. k;
  taken = λ u. omega arith;
  stopped = λ k. k;
  waits = λ k. omega arith;
  begins = omega arith;
  pushes = λ k. omega (arith, length-without p.submitting i t h);
})
step-IsGoodStep (advance i) p =
    OnSome-bind (get_elem? p.threads i) λ w h. advance-IsGoodStep i p w h
step-IsGoodStep stop p =
    OnSome-some
      (unmoved p (record p { stopped = true }) refl refl refl (λ s. refl) (λ s. omega arith))

-- ===== src/Deployer/Pool/Counts.antt =====
-- StragetyDeployer/FixedThreaPool.h: what is counted of the threads and of a run.
use cpp_linux_learn.Common.{
  ℕ, zero, suc, ◌+◌, ◌<◌, ◌≤◌, ◌≡◌, ap, Bool, true, false, some, List, [], ◌∷◌, length, get_elem?,
  set, arith, ◌==◌,
}
use cpp_linux_learn.Deployer.Pool.{
  Worker, at_loop, waiting, returned, holding, counted, working, ended, Seen, pushed, popped, begun,
  finished, without,
}

-- The tasks put into the queue and taken out of it, in order, and the number of begins of one.
abbrev pub all_pushed : List Seen → List ℕ
all_pushed [] = []
all_pushed (pushed t ∷ es) = t ∷ all_pushed es
all_pushed (popped t ∷ es) = all_pushed es
all_pushed (begun t ∷ es) = all_pushed es
all_pushed (finished t ∷ es) = all_pushed es

abbrev pub all_popped : List Seen → List ℕ
all_popped [] = []
all_popped (pushed t ∷ es) = all_popped es
all_popped (popped t ∷ es) = t ∷ all_popped es
all_popped (begun t ∷ es) = all_popped es
all_popped (finished t ∷ es) = all_popped es

abbrev pub all_begun : List Seen → List ℕ
all_begun [] = []
all_begun (pushed t ∷ es) = all_begun es
all_begun (popped t ∷ es) = all_begun es
all_begun (begun t ∷ es) = t ∷ all_begun es
all_begun (finished t ∷ es) = all_begun es

-- How often a task is in a list, and how many threads are in a state.
abbrev pub one_if : Bool → ℕ
one_if true = 1
one_if false = 0

abbrev pub times : ℕ → List ℕ → ℕ
times t [] = 0
times t (u ∷ us) = one_if (u == t) + times t us

abbrev pub count : (Worker → ℕ) → List Worker → ℕ
count f [] = 0
count f (w ∷ ws) = f w + count f ws

-- A thread between `nIdlThredNum--` and `nIdlThredNum++`; one that waits; one that has taken a task which
-- it has not begun, and one that has so taken `t`.
abbrev pub is_counted : Worker → ℕ
is_counted at_loop = 0
is_counted waiting = 0
is_counted returned = 0
is_counted (holding t) = 0
is_counted (counted t) = 1
is_counted (working t) = 1
is_counted (ended t) = 1

abbrev pub is_waiting : Worker → ℕ
is_waiting at_loop = 0
is_waiting waiting = 1
is_waiting returned = 0
is_waiting (holding t) = 0
is_waiting (counted t) = 0
is_waiting (working t) = 0
is_waiting (ended t) = 0

abbrev pub has_taken : Worker → ℕ
has_taken at_loop = 0
has_taken waiting = 0
has_taken returned = 0
has_taken (holding t) = 1
has_taken (counted t) = 1
has_taken (working t) = 0
has_taken (ended t) = 0

abbrev pub has_task : ℕ → Worker → ℕ
has_task t at_loop = 0
has_task t waiting = 0
has_task t returned = 0
has_task t (holding u) = one_if (u == t)
has_task t (counted u) = one_if (u == t)
has_task t (working u) = 0
has_task t (ended u) = 0

pub count-set :
    (f : Worker → ℕ) (ws : List Worker) (i : ℕ) (w v : Worker)
    → get_elem? ws i ≡ some w
    → count f (set ws i v) + f w ≡ count f ws + f v
count-set f [] i w v h = absurd (cc h)
count-set f (x ∷ ws) zero w v h = let same : f x ≡ f w = ap f (cc h) in omega (arith, same)
count-set f (x ∷ ws) (suc i) w v h = omega (arith, count-set f ws i w v h)

is_counted_le : (w : Worker) → is_counted w ≤ 1
is_counted_le at_loop = omega arith
is_counted_le waiting = omega arith
is_counted_le returned = omega arith
is_counted_le (holding t) = omega arith
is_counted_le (counted t) = omega arith
is_counted_le (working t) = omega arith
is_counted_le (ended t) = omega arith

counted_le : (ws : List Worker) → count is_counted ws ≤ length ws
counted_le [] = omega arith
counted_le (w ∷ ws) = omega (arith, is_counted_le w, counted_le ws)

-- A thread that has not counted itself down leaves room for that.
pub counted_lt :
    (ws : List Worker) (i t : ℕ)
    → get_elem? ws i ≡ some (holding t)
    → count is_counted ws < length ws
counted_lt [] i t h = absurd (cc h)
counted_lt (x ∷ ws) zero t h =
    let here : x ≡ holding t = cc h in
    let same : is_counted x ≡ 0 = ap is_counted here in omega (arith, same, counted_le ws)
counted_lt (x ∷ ws) (suc i) t h = omega (arith, is_counted_le x, counted_lt ws i t h)

pub length-without :
    (ts : List ℕ) (i t : ℕ) → get_elem? ts i ≡ some t → length (without i ts) + 1 ≡ length ts
unfolding without
length-without [] i t h = absurd (cc h)
length-without (u ∷ ts) zero t h = omega arith
length-without (u ∷ ts) (suc i) t h = omega (arith, length-without ts i t h)

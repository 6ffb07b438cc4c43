-- ===== src/ThreadPool/Workers.antt =====
-- The tasks of the thread pool of app/util/hao_threadpool.cpp, and a single worker's move.
use hao_server.Base.{
  ℕ, zero, suc, ◌+◌, ◌%◌, ◌^◌, ◌<◌, ◌≡◌, ap, List, [], ◌∷◌, ◌++◌, some, length, length-append,
  count, count-append, arith,
}
use mathlib.Core.Option.{some-injective}
use hao_server.ThreadPool.{Worker, works, ThreadPool, worker_at, set_worker, move_to}

-- The tasks that the workers are in
abbrev pub held_by : Worker → List ℕ
held_by (works t) = t ∷ []
held_by w = []

abbrev pub held : List Worker → List ℕ
held [] = []
held (w ∷ ws) = held_by w ++ held ws

-- The tasks are taken in the order in which they were pushed; each one taken is done or in work, as
-- often as it was taken; and tasks_total counts, modulo 2^64, the tasks that are queued or in work, but
-- for those that PushTask is about to count.
pub record TasksInv (p : ThreadPool) : Type 0 where
  pub ordered : p.started ++ p.tasks ≡ p.pushed
  pub conserved : (t : ℕ) → count t p.started ≡ count t p.done + count t (held p.threads)
  pub counted :
      (p.tasks_total + p.uncounted) % 2 ^ 64 ≡ (length p.tasks + length (held p.threads)) % 2 ^ 64
  pub bounded : p.tasks_total < 2 ^ 64

-- One worker's move
pub count-set_worker :
    (t w : ℕ) (old new : Worker) (ws : List Worker)
    → worker_at ws w ≡ some old
    → count t (held (set_worker w new ws)) + count t (held_by old)
      ≡ count t (held ws) + count t (held_by new)
count-set_worker t w old new [] h = absurd (cc h)
count-set_worker t zero old new (x ∷ xs) h =
    let e : x ≡ old = some-injective _ _ h in
    rw e (
      omega (arith, count-append t (held_by new) (held xs), count-append t (held_by old) (held xs)))
count-set_worker t (suc w) old new (x ∷ xs) h = omega (
  arith,
  count-set_worker t w old new xs h,
  count-append t (held_by x) (held xs),
  count-append t (held_by x) (held (set_worker w new xs)),
)

pub length-set_worker :
    (w : ℕ) (old new : Worker) (ws : List Worker)
    → worker_at ws w ≡ some old
    → length (held (set_worker w new ws)) + length (held_by old)
      ≡ length (held ws) + length (held_by new)
length-set_worker w old new [] h = absurd (cc h)
length-set_worker zero old new (x ∷ xs) h =
    let e : x ≡ old = some-injective _ _ h in
    rw e
      (omega (arith, length-append (held_by new) (held xs), length-append (held_by old) (held xs)))
length-set_worker (suc w) old new (x ∷ xs) h = omega (
  arith,
  length-set_worker w old new xs h,
  length-append (held_by x) (held xs),
  length-append (held_by x) (held (set_worker w new xs)),
)

-- A worker that had no task moves without one.
pub idle-TasksInv :
    {p : ThreadPool} (w : ℕ) (old new : Worker)
    → TasksInv p
    → worker_at p.threads w ≡ some old
    → held_by old ≡ []
    → held_by new ≡ []
    → TasksInv (move_to p w new)
idle-TasksInv {p} w old new v at none_before none_after = record {
  ordered = v.ordered;
  conserved = λ t. omega (
    arith,
    v.conserved t,
    count-set_worker t w old new p.threads at,
    ap (count t) none_before,
    ap (count t) none_after,
  );
  counted = omega (
    arith,
    v.counted,
    length-set_worker w old new p.threads at,
    ap length none_before,
    ap length none_after,
  );
  bounded = v.bounded;
}

-- ===== src/ThreadPool/Tasks.antt =====
-- The tasks of the thread pool of app/util/hao_threadpool.cpp: none is lost, run twice or miscounted.
use hao_server.Base.{
  ℕ, ◌+◌, ◌^◌, ◌<◌, ◌≡◌, refl, ap, subst, true, false, List, [], ◌∷◌, some, ◌==◌, if◌then◌else◌,
  Bool-cases, inl, inr, length, count, count-append, arith,
}
use mathlib.Core.Option.{some-injective}
use hao_server.ThreadPool.{
  ThreadPool, new_pool, wait_begin, wait_end, stop, set_paused, Step, pushing, counting, testing,
  waking, finishing, waiting_begins, waiting_ends, stopping, joining, creating, pausing, Runs, stay,
  onward,
}
use hao_server.ThreadPool.Workers.{held, TasksInv}
use hao_server.ThreadPool.Moves.{
  push_task-TasksInv, count_task-TasksInv, test_running-TasksInv, wake-TasksInv, finish-TasksInv,
}
use hao_server.ThreadPool.Threads.{
  flags-TasksInv, wait_end-TasksInv, join-TasksInv, create_threads-TasksInv,
}

Step-TasksInv : {p q : ThreadPool} → TasksInv p → Step p q → TasksInv q
unfolding wait_begin stop set_paused
Step-TasksInv v (pushing t e) = push_task-TasksInv t v e
Step-TasksInv v (counting e) = count_task-TasksInv v e
Step-TasksInv v (testing w e) = test_running-TasksInv w v e
Step-TasksInv v (waking w e) = wake-TasksInv w v e
Step-TasksInv v (finishing w e) = finish-TasksInv w v e
Step-TasksInv {p} {q} v (waiting_begins e) =
    subst TasksInv (some-injective _ _ e) (flags-TasksInv true p.paused v)
Step-TasksInv {p} {q} v (waiting_ends e) = wait_end-TasksInv v e
Step-TasksInv {p} {q} v (stopping e) = subst TasksInv (some-injective _ _ e) (record {
  ordered = v.ordered;
  conserved = v.conserved;
  counted = v.counted;
  bounded = v.bounded;
})
Step-TasksInv {p} {q} v (joining e) = join-TasksInv v e
Step-TasksInv {p} {q} v (creating h n e) = create_threads-TasksInv h n v e
Step-TasksInv {p} {q} v (pausing b e) =
    subst TasksInv (some-injective _ _ e) (flags-TasksInv p.waiting b v)

new_pool-TasksInv : TasksInv new_pool
unfolding new_pool
new_pool-TasksInv = record {
  ordered = refl;
  conserved = λ t. refl;
  counted = refl;
  bounded = omega arith;
}

-- After any steps of any threads, from a new pool on, the tasks have been taken in the order in which
-- they were pushed, each task taken is done or in work as often as it was taken, and tasks_total counts,
-- modulo 2^64, the tasks queued or in work but for those that PushTask is about to count.
pub Runs-TasksInv : (p : ThreadPool) → Runs new_pool p → TasksInv p
Runs-TasksInv p stay = new_pool-TasksInv
Runs-TasksInv p (onward runs step) = Step-TasksInv (Runs-TasksInv _ runs) step

-- WaitForTasks comes back, in a pool that does not pause, with no call of PushTask under way and fewer
-- than 2^64 tasks in it: then no task is queued or in work, and each task has been done as often as it
-- was pushed.
pub wait_end-AllDone :
    (p q : ThreadPool)
    → Runs new_pool p
    → wait_end p ≡ some q
    → p.paused ≡ false
    → p.uncounted ≡ 0
    → length p.tasks + length (held p.threads) < 2 ^ 64
    → (q.tasks ≡ []) × (held q.threads ≡ []) × ((t : ℕ) → count t q.done ≡ count t q.pushed)
unfolding wait_end
wait_end-AllDone p q runs e active quiet few =
    let v = Runs-TasksInv p runs in
    let (total, is) = ended_wait e in
    let size : length p.tasks + length (held p.threads) ≡ 0 =
      omega (arith, v.counted, total, quiet, few) in
    let queue : p.tasks ≡ [] = empty p.tasks (omega (arith, size)) in
    let work : held p.threads ≡ [] = empty (held p.threads) (omega (arith, size)) in
    subst
      (λ r. (r.tasks ≡ []) × (held r.threads ≡ []) × ((t : ℕ) → count t r.done ≡ count t r.pushed))
      is
      (
        queue,
        work,
        λ t. omega (
          arith,
          v.conserved t,
          count-append t p.started p.tasks,
          ap (count t) v.ordered,
          ap (count t) queue,
          ap (count t) work,
        ),
      )
  where
    empty : (l : List ℕ) → length l ≡ 0 → l ≡ []
    empty [] h = refl
    empty (x ∷ xs) h = absurd (omega (arith, h))

    ended_wait : wait_end p ≡ some q → (p.tasks_total ≡ 0) × (record p { waiting = false } ≡ q)
    ended_wait = elim (Bool-cases (p.tasks_total == (if p.paused then length p.tasks else 0))) [
      | inl over ↦ rw (wait_end, over) (λ e. (ground (arith, over, active), some-injective _ _ e))
      | inr more ↦ rw (wait_end, more) (λ e. absurd (cc e))
    ]

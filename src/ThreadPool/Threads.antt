-- ===== src/ThreadPool/Threads.antt =====
-- WaitForTasks, CreateThreads and DestoryThreads of app/util/hao_threadpool.cpp
use hao_server.Base.{
  ℕ, zero, suc, ◌+◌, ◌%◌, ◌^◌, ◌≡◌, refl, sym, ap, ◌∙◌, subst, Bool, true, false, List, [], ◌∷◌,
  some, ◌==◌, if◌then◌else◌, Bool-cases, inl, inr, length, replicate, count, arith,
}
use mathlib.Core.Option.{some-injective}
use hao_server.ThreadPool.{
  Worker, outside, waits, ended, works, ThreadPool, wait_end, all_ended, join, create_threads,
  determine_thread_count,
}
use hao_server.ThreadPool.Workers.{held, TasksInv}

-- Threads that have ended hold no task, nor do new ones.
held-all_ended : (ws : List Worker) → all_ended ws ≡ true → held ws ≡ []
held-all_ended [] h = refl
held-all_ended (ended ∷ ws) h = held-all_ended ws h
held-all_ended (outside ∷ ws) h = absurd (cc h)
held-all_ended (waits ∷ ws) h = absurd (cc h)
held-all_ended (works t ∷ ws) h = absurd (cc h)

held-replicate : (n : ℕ) → held (replicate n outside) ≡ []
held-replicate zero = refl
held-replicate (suc n) = held-replicate n

-- Other threads, without a task, in place of threads without one
threads-TasksInv :
    {p : ThreadPool} (ws : List Worker) (runs : Bool)
    → TasksInv p
    → held p.threads ≡ []
    → held ws ≡ []
    → TasksInv (record p { threads = ws; running = runs })
threads-TasksInv {p} ws runs v before after = record {
  ordered = v.ordered;
  conserved = λ t. v.conserved t ∙ ap (λ l. count t p.done + count t l) (before ∙ sym after);
  counted = v.counted ∙ ap (λ l. (length p.tasks + length l) % 2 ^ 64) (before ∙ sym after);
  bounded = v.bounded;
}

pub flags-TasksInv :
    {p : ThreadPool} (waits_now stands : Bool)
    → TasksInv p
    → TasksInv (record p { waiting = waits_now; paused = stands })
flags-TasksInv waits_now stands v = record {
  ordered = v.ordered;
  conserved = v.conserved;
  counted = v.counted;
  bounded = v.bounded;
}

pub wait_end-TasksInv : {p q : ThreadPool} → TasksInv p → wait_end p ≡ some q → TasksInv q
unfolding wait_end
wait_end-TasksInv {p} {q} v =
    elim (Bool-cases (p.tasks_total == (if p.paused then length p.tasks else 0))) [
      | inl over ↦
          rw (wait_end, over)
            (λ e. subst TasksInv (some-injective _ _ e) (flags-TasksInv false p.paused v))
      | inr more ↦ rw (wait_end, more) (λ e. absurd (cc e))
    ]

pub join-TasksInv : {p q : ThreadPool} → TasksInv p → join p ≡ some q → TasksInv q
unfolding join
join-TasksInv {p} {q} v = elim (Bool-cases (all_ended p.threads)) [
  | inl over ↦
      rw (join, over)
        (λ e.
          subst TasksInv (some-injective _ _ e)
            (threads-TasksInv [] p.running v (held-all_ended p.threads over) refl))
  | inr more ↦ rw (join, more) (λ e. absurd (cc e))
]

pub create_threads-TasksInv :
    {p q : ThreadPool} (hardware thread_count : ℕ)
    → TasksInv p
    → create_threads hardware thread_count p ≡ some q
    → TasksInv q
unfolding create_threads
create_threads-TasksInv {p} {q} hardware n v = elim (Bool-cases (length p.threads == 0)) [
  | inl empty ↦
      rw (create_threads, empty)
        (λ e. subst TasksInv (some-injective _ _ e) (
          threads-TasksInv _ true v (none_held p.threads (ground (arith, empty)))
            (held-replicate (determine_thread_count hardware n))))
  | inr more ↦ rw (create_threads, more) (λ e. absurd (cc e))
]
  where
    none_held : (ws : List Worker) → length ws ≡ 0 → held ws ≡ []
    none_held [] h = refl
    none_held (w ∷ ws) h = absurd (omega (arith, h))

-- ===== src/ThreadPool/Moves.antt =====
-- PushTask and WorkerThread of app/util/hao_threadpool.cpp and _include/hao_threadpool.h, step by step
use hao_server.Base.{
  ℕ, ◌<◌, ◌≡◌, refl, sym, ap, ◌∙◌, subst, Bool, true, false, ◌&&◌, not, List, [], ◌∷◌, ◌++◌, none,
  some, ◌==◌, if◌then◌else◌, Bool-cases, Option-cases, inl, inr, length, length-append,
  append_assoc, count-append, arith,
}
use mathlib.Core.Option.{some-injective}
use hao_server.ThreadPool.{
  outside, waits, ended, works, ThreadPool, worker_at, move_to, push_task, count_task, test_running,
  woken, wake, finish,
}
use hao_server.ThreadPool.Workers.{
  held_by, TasksInv, count-set_worker, length-set_worker, idle-TasksInv,
}

pub push_task-TasksInv :
    {p q : ThreadPool} (t : ℕ) → TasksInv p → push_task t p ≡ some q → TasksInv q
unfolding push_task
push_task-TasksInv {p} {q} t v e = subst TasksInv (some-injective _ _ e) (record {
  ordered = sym (append_assoc p.started p.tasks (t ∷ [])) ∙ ap (λ l. l ++ t ∷ []) v.ordered;
  conserved = v.conserved;
  counted = omega (arith, v.counted, length-append p.tasks (t ∷ []));
  bounded = v.bounded;
})

pub count_task-TasksInv : {p q : ThreadPool} → TasksInv p → count_task p ≡ some q → TasksInv q
unfolding count_task
count_task-TasksInv {p} {q} v = elim (Bool-cases (p.uncounted == 0)) [
  | inl nothing ↦ rw (count_task, nothing) (λ e. absurd (cc e))
  | inr some_left ↦
      rw (count_task, some_left)
        (λ e.
          let pos : 0 < p.uncounted = ground (arith, some_left) in
          subst TasksInv (some-injective _ _ e) (record {
            ordered = v.ordered;
            conserved = v.conserved;
            counted = omega (arith, v.counted, pos);
            bounded = omega arith;
          }))
]

pub test_running-TasksInv :
    {p q : ThreadPool} (w : ℕ) → TasksInv p → test_running w p ≡ some q → TasksInv q
unfolding test_running
test_running-TasksInv {p} {q} w v = elim (Option-cases (worker_at p.threads w)) [
  | inl nobody ↦ rw (test_running, nobody) (λ e. absurd (cc e))
  | inr (outside, at) ↦
      rw (test_running, at)
        (λ e.
          subst TasksInv (some-injective _ _ e) (
            idle-TasksInv w outside (if p.running then waits else ended) v at refl
              (idle p.running)))
  | inr (waits, at) ↦ rw (test_running, at) (λ e. absurd (cc e))
  | inr (ended, at) ↦ rw (test_running, at) (λ e. absurd (cc e))
  | inr (works t, at) ↦ rw (test_running, at) (λ e. absurd (cc e))
]
  where
    idle : (b : Bool) → held_by (if b then waits else ended) ≡ []
    idle true = refl
    idle false = refl

-- A waiting worker takes the first task.
taken-TasksInv :
    {p : ThreadPool} (w t : ℕ) (rest : List ℕ)
    → TasksInv p
    → worker_at p.threads w ≡ some waits
    → p.tasks ≡ t ∷ rest
    → TasksInv (record (move_to p w (works t)) { tasks = rest; started = p.started ++ t ∷ [] })
taken-TasksInv {p} w t rest v at is = record {
  ordered = append_assoc p.started (t ∷ []) rest ∙ ap (λ l. p.started ++ l) (sym is) ∙ v.ordered;
  conserved = λ x. omega (
    arith,
    v.conserved x,
    count-set_worker x w waits (works t) p.threads at,
    count-append x p.started (t ∷ []),
  );
  counted =
      omega (arith, v.counted, length-set_worker w waits (works t) p.threads at, ap length is);
  bounded = v.bounded;
}

woken-TasksInv :
    {p q : ThreadPool} (w : ℕ) (tasks : List ℕ)
    → p.tasks ≡ tasks
    → TasksInv p
    → worker_at p.threads w ≡ some waits
    → woken w p ≡ some q
    → TasksInv q
unfolding woken
woken-TasksInv {p} {q} w [] is v at = rw (woken, is) (unless_running p.running)
  where
    unless_running :
        (b : Bool) → (if b then none else some (move_to p w outside)) ≡ some q → TasksInv q
    unless_running true e = absurd (cc e)
    unless_running false e =
        subst TasksInv (some-injective _ _ e) (idle-TasksInv w waits outside v at refl refl)
woken-TasksInv {p} {q} w (t ∷ rest) is v at = elim (Bool-cases (p.running && not p.paused)) [
  | inl takes ↦
      rw (woken, is, takes)
        (λ e. subst TasksInv (some-injective _ _ e) (taken-TasksInv w t rest v at is))
  | inr passes ↦
      rw (woken, is, passes)
        (λ e. subst TasksInv (some-injective _ _ e) (idle-TasksInv w waits outside v at refl refl))
]

pub wake-TasksInv : {p q : ThreadPool} (w : ℕ) → TasksInv p → wake w p ≡ some q → TasksInv q
unfolding wake
wake-TasksInv {p} {q} w v = elim (Option-cases (worker_at p.threads w)) [
  | inl nobody ↦ rw (wake, nobody) (λ e. absurd (cc e))
  | inr (outside, at) ↦ rw (wake, at) (λ e. absurd (cc e))
  | inr (waits, at) ↦ rw (wake, at) (λ e. woken-TasksInv w p.tasks refl v at e)
  | inr (ended, at) ↦ rw (wake, at) (λ e. absurd (cc e))
  | inr (works t, at) ↦ rw (wake, at) (λ e. absurd (cc e))
]

pub finish-TasksInv : {p q : ThreadPool} (w : ℕ) → TasksInv p → finish w p ≡ some q → TasksInv q
unfolding finish
finish-TasksInv {p} {q} w v = elim (Option-cases (worker_at p.threads w)) [
  | inl nobody ↦ rw (finish, nobody) (λ e. absurd (cc e))
  | inr (outside, at) ↦ rw (finish, at) (λ e. absurd (cc e))
  | inr (waits, at) ↦ rw (finish, at) (λ e. absurd (cc e))
  | inr (ended, at) ↦ rw (finish, at) (λ e. absurd (cc e))
  | inr (works t, at) ↦
      rw (finish, at)
        (λ e. subst TasksInv (some-injective _ _ e) (record {
          ordered = v.ordered;
          conserved = λ x. omega (
            arith,
            v.conserved x,
            count-set_worker x w (works t) outside p.threads at,
            count-append x p.done (t ∷ []),
          );
          counted = omega (arith, v.counted, length-set_worker w (works t) outside p.threads at);
          bounded = omega arith;
        }))
]

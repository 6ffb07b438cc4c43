-- ===== src/Tests/ThreadPool.antt =====
-- A pool of two threads, the first of which runs the task 7.
use hao_server.Base.{ℕ, ◌≡◌, refl, true, false, [], ◌∷◌, arith, count}
use hao_server.ThreadPool.{
  outside, waits, works, ThreadPool, new_pool, push_task, count_task, test_running, woken, wake,
  finish, wait_begin, wait_end, create_threads, determine_thread_count, pushing, counting, testing,
  waking, finishing, waiting_begins, creating, Runs, stay, onward,
}
use hao_server.ThreadPool.Workers.{TasksInv, held}
use hao_server.ThreadPool.Tasks.{Runs-TasksInv, wait_end-AllDone}

abbrev idle_pool : ThreadPool
idle_pool = record {
  tasks = [];
  tasks_total = 0;
  waiting = false;
  running = true;
  paused = false;
  threads = outside ∷ outside ∷ [];
  uncounted = 0;
  pushed = [];
  started = [];
  done = [];
}

abbrev pushed_one : ThreadPool
pushed_one = record idle_pool { tasks = 7 ∷ []; tasks_total = 1; pushed = 7 ∷ [] }

abbrev busy : ThreadPool
busy = record pushed_one { tasks = []; threads = works 7 ∷ outside ∷ []; started = 7 ∷ [] }

abbrev awaited : ThreadPool
awaited = record busy {
  tasks_total = 0;
  waiting = true;
  threads = outside ∷ outside ∷ [];
  done = 7 ∷ [];
}

to_pushed : Runs new_pool pushed_one
unfolding new_pool create_threads determine_thread_count push_task count_task
to_pushed =
    onward {q = record idle_pool { tasks = 7 ∷ []; uncounted = 1; pushed = 7 ∷ [] }}
      (onward {q = idle_pool} (onward stay (creating 4 2 refl)) (pushing 7 refl)) (counting refl)

to_busy : Runs new_pool busy
unfolding test_running wake woken
to_busy =
    onward {q = record pushed_one { threads = waits ∷ outside ∷ [] }}
      (onward to_pushed (testing 0 refl)) (waking 0 refl)

to_awaited : Runs new_pool awaited
unfolding finish wait_begin
to_awaited =
    onward {q = record busy { waiting = true }} (onward to_busy (waiting_begins refl))
      (finishing 0 refl)

Runs-TasksInv_example : TasksInv busy
Runs-TasksInv_example = Runs-TasksInv busy to_busy

wait_end-AllDone_example :
    let q = record awaited { waiting = false } in
    (q.tasks ≡ []) × (held q.threads ≡ []) × ((t : ℕ) → count t q.done ≡ count t q.pushed)
unfolding wait_end
wait_end-AllDone_example =
    wait_end-AllDone awaited (record awaited { waiting = false }) to_awaited refl refl refl
      (omega arith)

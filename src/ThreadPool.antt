-- ===== src/ThreadPool.antt =====
-- _include/hao_threadpool.h and app/util/hao_threadpool.cpp: the thread pool. A stretch under the
-- mutex is one step, as is each access to an atomic outside of it, and a run is any sequence of steps
-- of the threads. A task is named by a number. What a task does, and its promise, are left out.
pub mod Workers
pub mod Moves
pub mod Threads
pub mod Tasks
use hao_server.Base.{
  ℕ, zero, suc, ◌+◌, ◌-◌, ◌%◌, ◌^◌, ◌≡◌, Bool, true, false, ◌&&◌, not, List, [], ◌∷◌, ◌++◌, Option,
  none, some, ltb, ◌==◌, if◌then◌else◌, length, replicate,
}

-- Where a worker stands in WorkerThread: in front of the test of running_, in the wait for
-- task_available_cv_, in a task, or behind the loop.
pub data Worker : Type 0 where
  outside waits ended : Worker
  works : ℕ → Worker

pub record ThreadPool : Type 0 where
  pub tasks : List ℕ
  pub tasks_total : ℕ
  pub waiting : Bool
  pub running : Bool
  pub paused : Bool
  pub threads : List Worker
  -- the calls of PushTask that have put their task into the queue and not counted it yet
  pub uncounted : ℕ
  -- the tasks that were pushed, that a worker took, and that are done, oldest first
  pub pushed : List ℕ
  pub started : List ℕ
  pub done : List ℕ

-- ThreadPool::ThreadPool
unfoldable pub new_pool : ThreadPool
new_pool = record {
  tasks = [];
  tasks_total = 0;
  waiting = false;
  running = false;
  paused = false;
  threads = [];
  uncounted = 0;
  pushed = [];
  started = [];
  done = [];
}

abbrev pub worker_at : List Worker → ℕ → Option Worker
worker_at [] w = none
worker_at (x ∷ xs) zero = some x
worker_at (x ∷ xs) (suc w) = worker_at xs w

abbrev pub set_worker : ℕ → Worker → List Worker → List Worker
set_worker w y [] = []
set_worker zero y (x ∷ xs) = y ∷ xs
set_worker (suc w) y (x ∷ xs) = x ∷ set_worker w y xs

abbrev pub move_to : ThreadPool → ℕ → Worker → ThreadPool
move_to p w y = record p { threads = set_worker w y p.threads }

-- PushTask: the task is put into the queue, and then counted.
unfoldable pub push_task : ℕ → ThreadPool → Option ThreadPool
push_task t p = some (record p {
  tasks = p.tasks ++ t ∷ [];
  uncounted = p.uncounted + 1;
  pushed = p.pushed ++ t ∷ [];
})

unfoldable pub count_task : ThreadPool → Option ThreadPool
count_task p =
    if p.uncounted == 0
    then none
    else some (record p { uncounted = p.uncounted - 1; tasks_total = (p.tasks_total + 1) % 2 ^ 64 })

-- WorkerThread: the test of running_
unfoldable pub test_running : ℕ → ThreadPool → Option ThreadPool
test_running w p = elim (worker_at p.threads w) [
  | some outside ↦ some (move_to p w (if p.running then waits else ended))
  | other ↦ none
]

-- The wait is over, with the mutex: a task is taken, or the loop goes on without one.
unfoldable pub woken : ℕ → ThreadPool → Option ThreadPool
woken w p = elim p.tasks [
  | [] ↦ if p.running then none else some (move_to p w outside)
  | t ∷ rest ↦ some (
      if p.running && not p.paused
      then record (move_to p w (works t)) { tasks = rest; started = p.started ++ t ∷ [] }
      else move_to p w outside)
]

unfoldable pub wake : ℕ → ThreadPool → Option ThreadPool
wake w p = elim (worker_at p.threads w) [ some waits ↦ woken w p | other ↦ none ]

-- The task returns, and is no longer counted.
unfoldable pub finish : ℕ → ThreadPool → Option ThreadPool
finish w p = elim (worker_at p.threads w) [
  | some (works t) ↦ some (record (move_to p w outside) {
    tasks_total = (p.tasks_total + (2 ^ 64 - 1)) % 2 ^ 64;
    done = p.done ++ t ∷ [];
  })
  | other ↦ none
]

-- WaitForTasks, up to the wait and from its end
unfoldable pub wait_begin : ThreadPool → Option ThreadPool
wait_begin p = some (record p { waiting = true })

unfoldable pub wait_end : ThreadPool → Option ThreadPool
wait_end p =
    if p.tasks_total == (if p.paused then length p.tasks else 0)
    then some (record p { waiting = false })
    else none

-- DestoryThreads: running_ is cleared, and the threads are joined once they have ended.
unfoldable pub stop : ThreadPool → Option ThreadPool
stop p = some (record p { running = false })

abbrev pub has_ended : Worker → Bool
has_ended ended = true
has_ended w = false

abbrev pub all_ended : List Worker → Bool
all_ended [] = true
all_ended (w ∷ ws) = has_ended w && all_ended ws

unfoldable pub join : ThreadPool → Option ThreadPool
join p = if all_ended p.threads then some (record p { threads = [] }) else none

-- DetermineThreadCount, with what hardware_concurrency answers
unfoldable pub determine_thread_count : ℕ → ℕ → ℕ
determine_thread_count hardware thread_count =
    if ltb 0 thread_count then thread_count else if ltb 0 hardware then hardware else 1

-- CreateThreads; threads that were not joined are the end of the program.
unfoldable pub create_threads : ℕ → ℕ → ThreadPool → Option ThreadPool
create_threads hardware thread_count p =
    if length p.threads == 0
    then some (record p {
      threads = replicate (determine_thread_count hardware thread_count) outside;
      running = true;
    })
    else none

-- The assignments of Reset
unfoldable pub set_paused : Bool → ThreadPool → Option ThreadPool
set_paused b p = some (record p { paused = b })

pub data Step (p q : ThreadPool) : Type 0 where
  pushing : (t : ℕ) → push_task t p ≡ some q → Step p q
  counting : count_task p ≡ some q → Step p q
  testing : (w : ℕ) → test_running w p ≡ some q → Step p q
  waking : (w : ℕ) → wake w p ≡ some q → Step p q
  finishing : (w : ℕ) → finish w p ≡ some q → Step p q
  waiting_begins : wait_begin p ≡ some q → Step p q
  waiting_ends : wait_end p ≡ some q → Step p q
  stopping : stop p ≡ some q → Step p q
  joining : join p ≡ some q → Step p q
  creating :
      (hardware thread_count : ℕ) → create_threads hardware thread_count p ≡ some q → Step p q
  pausing : (b : Bool) → set_paused b p ≡ some q → Step p q

pub data Runs (p : ThreadPool) : ThreadPool → Type 0 where
  stay : Runs p p
  onward : {q r : ThreadPool} → Runs p q → Step q r → Runs p r

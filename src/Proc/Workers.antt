-- ===== src/Proc/Workers.antt =====
-- StartWorkerProcess, MakeChildProcess and WorkerProcessCycle of app/proc/hao_server.cpp: which worker
-- processes there are. A process is named by the process ids of the forks that led to it, the last one
-- first; the master's name is empty. Whether a fork fails, and whether the epoll loop of a worker comes
-- back, are arguments.
use hao_server.Base.{
  ℕ, zero, suc, ◌+◌, ◌*◌, ◌^◌, ◌≡◌, refl, Bool, true, false, List, [], ◌∷◌, ◌++◌, if◌then◌else◌,
  length, length-append, arith,
}

module _ (fork_fails : List ℕ → ℕ → Bool) (comes_back : List ℕ → Bool) where
  -- MakeChildProcess: the names of the workers, where `rest` is what a process goes on with
  unfoldable pub make_child_process : List ℕ → ℕ → (List ℕ → List (List ℕ)) → List (List ℕ)
  make_child_process process i rest =
      let in_parent = rest process in
      let worker = i ∷ process in
      let in_child = if comes_back worker then rest worker else [] in
      if fork_fails process i then in_parent else worker ∷ (in_child ++ in_parent)

  -- The loop of StartWorkerProcess, from the process id `i` on
  unfoldable pub start_from : ℕ → ℕ → List ℕ → List (List ℕ)
  start_from i zero process = []
  start_from i (suc k) process = make_child_process process i (start_from (suc i) k)

  unfoldable pub start_worker_process : ℕ → List (List ℕ)
  start_worker_process num_processes = start_from 0 num_processes []

  one_each :
      (i k : ℕ) (process : List ℕ)
      → ((p : List ℕ) (j : ℕ) → fork_fails p j ≡ false)
      → ((p : List ℕ) → comes_back p ≡ false)
      → length (start_from i k process) ≡ k
  unfolding start_from make_child_process
  one_each i zero process forks stays = refl
  one_each i (suc k) process forks stays =
      rw (forks process i, stays (i ∷ process))
        (omega (arith, one_each (suc i) k process forks stays))

  doubling :
      (i k : ℕ) (process : List ℕ)
      → ((p : List ℕ) (j : ℕ) → fork_fails p j ≡ false)
      → ((p : List ℕ) → comes_back p ≡ true)
      → length (start_from i k process) + 1 ≡ 2 ^ k
  unfolding start_from make_child_process
  doubling i zero process forks back = refl
  doubling i (suc k) process forks back =
      let twice : 2 ^ suc k ≡ 2 * 2 ^ k = omega arith in
      rw (forks process i, back (i ∷ process), twice)
        (omega (
          arith,
          doubling (suc i) k (i ∷ process) forks back,
          doubling (suc i) k process forks back,
          length-append (start_from (suc i) k (i ∷ process)) (start_from (suc i) k process),
        ))

-- No fork fails. If no worker's epoll loop comes back there are as many workers as were asked for.
-- If every one comes back there are 2^n - 1, since a worker then goes on with the loop of its parent.
pub start_worker_process_lem :
    (n : ℕ) (fork_fails : List ℕ → ℕ → Bool) (comes_back : List ℕ → Bool)
    → ((p : List ℕ) (j : ℕ) → fork_fails p j ≡ false)
    → let workers = length (start_worker_process fork_fails comes_back n) in
      (((p : List ℕ) → comes_back p ≡ false) → workers ≡ n)
      × (((p : List ℕ) → comes_back p ≡ true) → workers + 1 ≡ 2 ^ n)
unfolding start_worker_process
start_worker_process_lem n fork_fails comes_back forks =
    (one_each fork_fails comes_back 0 n [] forks, doubling fork_fails comes_back 0 n [] forks)

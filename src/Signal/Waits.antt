-- ===== src/Signal/Waits.antt =====
-- How the handler of app/signal/hao_signal.cpp waits for the children of the master.
use hao_server.Base.{
  ℕ, ◌≡◌, ◌≢◌, refl, ap, Bool, true, false, ◌||◌, List, [], ◌∷◌, ◌++◌, Option, none, some, arith,
  ◌==◌,
}
use hao_server.Signal.{
  Note, received, WaitAnswer, nothing, failed, child, Process, ProcessType, changed, master, worker,
  sigchld, signals, name_of, exit_note, status_loop, process_get_status, signal_handler,
}

-- None of the answers is 0.
abbrev pub NoNothing : List WaitAnswer → Type 0
NoNothing [] = Unit
NoNothing (nothing ∷ rest) = ⊥
NoNothing (failed errno ∷ rest) = NoNothing rest
NoNothing (child pid status ∷ rest) = NoNothing rest

abbrev pub is_master : ProcessType → Bool
is_master master = true
is_master worker = false

-- The master marks that a child has changed.
abbrev pub noted : Process → Process
noted p = record p { worker_status_changed = is_master p.process_type || p.worker_status_changed }

marked_child : (type : ProcessType) (b : Bool) → changed type sigchld b ≡ (is_master type || b)
marked_child master b = refl
marked_child worker b = refl

marked_other :
    (type : ProcessType) (signo : ℕ) (b : Bool)
    → (signo == sigchld) ≡ false
    → changed type signo b ≡ b
marked_other master signo b e = rw e refl
marked_other worker signo b e = refl

module _ (wtermsig wexitstatus : ℕ → ℕ) where
  -- What is said of the children among the answers
  abbrev pub exit_notes : List WaitAnswer → List Note
  exit_notes [] = []
  exit_notes (nothing ∷ rest) = exit_notes rest
  exit_notes (failed errno ∷ rest) = exit_notes rest
  exit_notes (child pid status ∷ rest) = exit_note wtermsig wexitstatus pid status ∷ exit_notes rest

  goes_on :
      (one : Bool) (front : List WaitAnswer)
      → NoNothing front
      → status_loop wtermsig wexitstatus one front ≡ none
  unfolding status_loop
  goes_on one [] h = refl
  goes_on one (failed errno ∷ front) h = goes_on one front h
  goes_on one (nothing ∷ front) h = absurd h
  goes_on one (child pid status ∷ front) h = rw (goes_on true front h) refl

  stops :
      (one : Bool) (front back : List WaitAnswer)
      → NoNothing front
      → status_loop wtermsig wexitstatus one (front ++ nothing ∷ back) ≡ some (exit_notes front)
  unfolding status_loop
  stops one [] back h = refl
  stops one (failed errno ∷ front) back h = stops one front back h
  stops one (nothing ∷ front) back h = absurd h
  stops one (child pid status ∷ front) back h = rw (stops true front back h) refl

  -- For SIGCHLD the handler comes back at the first answer 0 of waitpid, and has then logged each child
  -- that was answered; failures, also that there is no child, only make it call again, and as long as
  -- 0 is not answered it does not come back. The master is marked, a worker is not. For any other
  -- signal it comes back without a change.
  pub signal_handler_lem :
      (front back : List WaitAnswer) (sender : Option ℕ) (p : Process)
      → NoNothing front
      → let run = signal_handler wtermsig wexitstatus in
        let note = λ (signo : ℕ). received signo (name_of signo signals) sender in
        (run sigchld sender front p ≡ none)
        × (run sigchld sender (front ++ nothing ∷ back) p
            ≡ some (noted p, note sigchld ∷ exit_notes front))
        × ((signo : ℕ) → signo ≢ sigchld → run signo sender front p ≡ some (p, note signo ∷ []))
  unfolding signal_handler process_get_status
  signal_handler_lem front back sender p h = (
    rw (goes_on false front h) refl,
    rw (stops false front back h) (
        ap
          (λ b. some (
            record p { worker_status_changed = b },
            received sigchld (name_of sigchld signals) sender ∷ exit_notes front,
          ))
          (marked_child p.process_type p.worker_status_changed)),
    λ signo other.
        let e : (signo == sigchld) ≡ false = ground (arith, other) in
        rw e (
          ap
            (λ b. some (
              record p { worker_status_changed = b },
              received signo (name_of signo signals) sender ∷ [],
            ))
            (marked_other p.process_type signo p.worker_status_changed e)),
  )

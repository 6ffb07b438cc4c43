-- ===== src/Tests/Signal.antt =====
-- The master is told of a child that ended with code 2, and then that it has no other.
use hao_server.Base.{ℕ, ◌%◌, ◌/◌, ◌≡◌, ◌≢◌, false, List, [], ◌∷◌, ◌++◌, some, none}
use hao_server.Signal.{
  WaitAnswer, nothing, failed, child, received, echild, Process, master, sigchld, signals, name_of,
  signal_handler,
}
use hao_server.Signal.Waits.{noted, exit_notes, signal_handler_lem}

-- The macros of sys/wait.h
abbrev term_sig : ℕ → ℕ
term_sig status = status % 128

abbrev exit_status : ℕ → ℕ
exit_status status = status / 256 % 256

abbrev ended_one : List WaitAnswer
ended_one = child 7 512 ∷ failed echild ∷ []

abbrev quiet_master : Process
quiet_master = record { process_type = master; worker_status_changed = false }

signal_handler_lem_example :
    let run = signal_handler term_sig exit_status in
    let note = λ (signo : ℕ). received signo (name_of signo signals) (some 7) in
    (run sigchld (some 7) ended_one quiet_master ≡ none)
    × (run sigchld (some 7) (ended_one ++ nothing ∷ []) quiet_master
        ≡ some (noted quiet_master, note sigchld ∷ exit_notes term_sig exit_status ended_one))
    × ((signo : ℕ)
        → signo ≢ sigchld
        → run signo (some 7) ended_one quiet_master ≡ some (quiet_master, note signo ∷ []))
signal_handler_lem_example =
    signal_handler_lem term_sig exit_status ended_one [] (some 7) quiet_master tt

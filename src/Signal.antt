-- ===== src/Signal.antt =====
-- app/signal/hao_signal.cpp: the table of signals, their installation and the handler. What sigaction
-- and waitpid answer are arguments, and WTERMSIG and WEXITSTATUS of sys/wait.h are functions that are
-- arguments as well. Text is bytes.
pub mod Waits
use hao_server.Base.{
  ℕ, Bool, true, false, ◌&&◌, not, List, [], ◌∷◌, Option, none, some, ◌>>=◌, ◌==◌, if◌then◌else◌,
}

-- The numbers of signal.h and errno.h
abbrev pub sighup : ℕ
sighup = 1

abbrev pub sigint : ℕ
sigint = 2

abbrev pub sigterm : ℕ
sigterm = 15

abbrev pub sigchld : ℕ
sigchld = 17

abbrev pub sigquit : ℕ
sigquit = 3

abbrev pub sigio : ℕ
sigio = 29

abbrev pub sigsys : ℕ
sigsys = 31

abbrev pub eintr : ℕ
eintr = 4

abbrev pub echild : ℕ
echild = 10

-- Signal; `has_handler` says whether the handler is signal_handler, and not null.
pub record Signal : Type 0 where
  pub signo : ℕ
  pub signame : Option (List ℕ)
  pub has_handler : Bool

abbrev pub signals : List Signal
signals =
    record {
      signo = sighup;
      signame = some (b'S' ∷ b'I' ∷ b'G' ∷ b'H' ∷ b'U' ∷ b'P' ∷ []);
      has_handler = true;
    }
    ∷ record {
      signo = sigint;
      signame = some (b'S' ∷ b'I' ∷ b'G' ∷ b'I' ∷ b'N' ∷ b'T' ∷ []);
      has_handler = true;
    }
    ∷ record {
      signo = sigterm;
      signame = some (b'S' ∷ b'I' ∷ b'G' ∷ b'T' ∷ b'E' ∷ b'R' ∷ b'M' ∷ []);
      has_handler = true;
    }
    ∷ record {
      signo = sigchld;
      signame = some (b'S' ∷ b'I' ∷ b'G' ∷ b'C' ∷ b'H' ∷ b'L' ∷ b'D' ∷ []);
      has_handler = true;
    }
    ∷ record {
      signo = sigquit;
      signame = some (b'S' ∷ b'I' ∷ b'G' ∷ b'Q' ∷ b'U' ∷ b'I' ∷ b'T' ∷ []);
      has_handler = true;
    }
    ∷ record {
      signo = sigio;
      signame = some (b'S' ∷ b'I' ∷ b'G' ∷ b'I' ∷ b'O' ∷ []);
      has_handler = true;
    }
    ∷ record {
      signo = sigsys;
      signame = some (
          b'S' ∷ b'I' ∷ b'G' ∷ b'S' ∷ b'Y' ∷ b'S' ∷ b',' ∷ b' ' ∷ b'S' ∷ b'I' ∷ b'G' ∷ b'_' ∷ b'I'
          ∷ b'G' ∷ b'N' ∷ []);
      has_handler = false;
    }
    ∷ record { signo = 0; signame = none; has_handler = false }
    ∷ []

-- What becomes of a signal
pub data Action : Type 0 where
  handled ignored : Action

-- The loop of init_signals over the table. The answers of sigaction are by signal; the result has the
-- actions that were set, oldest first.
unfoldable pub install : (ℕ → Bool) → List Signal → Bool × List (ℕ × Action)
install sigaction [] = (true, [])
install sigaction (s ∷ rest) =
    let more = install sigaction rest in
    let action = if s.has_handler then handled else ignored in
    if not (s.signo == 0)
    then (if sigaction s.signo then (more.0, (s.signo, action) ∷ more.1) else (false, []))
    else more

unfoldable pub init_signals : (ℕ → Bool) → Bool × List (ℕ × Action)
init_signals sigaction = install sigaction signals

pub data ProcessType : Type 0 where
  master worker : ProcessType

-- What the handler changes
pub record Process : Type 0 where
  pub process_type : ProcessType
  pub worker_status_changed : Bool

-- What is logged
pub data Note : Type 0 where
  received : ℕ → Option (List ℕ) → Option ℕ → Note
  exited_on_signal : ℕ → ℕ → Note
  exited_with_code : ℕ → ℕ → Note
  wait_failed : Note

-- The results of waitpid: 0, -1 with errno, and a child with its status
pub data WaitAnswer : Type 0 where
  nothing : WaitAnswer
  failed : ℕ → WaitAnswer
  child : ℕ → ℕ → WaitAnswer

-- The name that is found in the table; at its end the null pointer
unfoldable pub name_of : ℕ → List Signal → Option (List ℕ)
name_of signo [] = none
name_of signo (s ∷ rest) =
    let more = name_of signo rest in
    if s.signo == 0 then s.signame else if s.signo == signo then s.signame else more

-- What worker_status_changed becomes
abbrev pub changed : ProcessType → ℕ → Bool → Bool
changed master signo before = if signo == sigchld then true else before
changed worker signo before = before

abbrev pub marked : ℕ → Process → Process
marked signo p = record p {
  worker_status_changed = changed p.process_type signo p.worker_status_changed;
}

module _ (wtermsig wexitstatus : ℕ → ℕ) where
  unfoldable pub exit_note : ℕ → ℕ → Note
  exit_note pid status =
      if not (wtermsig status == 0)
      then exited_on_signal pid (wtermsig status)
      else exited_with_code pid (wexitstatus status)

  -- The loop of process_get_status. Behind a failure `err = EINTR` is an assignment. The end of the
  -- answers stands for a loop that goes on.
  unfoldable pub status_loop : Bool → List WaitAnswer → Option (List Note)
  status_loop one [] = none
  status_loop one (nothing ∷ rest) = some []
  status_loop one (failed errno ∷ rest) =
      let err = eintr in
      let again = status_loop one rest in
      if not (err == 0)
      then again
      else if (err == echild) && one
      then some []
      else some (wait_failed ∷ [])
  status_loop one (child pid status ∷ rest) =
      status_loop true rest >>= λ notes. some (exit_note pid status ∷ notes)

  unfoldable pub process_get_status : List WaitAnswer → Option (List Note)
  process_get_status answers = status_loop false answers

  -- signal_handler; the sender is si_pid if there is one.
  unfoldable pub signal_handler :
      ℕ → Option ℕ → List WaitAnswer → Process → Option (Process × List Note)
  signal_handler signo sender answers p =
      let note = received signo (name_of signo signals) sender in
      if signo == sigchld
      then (process_get_status answers >>= λ notes. some (marked signo p, note ∷ notes))
      else some (marked signo p, note ∷ [])

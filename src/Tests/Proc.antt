-- ===== src/Tests/Proc.antt =====
-- A process that was started as `a` with the variable B=1, two workers, and a daemon that gets 5 for
-- /dev/null.
use hao_server.Base.{
  ℕ, ◌+◌, ◌^◌, ◌<◌, ◌≤◌, ◌≡◌, refl, subst, Bool, true, false, List, [], ◌∷◌, Option, none, some,
  ◌>>=◌, length, map, arith, ◌==◌, if◌then◌else◌,
}
use mathlib.Core.Option.{some-injective}
use hao_server.Proc.{Memory, in_area, text_of, text_at, save_environ, set_process_name}
use hao_server.Proc.Environ.{renamed}
use hao_server.Proc.Workers.{start_worker_process, start_worker_process_lem}
use hao_server.Proc.Daemon.{
  Process, Answers, File, dev_null, other_file, in_child, make_daemon, new_session, leave_session,
  redirect, set_file, dup2,
}
use hao_server.Proc.Daemon.Detached.{Detached, make_daemon-Detached}

abbrev variable : List ℕ
variable = b'B' ∷ b'=' ∷ b'1' ∷ []

abbrev started : Memory
started = record {
  area = b'a' ∷ 0 ∷ b'B' ∷ b'=' ∷ b'1' ∷ 0 ∷ [];
  block = [];
  environ = in_area 2 ∷ [];
  argv_space = 0;
  env_space = 0;
}

abbrev new_name : List ℕ
new_name = b'h' ∷ b'a' ∷ b'o' ∷ []

renamed_example :
    (t : Memory) × ((save_environ (in_area 0 ∷ []) started >>= λ saved.
    set_process_name new_name saved)
      ≡ some t)
    × (map (text_at t) t.environ ≡ map some (variable ∷ []))
    × (length t.area ≡ 6)
    × (length new_name < 6 → text_at t (in_area 0) ≡ some new_name)
    × (6 ≤ length new_name → text_at t (in_area 0) ≡ none)
unfolding text_of
renamed_example =
    renamed started (in_area 0 ∷ []) ((b'a' ∷ []) ∷ []) (variable ∷ []) new_name (refl, tt)
      (refl, tt) refl
      ((λ e. omega (arith, e)), ((λ e. omega (arith, e)), ((λ e. omega (arith, e)), tt)))

start_worker_process_lem_example :
    let workers = length (start_worker_process (λ p j. false) (λ p. true) 2) in
    (((p : List ℕ) → ◌≡◌ {A = Bool} true false) → workers ≡ 2)
    × (((p : List ℕ) → ◌≡◌ {A = Bool} true true) → workers + 1 ≡ 2 ^ 2)
start_worker_process_lem_example =
    start_worker_process_lem 2 (λ p j. false) (λ p. true) (λ p j. refl)

abbrev all_well : Answers
all_well = record {
  getrlimit_ok = true;
  first_fork = in_child;
  setsid_ok = true;
  sigaction_ok = true;
  second_fork = in_child;
  chdir_ok = true;
  opened = some 5;
  dup_in_ok = true;
  dup_out_ok = true;
  close_ok = true;
}

abbrev terminal_files : ℕ → Option File
terminal_files j = if 2 == j then some (other_file 0) else none

abbrev from_shell : Process
from_shell = record {
  umask = 18;
  is_session_leader = false;
  has_terminal = true;
  ignores_hup = false;
  at_root = false;
  files = terminal_files;
}

abbrev detached : Process
detached =
    let away = record from_shell {
      umask = 0;
      has_terminal = false;
      ignores_hup = true;
      at_root = true;
    } in
    set_file 5 none (dup2 5 1 (dup2 5 0 (set_file 5 (some dev_null) away)))

make_daemon-Detached_example : Detached from_shell detached
unfolding make_daemon new_session leave_session redirect
make_daemon-Detached_example =
    make_daemon-Detached all_well from_shell detached
      (λ fd is. subst (λ k. terminal_files k ≡ none) (some-injective _ _ is) refl) refl

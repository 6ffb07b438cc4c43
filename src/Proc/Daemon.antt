-- ===== src/Proc/Daemon.antt =====
-- app/proc/hao_daemon.cpp: how the process becomes a daemon. The answers of the system calls are
-- arguments; what the calls do to the process is their documented behaviour.
pub mod Detached
use hao_server.Base.{
  ℕ, ◌≡◌, ◌≢◌, ◌<◌, refl, sym, ap, subst, ◌∙◌, Bool, true, false, Option, none, some, ◌==◌, ltb,
  if◌then◌else◌, Bool-cases, Option-cases, inl, inr, arith, eq_cases,
}

pub data File : Type 0 where
  dev_null : File
  other_file : ℕ → File

-- What the calls change
pub record Process : Type 0 where
  pub umask : ℕ
  pub is_session_leader : Bool
  pub has_terminal : Bool
  pub ignores_hup : Bool
  pub at_root : Bool
  pub files : ℕ → Option File

-- The result of fork
pub data Fork : Type 0 where
  fork_failed in_child in_parent : Fork

pub record Answers : Type 0 where
  pub getrlimit_ok : Bool
  pub first_fork : Fork
  pub setsid_ok : Bool
  pub sigaction_ok : Bool
  pub second_fork : Fork
  pub chdir_ok : Bool
  pub opened : Option ℕ
  pub dup_in_ok : Bool
  pub dup_out_ok : Bool
  pub close_ok : Bool

-- -1, 0, and the end of the process by _exit
pub data Outcome : Type 0 where
  minus_one : Process → Outcome
  done : Process → Outcome
  left_process : Outcome

abbrev pub set_file : ℕ → Option File → Process → Process
set_file fd file p = record p { files = λ j. if fd == j then file else p.files j }

-- dup2(from, to)
abbrev pub dup2 : ℕ → ℕ → Process → Process
dup2 from to p = set_file to (p.files from) p

-- The end of MakeDaemon, with the descriptor of /dev/null
unfoldable pub redirect : Answers → Process → Outcome
redirect a p = elim a.opened [
  | none ↦ minus_one p
  | some fd ↦
      let null = set_file fd (some dev_null) p in
      let input = dup2 fd 0 null in
      let output = dup2 fd 1 input in
      if a.dup_in_ok
      then (if a.dup_out_ok
          then (if ltb 2 fd
              then (if a.close_ok then done (set_file fd none output) else minus_one output)
              else done output)
          else minus_one input)
      else minus_one null
]

-- From the second fork on
unfoldable pub leave_session : Answers → Process → Outcome
leave_session a p = elim a.second_fork [
  | fork_failed ↦ minus_one p
  | in_parent ↦ left_process
  | in_child ↦
      let child = record p { is_session_leader = false } in
      if a.chdir_ok then redirect a (record child { at_root = true }) else minus_one child
]

-- From setsid on. A sigaction that fails is only logged.
unfoldable pub new_session : Answers → Process → Outcome
new_session a p =
    let leader = record p { is_session_leader = true; has_terminal = false } in
    if a.setsid_ok
    then leave_session a (if a.sigaction_ok then record leader { ignores_hup = true } else leader)
    else minus_one p

-- MakeDaemon
unfoldable pub make_daemon : Answers → Process → Outcome
make_daemon a p =
    let unmasked = record p { umask = 0 } in
    if a.getrlimit_ok
    then elim a.first_fork [
      | fork_failed ↦ minus_one unmasked
      | in_parent ↦ left_process
      | in_child ↦ new_session a (record unmasked { is_session_leader = false })
    ]
    else minus_one unmasked

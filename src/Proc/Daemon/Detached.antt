-- ===== src/Proc/Daemon/Detached.antt =====
-- What MakeDaemon of app/proc/hao_daemon.cpp leaves of the process.
use hao_server.Base.{
  ℕ, ◌≡◌, ◌≢◌, ◌<◌, refl, sym, ap, subst, ◌∙◌, Bool, true, false, Option, none, some, ◌==◌, ltb,
  if◌then◌else◌, Bool-cases, Option-cases, inl, inr, arith, eq_cases,
}
use hao_server.Proc.Daemon.{
  File, dev_null, Process, fork_failed, in_child, in_parent, Answers, Outcome, minus_one, done,
  left_process, set_file, dup2, redirect, leave_session, new_session, make_daemon,
}

-- The process has left its session and its terminal, its input and output are /dev/null, and its
-- other files are as they were, but that /dev/null may stand where standard error was closed.
pub record Detached (p t : Process) : Type 0 where
  pub unmasked : t.umask ≡ 0
  pub follows : t.is_session_leader ≡ false
  pub no_terminal : t.has_terminal ≡ false
  pub root : t.at_root ≡ true
  pub input : t.files 0 ≡ some dev_null
  pub output : t.files 1 ≡ some dev_null
  pub same_files : (j : ℕ) → 2 < j → t.files j ≡ p.files j
  pub same_open : (j : ℕ) → 1 < j → p.files j ≢ none → t.files j ≡ p.files j

-- A condition on the process that MakeDaemon comes back with 0 in
abbrev WhenDone : (Process → Type 0) → Outcome → Type 0
WhenDone P (minus_one p) = Unit
WhenDone P (done t) = P t
WhenDone P left_process = Unit

set_file-same : (fd : ℕ) (f : Option File) (p : Process) → (set_file fd f p).files fd ≡ f
set_file-same fd f p = let e : (fd == fd) ≡ true = ground arith in rw e refl

set_file-other :
    (fd j : ℕ) (f : Option File) (p : Process) → fd ≢ j → (set_file fd f p).files j ≡ p.files j
set_file-other fd j f p ne = let e : (fd == j) ≡ false = ground (arith, ne) in rw e refl

-- The process behind the two calls of dup2
abbrev with_null : ℕ → Process → Process
with_null fd p = dup2 fd 1 (dup2 fd 0 (set_file fd (some dev_null) p))

-- dup2 of a descriptor of /dev/null leaves it one, and makes one of the other.
dup2-null :
    (fd to j : ℕ) (p : Process)
    → p.files fd ≡ some dev_null
    → (dup2 fd to p).files j ≡ (if to == j then some dev_null else p.files j)
dup2-null fd to j p e = rw e refl

with_null-files :
    (fd j : ℕ) (p : Process)
    → (with_null fd p).files j ≡ (
        if 1 == j
        then some dev_null
        else if 0 == j
        then some dev_null
        else if fd == j
        then some dev_null
        else p.files j)
with_null-files fd j p =
    let null = set_file fd (some dev_null) p in
    let first = set_file-same fd (some dev_null) p in
    let still : (dup2 fd 0 null).files fd ≡ some dev_null =
      dup2-null fd 0 fd null first ∙ either (0 == fd) first in
    dup2-null fd 1 j (dup2 fd 0 null) still
    ∙ ap (λ f. if 1 == j then some dev_null else f) (dup2-null fd 0 j null first)
  where
    either :
        (b : Bool) {f : Option File}
        → f ≡ some dev_null
        → (if b then some dev_null else f) ≡ some dev_null
    either true e = refl
    either false e = e

with_null-other : (fd j : ℕ) (p : Process) → 1 < j → fd ≢ j → (with_null fd p).files j ≡ p.files j
with_null-other fd j p above ne =
    let one : (1 == j) ≡ false = ground (arith, above) in
    let nought : (0 == j) ≡ false = ground (arith, above) in
    let own : (fd == j) ≡ false = ground (arith, ne) in
    with_null-files fd j p ∙ (rw (one, nought, own) refl)

module _ (a : Answers) where
  -- open gives a descriptor that is not in use.
  abbrev pub GivesUnused : Process → Type 0
  GivesUnused p = (fd : ℕ) → a.opened ≡ some fd → p.files fd ≡ none

  redirect-Detached :
      (p q : Process)
      → q.files ≡ p.files
      → GivesUnused q
      → q.umask ≡ 0
      → q.is_session_leader ≡ false
      → q.has_terminal ≡ false
      → q.at_root ≡ true
      → WhenDone (Detached p) (redirect a q)
  unfolding redirect
  redirect-Detached p q files unused mask follows terminal root = elim (Option-cases a.opened) [
    | inl failed ↦ rw failed tt
    | inr (fd, is) ↦ rw is (elim (Bool-cases a.dup_in_ok) [
      | inl in_ok ↦ rw in_ok (elim (Bool-cases a.dup_out_ok) [
        | inl out_ok ↦ rw out_ok (elim (Bool-cases (ltb 2 fd)) [
          | inl high ↦ rw high (elim (Bool-cases a.close_ok) [
            | inl closed ↦ rw closed (record {
              unmasked = mask;
              follows = follows;
              no_terminal = terminal;
              root = root;
              input =
                  set_file-other fd 0 none (with_null fd q) (ground (arith, high))
                  ∙ with_null-files fd 0 q;
              output =
                  set_file-other fd 1 none (with_null fd q) (ground (arith, high))
                  ∙ with_null-files fd 1 q;
              same_files = λ j above. elim (eq_cases fd j) [
                | inl same ↦
                    ap (set_file fd none (with_null fd q)).files (sym same)
                    ∙ set_file-same fd none (with_null fd q)
                    ∙ sym (closed_before fd is)
                    ∙ ap p.files same
                | inr other ↦
                    set_file-other fd j none (with_null fd q) other
                    ∙ with_null-other fd j q (omega (arith, above)) other
                    ∙ old j
              ];
              same_open = λ j above open_before.
                  let other = is_other fd is j open_before in
                  set_file-other fd j none (with_null fd q) other
                  ∙ with_null-other fd j q above other
                  ∙ old j;
            })
            | inr open_still ↦ rw open_still tt
          ])
          | inr low ↦ rw low (record {
            unmasked = mask;
            follows = follows;
            no_terminal = terminal;
            root = root;
            input = with_null-files fd 0 q;
            output = with_null-files fd 1 q;
            same_files = λ j above.
                with_null-other fd j q (omega (arith, above)) (below j low above) ∙ old j;
            same_open = λ j above open_before.
                with_null-other fd j q above (is_other fd is j open_before) ∙ old j;
          })
        ])
        | inr out_bad ↦ rw out_bad tt
      ])
      | inr in_bad ↦ rw in_bad tt
    ])
  ]
    where
      old : (j : ℕ) → q.files j ≡ p.files j
      old j = ap (λ (f : ℕ → Option File). f j) files

      closed_before : (fd : ℕ) → a.opened ≡ some fd → p.files fd ≡ none
      closed_before fd is = sym (old fd) ∙ unused fd is

      is_other : (fd : ℕ) → a.opened ≡ some fd → (j : ℕ) → p.files j ≢ none → fd ≢ j
      is_other fd is j open_before same = open_before (ap p.files (sym same) ∙ closed_before fd is)

      below : {fd : ℕ} (j : ℕ) → ltb 2 fd ≡ false → 2 < j → fd ≢ j
      below j low above same = absurd (ground (arith, low, above, same))

  leave_session-Detached :
      (p q : Process)
      → q.files ≡ p.files
      → GivesUnused q
      → q.umask ≡ 0
      → q.has_terminal ≡ false
      → WhenDone (Detached p) (leave_session a q)
  unfolding leave_session
  leave_session-Detached p q files unused mask terminal =
      elim a.second_fork
        as (λ f. WhenDone (Detached p) (elim f [
          | fork_failed ↦ minus_one q
          | in_parent ↦ left_process
          | in_child ↦
              let child = record q { is_session_leader = false } in
              if a.chdir_ok then redirect a (record child { at_root = true }) else minus_one child
        ])) [
          | fork_failed ↦ tt
          | in_parent ↦ tt
          | in_child ↦ elim (Bool-cases a.chdir_ok) [
            | inl moved ↦ simp moved (
                redirect-Detached p (record q { is_session_leader = false; at_root = true }) files
                  unused mask refl terminal refl)
            | inr stuck ↦ simp stuck tt
          ]
        ]

  new_session-Detached :
      (p q : Process)
      → q.files ≡ p.files
      → GivesUnused q
      → q.umask ≡ 0
      → WhenDone (Detached p) (new_session a q)
  unfolding new_session
  new_session-Detached p q files unused mask = elim (Bool-cases a.setsid_ok) [
    | inl left ↦
        let leader = record q { is_session_leader = true; has_terminal = false } in
        simp left
          (elim a.sigaction_ok
            as (λ b.
              WhenDone (Detached p)
                (leave_session a (if b then record leader { ignores_hup = true } else leader))) [
                  | true ↦
                      leave_session-Detached p (record leader { ignores_hup = true }) files unused
                        mask refl
                  | false ↦ leave_session-Detached p leader files unused mask refl
                ])
    | inr stuck ↦ simp stuck tt
  ]

  make_daemon-WhenDone : (p : Process) → GivesUnused p → WhenDone (Detached p) (make_daemon a p)
  unfolding make_daemon
  make_daemon-WhenDone p unused = elim (Bool-cases a.getrlimit_ok) [
    | inl known ↦
        simp known
          (elim a.first_fork
            as (λ f. WhenDone (Detached p) (elim f [
              | fork_failed ↦ minus_one (record p { umask = 0 })
              | in_parent ↦ left_process
              | in_child ↦ new_session a (record p { umask = 0; is_session_leader = false })
            ])) [
              | fork_failed ↦ tt
              | in_parent ↦ tt
              | in_child ↦
                  new_session-Detached p (record p { umask = 0; is_session_leader = false }) refl
                    unused refl
            ])
    | inr unknown ↦ simp unknown tt
  ]

-- Whatever the answers of the system are, with a descriptor from open that was not in use: where
-- MakeDaemon comes back with 0 the process has no controlling terminal, does not lead its session, has
-- no mask for new files and stands at the root; its input and output are /dev/null, and its other open
-- files are as they were, as is every descriptor above 2.
pub make_daemon-Detached :
    (a : Answers) (p t : Process)
    → ((fd : ℕ) → a.opened ≡ some fd → p.files fd ≡ none)
    → make_daemon a p ≡ done t
    → Detached p t
make_daemon-Detached a p t unused e =
    subst (WhenDone (Detached p)) e (make_daemon-WhenDone a p unused)

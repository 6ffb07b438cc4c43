-- ===== src/Log/Stderr.antt =====
-- LOG_TO_STDERR of app/log/hao_log.cpp. The text that vsnprintf would print and that of strerror are
-- arguments. `none` is a write or a read outside of the buffer.
use hao_server.Base.{
  ℕ, ◌+◌, ◌-◌, ◌<◌, ◌≡◌, refl, ap, List, [], ◌∷◌, ◌++◌, Option, none, some, leb, ◌==◌,
  if◌then◌else◌, take, length, replicate, append_assoc, length-append, take-append_length, take_all,
  arith, true, false, Bool, sym, length-take,
}
use hao_server.Log.{log_line_size, BrokenTime, stamp}

-- What stands in front of the text: the time and, for an error, its text, a 0 that is passed over and a
-- space
unfoldable pub stderr_front : BrokenTime → ℕ → List ℕ → List ℕ
stderr_front t err error_info = stamp t ++ (if err == 0 then [] else error_info ++ 0 ∷ b' ' ∷ [])

-- vsnprintf into the rest of a buffer of zeros
abbrev pub print_into : List ℕ → List ℕ → List ℕ
print_into front printed =
    let kept = take (log_line_size - length front - 1) printed in
    front ++ (kept ++ replicate (log_line_size - length front - length kept) 0)

-- hao_log::LOG_TO_STDERR: what is written
unfoldable pub log_to_stderr : BrokenTime → ℕ → List ℕ → List ℕ → Option (List ℕ)
log_to_stderr t err error_info printed =
    let front = stderr_front t err error_info in
    let size = length front + length printed in
    let buffer = print_into front printed in
    if leb (length front) log_line_size
    then (if leb size log_line_size then some (take size buffer) else none)
    else none

module _ (front printed : List ℕ) where
  print_into-whole :
      length front + length printed < log_line_size
      → take (length front + length printed) (print_into front printed) ≡ front ++ printed
  print_into-whole fits =
      let all : take (log_line_size - length front - 1) printed ≡ printed =
        take_all (log_line_size - length front - 1) printed (omega (arith, fits)) in
      let zeros : List ℕ = replicate (log_line_size - length front - length printed) 0 in
      rw (all, sym (append_assoc front printed zeros))
        (take-append_length (length front + length printed) (front ++ printed) zeros
          (omega (arith, length-append front printed)))

  print_into-full :
      length front + length printed ≡ log_line_size
      → 0 < length printed
      → take (length front + length printed) (print_into front printed)
        ≡ front ++ (take (length printed - 1) printed ++ 0 ∷ [])
  print_into-full full pos =
      let room : log_line_size - length front - 1 ≡ length printed - 1 = omega (arith, full) in
      let kept = take (length printed - 1) printed in
      let size : length kept ≡ length printed - 1 =
        length-take (length printed - 1) printed (omega arith) in
      let one : log_line_size - length front - length kept ≡ 1 = omega (arith, full, size, pos) in
      rw (room, one)
        (take_all (length front + length printed) (front ++ (kept ++ 0 ∷ [])) (
          omega
            (arith, length-append front (kept ++ 0 ∷ []), length-append kept (0 ∷ []), size, pos)))

-- A text that fits the buffer with its 0 is written whole behind the front. One byte more is written
-- with a 0 in the place of its last byte, and for a longer one the write reads past the buffer.
pub log_to_stderr_lem :
    (t : BrokenTime) (err : ℕ) (error_info printed : List ℕ)
    → let front = stderr_front t err error_info in
      let run = log_to_stderr t err error_info printed in
      let size = length front + length printed in
      (size < log_line_size → run ≡ some (front ++ printed))
      × (size ≡ log_line_size
          → 0 < length printed
          → run ≡ some (front ++ (take (length printed - 1) printed ++ 0 ∷ [])))
      × (log_line_size < size → run ≡ none)
unfolding log_to_stderr
log_to_stderr_lem t err error_info printed =
    let front = stderr_front t err error_info in
    (
      λ fits.
          let a : leb (length front) log_line_size ≡ true = ground (arith, fits) in
          let b : leb (length front + length printed) log_line_size ≡ true = ground (arith, fits) in
          rw (a, b) (ap some (print_into-whole front printed fits)),
      λ full pos.
          let a : leb (length front) log_line_size ≡ true = ground (arith, full) in
          let b : leb (length front + length printed) log_line_size ≡ true = ground (arith, full) in
          rw (a, b) (ap some (print_into-full front printed full pos)),
      λ long.
          let b : leb (length front + length printed) log_line_size ≡ false =
            ground (arith, long) in
          rw b (either (leb (length front) log_line_size)),
    )
  where
    either : (b : Bool) → ◌≡◌ {A = Option (List ℕ)} (if b then none else none) none
    either true = refl
    either false = refl

-- ===== src/Net/EpollLoop.antt =====
-- The outer loop of Epoll_Process_Events of app/net/hao_socket.cpp, and when it ends. The answer of
-- epoll_wait, by the number of the call and its timeout, the times of the calls of now() and the
-- handlers are arguments.
use hao_server.Base.{
  ℕ, zero, suc, ◌+◌, ◌≡◌, ◌≢◌, refl, subst, Bool, false, List, [], ◌∷◌, Option, none, some, ◌==◌,
  if◌then◌else◌, arith, Bool-cases, inl, inr,
}
use hao_server.Base.Int.{ℤ, pos, negsuc}
use hao_server.Timestamp.{Timestamp}
use hao_server.Net.State.{Handler, Session, Socket}
use hao_server.Net.Events.{process_events}
use hao_server.Net.Timers.{timer_heart_beat_check}

-- EINTR of errno.h
abbrev pub eintr : ℕ
eintr = 4

-- -1 with errno, or the events, each with its connection
pub data Waited : Type 0 where
  wait_failed : ℕ → Waited
  woken : List (ℕ × ℕ) → Waited

-- The loop has ended, goes on, or has used a freed timer event.
pub data Loop : Type 0 where
  left_with : Socket → Loop
  goes_on : Socket → Loop
  fault : Loop

abbrev pub is_minus_one : ℤ → Bool
is_minus_one (pos n) = false
is_minus_one (negsuc n) = n == 0

module _ (run : Handler → Session → Session) (wait : ℕ → ℤ → Waited) (clock : ℕ → Timestamp) where
  -- What is done with the answer; `next` goes on with the loop.
  unfoldable pub after_wait : ℤ → Socket → (Socket → Loop) → Waited → Loop
  after_wait timeout s next (wait_failed errno) = if errno == eintr then next s else left_with s
  after_wait timeout s next (woken []) = if is_minus_one timeout then left_with s else next s
  after_wait timeout s next (woken (e ∷ es)) = next (process_events run (e ∷ es) s)

  -- Round `i` with the timers that there are; two times are read in a round.
  unfoldable pub timed_round : ℕ → Socket → (ℤ → Socket → Loop) → Loop
  timed_round i s next = elim (timer_heart_beat_check (clock (i + i)) (clock (i + i + 1)) s) [
    | none ↦ fault
    | some (t, ms) ↦ after_wait ms t (next ms) (wait i ms)
  ]

  -- The loop from round `i` on, for the rounds that are left. Where there is no timer the wait has no
  -- end, and `timeout` stays.
  unfoldable pub epoll_loop : ℕ → ℕ → ℤ → Socket → Loop
  epoll_loop zero i timeout s = goes_on s
  epoll_loop (suc k) i timeout s =
      let next = λ (after : ℤ) (t : Socket). epoll_loop k (suc i) after t in
      if s.timer.n == 0
      then after_wait timeout s (next timeout) (wait i (negsuc 0))
      else timed_round i s next

  -- Socket::Epoll_Process_Events, for a number of rounds
  unfoldable pub epoll_process_events : ℕ → Socket → Loop
  epoll_process_events rounds s = epoll_loop rounds 0 (negsuc 0) s

  -- A call of epoll_wait has failed, and not since a signal came.
  abbrev pub HasFailed : Type 0
  HasFailed =
      (i : ℕ) × (given : ℤ) × (errno : ℕ) × (wait i given ≡ wait_failed errno) × (errno ≢ eintr)

  abbrev Leaves : Loop → Type 0
  Leaves (left_with t) = HasFailed
  Leaves (goes_on t) = Unit
  Leaves fault = Unit

  after_wait-Leaves :
      (i : ℕ) (given timeout : ℤ) (s : Socket) (next : Socket → Loop) (answer : Waited)
      → wait i given ≡ answer
      → (answer ≡ woken [] → is_minus_one timeout ≡ false)
      → ((t : Socket) → Leaves (next t))
      → Leaves (after_wait timeout s next answer)
  unfolding after_wait
  after_wait-Leaves i given timeout s next (wait_failed errno) e quiet rest =
      elim (Bool-cases (errno == eintr)) [
        | inl signal ↦ rw signal (rest s)
        | inr other ↦ rw other (i, given, errno, e, ground (arith, other))
      ]
  after_wait-Leaves i given timeout s next (woken []) e quiet rest = rw (quiet refl) (rest s)
  after_wait-Leaves i given timeout s next (woken (x ∷ xs)) e quiet rest =
      rest (process_events run (x ∷ xs) s)

  module _ (waits : (i n : ℕ) → wait i (negsuc n) ≢ woken []) where
    timely : (i : ℕ) (z : ℤ) → wait i z ≡ woken [] → is_minus_one z ≡ false
    timely i (pos n) e = refl
    timely i (negsuc n) e = absurd (waits i n e)

    epoll_loop-Leaves : (k i : ℕ) (timeout : ℤ) (s : Socket) → Leaves (epoll_loop k i timeout s)
    unfolding epoll_loop timed_round
    epoll_loop-Leaves zero i timeout s = tt
    epoll_loop-Leaves (suc k) i timeout s = elim (Bool-cases (s.timer.n == 0)) [
      | inl no_timer ↦ rw no_timer (
          after_wait-Leaves i (negsuc 0) timeout s (epoll_loop k (suc i) timeout)
            (wait i (negsuc 0)) refl (λ e. absurd (waits i 0 e))
            (epoll_loop-Leaves k (suc i) timeout))
      | inr timers ↦
          rw timers
            (elim (timer_heart_beat_check (clock (i + i)) (clock (i + i + 1)) s)
              as (λ (o : Option (Socket × ℤ)). Leaves (elim o [
                | none ↦ fault
                | some (t, ms) ↦ after_wait ms t (epoll_loop k (suc i) ms) (wait i ms)
              ])) [
                | none ↦ tt
                | some (t, ms) ↦
                    after_wait-Leaves i ms ms t (epoll_loop k (suc i) ms) (wait i ms) refl
                      (timely i ms) (epoll_loop-Leaves k (suc i) ms)
              ])
    ]

-- epoll_wait does not come back without an event from a wait that has no end, one with a negative
-- timeout. Then the loop ends only where a call of epoll_wait has failed for another reason than a
-- signal, whatever the handlers do and whatever time it is.
pub epoll_process_events-HasFailed :
    (run : Handler → Session → Session) (wait : ℕ → ℤ → Waited) (clock : ℕ → Timestamp) (rounds : ℕ)
    (s t : Socket)
    → ((i n : ℕ) → wait i (negsuc n) ≢ woken [])
    → epoll_process_events run wait clock rounds s ≡ left_with t
    → HasFailed run wait clock
unfolding epoll_process_events
epoll_process_events-HasFailed run wait clock rounds s t waits e =
    subst (Leaves run wait clock) e (epoll_loop-Leaves run wait clock waits rounds 0 (negsuc 0) s)

-- ===== src/Tests/HeartBeat.antt =====
-- Two clients, with timers for 20 and for 10 microseconds after the epoch, when it is 15.
use hao_server.Base.{◌+◌, ℕ, zero, suc, ◌≡◌, refl, some, [], ◌∷◌, arith, if◌then◌else◌}
use hao_server.Base.Int.{ℤ, pos}
use hao_server.Timestamp.{Timestamp, lt_time}
use hao_server.Timer.{
  Timer, empty_timer, timer_add, heap_push, reserve, shift_up, shift_up_loop, earliest_time,
}
use hao_server.Timer.Added.{IsTimer}
use hao_server.Timer.Runs.{add, run_op, run_ops, run_ops-IsTimer}
use hao_server.Net.State.{MsgHeader, Socket}
use hao_server.Net.Timers.{timer_heart_beat_check}
use hao_server.Net.Timers.Wait.{WaitTime}
use hao_server.Net.Timers.HeartBeat.{Beaten, timer_heart_beat_check-Beaten}
use hao_server.Net.Timers.Taken.{HasHeaders}
use hao_server.Tests.Fixtures.{no_event, fresh_socket, client}

abbrev at_us : ℕ → Timestamp
at_us n = record { micro_seconds_since_epoch = pos n }

abbrev header_of : ℕ → MsgHeader
header_of zero = record { conn = 3; cur_sequence_num = 1 }
header_of (suc x) = record { conn = 4; cur_sequence_num = 1 }

abbrev two_timers : Timer MsgHeader
two_timers =
    (timer_add (timer_add (empty_timer no_event) (at_us 20) (header_of 0)).0 (at_us 10)
      (header_of 1)).0

abbrev two_clients : Socket
two_clients = record fresh_socket {
  conns = λ i. record client { id = i; fd = some (i + 6) };
  timer = two_timers;
}

two_timers-IsTimer : IsTimer two_timers
unfolding run_op run_ops
two_timers-IsTimer =
    run_ops-IsTimer no_event (add (at_us 20) (header_of 0) ∷ add (at_us 10) (header_of 1) ∷ [])
      two_timers (omega arith) refl

two_timers-HasHeaders : HasHeaders two_timers header_of
unfolding timer_add heap_push reserve shift_up shift_up_loop empty_timer
two_timers-HasHeaders zero lives = refl
two_timers-HasHeaders (suc zero) lives = refl
two_timers-HasHeaders (suc (suc x)) lives =
    absurd (omega (arith, two_timers-IsTimer.fresh (suc (suc x)) lives))

timer_heart_beat_check-Beaten_example :
    (t : Socket) × (ms : ℤ) × (timer_heart_beat_check (at_us 15) (at_us 16) two_clients
      ≡ some (t, ms))
    × WaitTime t.timer
        (if lt_time (earliest_time two_clients.timer) (at_us 15) then at_us 16 else at_us 15)
        ms
    × Beaten (at_us 15) header_of two_clients t
timer_heart_beat_check-Beaten_example =
    timer_heart_beat_check-Beaten (at_us 15) (at_us 16) header_of two_clients two_timers-IsTimer
      two_timers-HasHeaders (λ x lives. refl)

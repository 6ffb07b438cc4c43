-- ===== src/Tests/Timer.antt =====
-- A timer for 20 microseconds after the epoch and one for 10.
use hao_server.Base.{false, none, ℕ, ◌≡◌, refl, some, List, [], ◌∷◌, arith}
use hao_server.Base.Int.{pos}
use hao_server.Timestamp.{Timestamp}
use hao_server.Timer.{
  Timer, empty_timer, timer_add, timer_update, timer_pop, heap_push, heap_adjust, heap_adjust_at,
  reserve, shift_up, shift_up_loop, shift_up_unconditional, shift_down, shift_down_loop,
}
use hao_server.Timer.Cleared.{clear, allocated, dangling, clear_twice}
use hao_server.Timer.Adjust.{retime}
use hao_server.Timer.Added.{IsTimer}
use hao_server.Timer.Runs.{TimerOp, add, move, pop, run_op, run_ops, run_ops-IsTimer}
use hao_server.Net.State.{MsgHeader}
use hao_server.Tests.Fixtures.{no_event}

abbrev at_us : ℕ → Timestamp
at_us n = record { micro_seconds_since_epoch = pos n }

abbrev of_client : ℕ → MsgHeader
of_client i = record { conn = i; cur_sequence_num = 1 }

-- The operations: a timer for 20, one for 10, the first moved to 5, one for 7, one taken out.
abbrev some_ops : List (TimerOp MsgHeader)
some_ops =
    add (at_us 20) (of_client 3)
    ∷ move (some 0) (at_us 5)
    ∷ add (at_us 10) (of_client 4)
    ∷ add (at_us 7) (of_client 5)
    ∷ pop
    ∷ []

abbrev two_left : Timer MsgHeader
two_left =
    let first = (timer_add (empty_timer no_event) (at_us 20) (of_client 3)).0 in
    let moved = heap_adjust_at (some 0) (retime first 0 (at_us 5)) 0 in
    (timer_pop (timer_add (timer_add moved (at_us 10) (of_client 4)).0 (at_us 7) (of_client 5)).0).0

run_ops-IsTimer_example : IsTimer two_left
unfolding run_op run_ops timer_add timer_update timer_pop heap_push heap_adjust heap_adjust_at
    reserve shift_up shift_up_loop shift_up_unconditional shift_down shift_down_loop empty_timer
run_ops-IsTimer_example = run_ops-IsTimer no_event some_ops two_left (omega arith) refl

clear_twice_example :
    (u : Timer MsgHeader) × (clear two_left allocated ≡ some (u, dangling))
    × ((x : ℕ) → u.live x ≡ false)
    × (u.n ≡ 0)
    × (clear u dangling ≡ none)
unfolding run_op run_ops timer_add timer_update timer_pop heap_push heap_adjust heap_adjust_at
    reserve shift_up shift_up_loop shift_up_unconditional shift_down shift_down_loop empty_timer
clear_twice_example =
    clear_twice two_left (run_ops-IsTimer no_event some_ops two_left (omega arith) refl)

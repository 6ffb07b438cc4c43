-- ===== src/Tests/Close.antt =====
-- A client that is closed, and closed again, and one with a timer.
use hao_server.Base.{true, false, arith, ◌≡◌, refl, none, some, [], ◌∷◌}
use hao_server.Net.State.{MsgHeader, Session}
use hao_server.Net.Close.{zd_close_socket_proc}
use hao_server.Timer.{Timer, empty_timer, timer_add, heap_push, reserve, shift_up, shift_up_loop}
use hao_server.Timer.Added.{IsTimer}
use hao_server.Timer.Runs.{add, run_op, run_ops, run_ops-IsTimer}
use hao_server.Net.Close.Timed.{ClosedTimed, zd_close_socket_proc-ClosedTimed}
use hao_server.Net.Close.Twice.{ClosedTwice, zd_close_socket_proc_again}
use hao_server.Tests.Fixtures.{no_event, quiet, client, fresh_socket, zero_time}

abbrev still_open : Session
still_open = record { socket = fresh_socket; conn = record client { fd = some 6 } }

zd_close_socket_proc_again_example :
    (t u : Session) × (zd_close_socket_proc zero_time still_open ≡ some t)
    × (zd_close_socket_proc zero_time t ≡ some u)
    × ClosedTwice still_open t u 6
zd_close_socket_proc_again_example =
    zd_close_socket_proc_again zero_time zero_time still_open 6 refl refl refl

abbrev one_timer : Timer MsgHeader
one_timer =
    (timer_add (empty_timer no_event) zero_time (record { conn = 3; cur_sequence_num = 1 })).0

one_timer-IsTimer : IsTimer one_timer
unfolding run_op run_ops
one_timer-IsTimer =
    run_ops-IsTimer no_event (add zero_time (record { conn = 3; cur_sequence_num = 1 }) ∷ [])
      one_timer (omega arith) refl

-- A client with a timer, whose id 0 stands for the event 0
abbrev timed_client : Session
timed_client = record {
  socket = record fresh_socket {
    config = record quiet { if_kick_time_count = true };
    timer = one_timer;
  };
  conn = record client { timer_id = some 0 };
}

zd_close_socket_proc-ClosedTimed_example :
    (one_timer.live 0 ≡ true
      → (t : Session) × (zd_close_socket_proc zero_time timed_client ≡ some t)
        × ClosedTimed timed_client t 0 0)
    × (one_timer.live 0 ≡ false → zd_close_socket_proc zero_time timed_client ≡ none)
unfolding timer_add heap_push reserve shift_up shift_up_loop empty_timer
zd_close_socket_proc-ClosedTimed_example =
    zd_close_socket_proc-ClosedTimed zero_time timed_client 0 0 refl refl one_timer-IsTimer refl

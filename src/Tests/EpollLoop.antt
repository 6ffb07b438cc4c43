-- ===== src/Tests/EpollLoop.antt =====
-- epoll_wait fails at once, with EBADF.
use hao_server.Base.{ℕ, ◌≢◌, refl, []}
use hao_server.Base.Int.{ℤ, negsuc}
use hao_server.Timestamp.{Timestamp}
use hao_server.Net.State.{Handler, Session}
use hao_server.Net.EpollLoop.{
  Waited, wait_failed, woken, HasFailed, epoll_process_events, epoll_loop, after_wait,
  epoll_process_events-HasFailed,
}
use hao_server.Tests.Fixtures.{fresh_socket, zero_time}

abbrev do_nothing : Handler → Session → Session
do_nothing handler s = s

abbrev bad_descriptor : ℕ → ℤ → Waited
bad_descriptor i timeout = wait_failed 9

abbrev stopped_clock : ℕ → Timestamp
stopped_clock i = zero_time

never_woken : (i n : ℕ) → bad_descriptor i (negsuc n) ≢ woken []
never_woken i n e = cc e

epoll_process_events-HasFailed_example : HasFailed do_nothing bad_descriptor stopped_clock
unfolding epoll_process_events epoll_loop after_wait
epoll_process_events-HasFailed_example =
    epoll_process_events-HasFailed do_nothing bad_descriptor stopped_clock 1 fresh_socket
      fresh_socket never_woken refl

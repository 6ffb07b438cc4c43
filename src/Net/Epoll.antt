-- ===== src/Net/Epoll.antt =====
-- app/net/hao_socket.cpp, Epoll_Oper_Event: which events a connection is registered for. The answer
-- of epoll_ctl is an argument. An event set is a uint32_t, whose complement is 2^32 - 1 less it.
use Prim.Native.Nat.{bit_and, bit_or}
use hao_server.Base.{ℕ, ◌-◌, ◌^◌, Bool, true, ◌==◌, if◌then◌else◌}
use hao_server.Net.State.{Session}

pub data EpollOp : Type 0 where
  ctl_add ctl_mod ctl_del : EpollOp

-- EPOLLIN, EPOLLOUT and EPOLLRDHUP of sys/epoll.h
abbrev pub epoll_in : ℕ
epoll_in = 1

abbrev pub epoll_out : ℕ
epoll_out = 4

abbrev pub epoll_rdhup : ℕ
epoll_rdhup = 0x2000

-- The events after EPOLL_CTL_MOD: 0 adds the flag, 1 takes it away, anything else puts it there.
abbrev pub modified : ℕ → ℕ → ℕ → ℕ
modified bcaction flag events =
    if bcaction == 0
    then bit_or events flag
    else if bcaction == 1
    then bit_and events (2 ^ 32 - 1 - flag)
    else flag

abbrev pub set_events : ℕ → Session → Session
set_events events s = record s { conn = record s.conn { events = events } }

-- Socket::Epoll_Oper_Event; the result says whether it returns 1.
unfoldable pub epoll_oper_event : EpollOp → ℕ → ℕ → Bool → Session → Session × Bool
epoll_oper_event ctl_add flag bcaction answer s = (set_events flag s, answer)
epoll_oper_event ctl_mod flag bcaction answer s =
    (set_events (modified bcaction flag s.conn.events) s, answer)
epoll_oper_event ctl_del flag bcaction answer s = (s, true)

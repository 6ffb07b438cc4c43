-- ===== src/Net/Accept.antt =====
-- app/net/hao_socket_accept.cpp, Socket::EventAccept: a client connects. The answers of accept4 or
-- accept, of SetNonBlocking and of epoll_ctl are arguments, and so is the zeroed memory of a new
-- connection.
pub mod Limit
pub mod Client
use Prim.Native.Nat.{bit_or}
use hao_server.Base.{
  ℕ, ◌*◌, Bool, true, false, not, ◌&&◌, List, [], ◌∷◌, ◌++◌, Option, none, some, length, ltb,
  if◌then◌else◌,
}
use hao_server.Base.Int.{pos, ◌+ℤ◌, ltb_ℤ}
use hao_server.Timestamp.{Timestamp}
use hao_server.Net.State.{
  Connection, Socket, Session, store, read_request_handler, write_request_handler,
}
use hao_server.Net.Pool.{get_connection, close_connection}
use hao_server.Net.Epoll.{epoll_in, epoll_rdhup, ctl_add, epoll_oper_event}
use hao_server.Net.Timers.{add_to_timer_queue}

pub data AcceptAnswer : Type 0 where
  accepted : ℕ → AcceptAnswer
  not_ready not_implemented failed : AcceptAnswer

-- Neither limit is reached: that on the users, and that on connections that wait to be recycled.
unfoldable pub has_room : Socket → Bool
has_room s =
    ltb_ℤ s.online_user_count (pos s.worker_connections)
    && not (
        ltb (s.worker_connections * 5) (length s.connection_pool)
        && ltb (length s.free_connection_pool) s.worker_connections)

-- The end of EventAccept: a timer, if idle clients are kicked, and one user more.
unfoldable pub welcome : Timestamp → Session → Session
welcome now s =
    let t = if s.socket.if_kick_time_count then add_to_timer_queue now s else s in
    record t {
      socket = record t.socket { online_user_count = t.socket.online_user_count +ℤ pos 1 };
    }

-- What is done with a connection that has been lent; `plain` says that accept4 is not there.
unfoldable pub set_up : (plain non_blocking registered : Bool) → Timestamp → Session → Session
set_up plain non_blocking registered now s =
    let bound = record s {
      conn = record s.conn {
        read_handler = read_request_handler;
        write_handler = write_request_handler;
      };
    } in
    let added = epoll_oper_event ctl_add (bit_or epoll_in epoll_rdhup) 0 registered bound in
    if plain && not non_blocking
    then close_connection s
    else if added.1
    then welcome now (added.0)
    else close_connection (added.0)

-- EventAccept with a new descriptor
unfoldable pub take_client :
    Connection → (plain non_blocking registered : Bool) → Timestamp → ℕ → Socket → Socket
take_client blank plain non_blocking registered now fd s =
    let lent = get_connection blank now fd s in
    let i = lent.1 in
    let t =
      set_up plain non_blocking registered now
        (record { socket = lent.0; conn = lent.0.conns i }) in
    if has_room s
    then store t.socket i t.conn
    else record s { closed_fds = s.closed_fds ++ fd ∷ [] }

-- Socket::EventAccept, with use_accept4_ before and after; `none` while the last call is open.
unfoldable pub event_accept :
    Connection
    → List AcceptAnswer
    → (non_blocking registered : Bool) → Timestamp
    → Bool
    → Socket
    → Option (Socket × Bool)
event_accept blank [] non_blocking registered now use_accept4 s = none
event_accept blank (accepted fd ∷ answers) non_blocking registered now use_accept4 s =
    some (take_client blank (not use_accept4) non_blocking registered now fd s, use_accept4)
event_accept blank (not_implemented ∷ answers) non_blocking registered now true s =
    event_accept blank answers non_blocking registered now false s
event_accept blank (not_implemented ∷ answers) non_blocking registered now false s = some (s, false)
event_accept blank (not_ready ∷ answers) non_blocking registered now use_accept4 s =
    some (s, use_accept4)
event_accept blank (failed ∷ answers) non_blocking registered now use_accept4 s =
    some (s, use_accept4)

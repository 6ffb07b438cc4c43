-- ===== src/Net/Close.antt =====
-- app/net/hao_socket.cpp, zd_close_socket_proc, with DeleteFromTimerQueue of
-- app/net/hao_socket_timer.cpp: closing a connection. `none` is a fault, the use of a freed event.
pub mod Twice
pub mod Tidy
pub mod Timed
use hao_server.Base.{Option, none, some, ◌++◌, [], ◌∷◌, if◌then◌else◌, ◌>>=◌}
use hao_server.Base.Int.{pos, ◌-ℤ◌, ltb_ℤ}
use hao_server.Timestamp.{Timestamp}
use hao_server.Timer.{timer_cancel}
use hao_server.Net.State.{Socket, Session}
use hao_server.Net.Pool.{close_fd, in_recy_connect_queue}
use Prim.Native.Nat.{ℕ}

-- Socket::DeleteFromTimerQueue
unfoldable pub delete_from_timer_queue : Option ℕ → Socket → Option Socket
delete_from_timer_queue none s = some s
delete_from_timer_queue (some i) s =
    timer_cancel s.timer (some i) >>= λ r. some (record s { timer = r.0 })

unfoldable pub lower_throw_send_count : Session → Session
lower_throw_send_count s =
    let c = s.conn in
    if ltb_ℤ (pos 0) c.throw_send_count
    then record s { conn = record c { throw_send_count = c.throw_send_count -ℤ pos 1 } }
    else s

-- Socket::zd_close_socket_proc
unfoldable pub zd_close_socket_proc : Timestamp → Session → Option Session
zd_close_socket_proc now s = do
  socket ←
      if s.socket.if_kick_time_count
      then delete_from_timer_queue s.conn.timer_id s.socket
      else some s.socket
  some (
      in_recy_connect_queue now
        (lower_throw_send_count (close_fd s.conn.fd (record s { socket = socket }))))

-- ===== src/Net/Send.antt =====
-- The sending half: MsgSend and SendQueueThread of app/net/hao_socket.cpp, SendProc and
-- WriteRequestHandler of app/net/hao_socket_request.cpp. What `send` and epoll_ctl answer is an
-- argument. `none` is a fault, the use of a freed timer event.
pub mod Drain
pub mod Walk
pub mod Registered
use hao_server.Base.{
  ℕ, ◌+◌, ◌-◌, Bool, true, false, ◌&&◌, not, List, [], ◌∷◌, ◌++◌, Option, none, some, ltb, ◌==◌,
  if◌then◌else◌, ◌>>=◌, length,
}
use hao_server.Base.Int.{ℤ, pos, ◌+ℤ◌, ◌-ℤ◌, ltb_ℤ}
use hao_server.Timestamp.{Timestamp}
use hao_server.Net.State.{Message, Connection, Session, Socket, pkg_len, with_conn}
use hao_server.Net.Close.{zd_close_socket_proc}
use hao_server.Net.Epoll.{ctl_mod, epoll_out, epoll_oper_event}
use hao_server.Net.Receive.{Errno, eagain, eintr}

-- An answer of `send`: a number of bytes, or an error.
pub data SendAnswer : Type 0 where
  sent : ℕ → SendAnswer
  refused : Errno → SendAnswer

-- What SendProc returns: bytes sent, 0 for a closed peer, -1 for a full kernel buffer, or -2.
pub data SendOutcome : Type 0 where
  some_sent : ℕ → SendOutcome
  peer_closed buffer_full broken : SendOutcome

-- Socket::SendProc, over the answers to its calls of `send`; `none` while the last call is open.
pub send_proc : List SendAnswer → Option SendOutcome
send_proc [] = none
send_proc (sent n ∷ answers) = if n == 0 then some peer_closed else some (some_sent n)
send_proc (refused eagain ∷ answers) = some buffer_full
send_proc (refused eintr ∷ answers) = send_proc answers
send_proc (refused e ∷ answers) = some broken

-- Socket::MsgSend, on the connection of the message.
unfoldable pub msg_send : Timestamp → Message → Session → Option Session
msg_send now m s =
    let socket = s.socket in
    let c = s.conn in
    let discarded = record s {
      socket = record socket { discard_send_pkg_count = socket.discard_send_pkg_count + 1 };
    } in
    if ltb 50000 (length socket.send_message_queue)
    then some discarded
    else if ltb_ℤ (pos 400) c.send_count
    then zd_close_socket_proc now discarded
    else some (record s {
      conn = record c { send_count = c.send_count +ℤ pos 1 };
      socket = record socket { send_message_queue = socket.send_message_queue ++ m ∷ [] };
    })

-- The block has been sent or given up.
abbrev pub release_send : Session → Session
release_send s = record s {
  conn = record s.conn { send_mem_pointer = none; throw_send_count = pos 0 };
}

-- ++throw_send_count, and the wish to be told when the connection can be written to
abbrev pub wait_writable : Bool → Session → Session
wait_writable answer s =
    let c = s.conn in
    (epoll_oper_event ctl_mod epoll_out 0 answer
      (record s { conn = record c { throw_send_count = c.throw_send_count +ℤ pos 1 } })).0

abbrev pub sent_part : ℕ → Session → Session
sent_part n s =
    let c = s.conn in
    record s { conn = record c { send_buf = c.send_buf + n; send_len = c.send_len - n } }

-- The end of WriteRequestHandler
abbrev pub write_done : Session → Session
write_done s =
    let c = s.conn in
    record s {
      conn = record c { send_mem_pointer = none; throw_send_count = c.throw_send_count -ℤ pos 1 };
    }

-- SendQueueThread, once the message has been taken out of the queue.
unfoldable pub start_send : SendOutcome → Bool → Message → Session → Session
start_send outcome answer m s =
    let c = s.conn in
    let t = record s {
      conn = record c {
        send_count = c.send_count -ℤ pos 1;
        send_mem_pointer = some m;
        send_buf = 0;
        send_len = pkg_len m.packet;
      };
    } in
    elim outcome [
      | some_sent n ↦
          if n == t.conn.send_len then release_send t else wait_writable answer (sent_part n t)
      | peer_closed ↦ release_send t
      | buffer_full ↦ wait_writable answer t
      | broken ↦ release_send t
    ]

-- What becomes of a message in a walk: it is out of date, it waits, or it is sent.
pub data Turn : Type 0 where
  out_of_date waits sends : Turn

unfoldable pub turn : Message → Socket → Turn
turn m s =
    let c = s.conns m.conn in
    if not (c.sequence_num == m.cur_sequence_num)
    then out_of_date
    else if ltb_ℤ (pos 0) c.throw_send_count
    then waits
    else sends

-- One walk of SendQueueThread over the messages that are left, `kept` being those passed over. The
-- answers are those for the messages that it sends; without one the thread is still in the call.
unfoldable pub send_walk : List (SendOutcome × Bool) → List Message → List Message → Socket → Socket
send_walk answers kept [] s = s
send_walk [] kept (m ∷ rest) s = elim (turn m s) [
  | out_of_date ↦ send_walk [] kept rest (record s { send_message_queue = kept ++ rest })
  | waits ↦ send_walk [] (kept ++ m ∷ []) rest s
  | sends ↦ s
]
send_walk (a ∷ answers) kept (m ∷ rest) s =
    let left = record s { send_message_queue = kept ++ rest } in
    elim (turn m s) [
      | out_of_date ↦ send_walk (a ∷ answers) kept rest left
      | waits ↦ send_walk (a ∷ answers) (kept ++ m ∷ []) rest s
      | sends ↦ send_walk answers kept rest (with_conn m.conn (start_send a.0 a.1 m) left)
    ]

-- Socket::WriteRequestHandler
unfoldable pub write_request_handler : SendOutcome → Bool → Session → Session
write_request_handler outcome answer s =
    let given_up = write_done s in
    let all = write_done ((epoll_oper_event ctl_mod epoll_out 1 answer s).0) in
    elim outcome [
      | some_sent n ↦ if n == s.conn.send_len then all else sent_part n s
      | peer_closed ↦ given_up
      | buffer_full ↦ s
      | broken ↦ given_up
    ]

-- ===== src/Net/Receive.antt =====
-- app/net/hao_socket_request.cpp, the receiving half: from bytes to whole packets.
-- `recv` gives bytes (none: the peer has closed), or fails with an error number. The contents of
-- fresh memory are a parameter. A handler that reads the clock more than once sees one time.
-- `none` is a fault, the use of a freed timer event.
pub mod Framing
pub mod Holding
pub mod Body
pub mod Header
pub mod Step
pub mod Stream
pub mod Room
use hao_server.Base.{
  ℕ, ◌+◌, ◌-◌, Bool, true, false, ◌||◌, List, [], ◌∷◌, ◌++◌, Option, none, some, ltb, ◌==◌,
  if◌then◌else◌, ◌>>=◌, length, take, overwrite,
}
use hao_server.Base.Int.{ℤ, pos, negsuc}
use hao_server.Timestamp.{Timestamp}
use hao_server.Net.State.{
  Message, Connection, Cursor, in_head, in_packet, Session, PkgState, head_init, head_recving,
  body_init, body_recving, pkg_header_len, pkg_max_length, pkg_len,
}
use hao_server.Net.Close.{zd_close_socket_proc}
use hao_server.Net.Flood.{test_flood}

pub data Errno : Type 0 where
  eagain eintr econnreset ebadf other : Errno

pub data Recv : Type 0 where
  received : List ℕ → Recv
  failed : Errno → Recv

-- The bytes are written where precv_buf points.
pub write_packet : Option Message → ℕ → List ℕ → Option Message
write_packet none i bytes = none
write_packet (some m) i bytes = some (record m { packet = overwrite m.packet i bytes })

pub write_at : Cursor → List ℕ → Connection → Connection
write_at (in_head i) bytes c = record c { head_info = overwrite c.head_info i bytes }
write_at (in_packet i) bytes c = record c {
  precv_mem_pointer = write_packet c.precv_mem_pointer i bytes;
}

abbrev pub advance : Cursor → ℕ → Cursor
advance (in_head i) n = in_head (i + n)
advance (in_packet i) n = in_packet (i + n)

-- The error numbers for which RecvProc closes the connection.
abbrev pub closes : Errno → Bool
closes eagain = false
closes eintr = false
closes e = true

-- Socket::RecvProc, which receives at precv_buf.
pub recv_proc : Timestamp → Recv → Session → Option (Session × ℤ)
recv_proc now (received []) s = zd_close_socket_proc now s >>= λ t. some (t, pos 0)
recv_proc now (received (b ∷ bs)) s =
    some (record s { conn = write_at s.conn.precv_buf (b ∷ bs) s.conn }, pos (length (b ∷ bs)))
recv_proc now (failed e) s =
    if closes e
    then zd_close_socket_proc now s >>= (λ t. some (t, negsuc 0))
    else some (s, negsuc 0)

-- Back to the start of a packet.
abbrev pub restart : Connection → Connection
restart c = record c { cur_stat = head_init; precv_buf = in_head 0; recv_len = pkg_header_len }

-- g_threadpool.PushTask of HandleMessage with precv_mem_pointer
abbrev pub push_message : Option Message → Session → Session
push_message none s = s
push_message (some m) s = record s { socket = record s.socket { tasks = s.socket.tasks ++ m ∷ [] } }

-- Socket::WaitRequestHandlerProcPlast
pub proc_plast : Timestamp → Bool → Session → Option Session
proc_plast now is_flood s = do
  t ←
      if is_flood
      then zd_close_socket_proc now s
      else some (push_message s.conn.precv_mem_pointer s)
  some (record t { conn = restart (record t.conn { precv_mem_pointer = none }) })

-- The test for a flood that is made if it is switched on, and the handling of the whole packet.
abbrev pub finish_packet : Timestamp → Session → Option (Session × Bool)
finish_packet now s =
    let (t, is_flood) = if s.socket.flood_ak_enable then test_flood now s else (s, false) in
    proc_plast now is_flood t >>= λ u. some (u, is_flood)

-- Room for the next bytes of a header or body that is not complete.
abbrev pub wait_for_more : PkgState → ℕ → Session → Option (Session × Bool)
wait_for_more st n s =
    let c = s.conn in
    some (
      record s {
        conn = record c {
          cur_stat = st;
          precv_buf = advance c.precv_buf n;
          recv_len = c.recv_len - n;
        };
      },
      false,
    )

module _ (malloc : ℕ → List ℕ) where
  -- Socket::WaitRequestHandlerProcP1
  pub proc_p1 : Timestamp → Session → Option (Session × Bool)
  proc_p1 now s =
      let c = s.conn in
      let n = pkg_len c.head_info in
      if ltb n pkg_header_len || ltb (pkg_max_length - pkg_header_len) n
      then some (record s { conn = restart c }, false)
      else (let m : Message = record {
        conn = c.id;
        cur_sequence_num = c.sequence_num;
        packet = overwrite (malloc n) 0 (take pkg_header_len c.head_info);
      } in
          let t = record s { conn = record c { precv_mem_pointer = some m } } in
          if n == pkg_header_len
          then finish_packet now t
          else some (
            record t {
              conn = record t.conn {
                cur_stat = body_init;
                precv_buf = in_packet pkg_header_len;
                recv_len = n - pkg_header_len;
              };
            },
            false,
          ))

  -- The four states of ReadRequestHandler, after `n` bytes have come.
  pub got_bytes : PkgState → Timestamp → ℕ → Session → Option (Session × Bool)
  got_bytes head_init now n s =
      if n == pkg_header_len then proc_p1 now s else wait_for_more head_recving n s
  got_bytes head_recving now n s =
      if s.conn.recv_len == n then proc_p1 now s else wait_for_more head_recving n s
  got_bytes body_init now n s =
      if n == s.conn.recv_len then finish_packet now s else wait_for_more body_recving n s
  got_bytes body_recving now n s =
      if s.conn.recv_len == n then finish_packet now s else wait_for_more body_recving n s

  -- What follows RecvProc: a result of zero or less ends the call.
  pub after_recv : Timestamp → Session × ℤ → Option Session
  after_recv now (s, negsuc k) = some s
  after_recv now (s, pos n) = if n == 0 then some s else (do
    (t, is_flood) ← got_bytes s.conn.cur_stat now n s
    if is_flood then zd_close_socket_proc now t else some t)

  -- Socket::ReadRequestHandler
  pub read_request_handler : Timestamp → Recv → Session → Option Session
  read_request_handler now r s = recv_proc now r s >>= after_recv now

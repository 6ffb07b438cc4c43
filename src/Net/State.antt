-- ===== src/Net/State.antt =====
-- _include/hao_socket.h, _include/hao_common.h: the state of a connection and of the socket object.
-- A `Connection*` is the connection's id: the ids are given out by a counter that never goes back.
-- A descriptor or a timer id of -1 is `none`. Bytes are numbers.
use hao_server.Base.{ℕ, ◌+◌, ◌*◌, ◌^◌, ◌%◌, Bool, List, Option, get_or, ◌==◌, if◌then◌else◌}
use hao_server.Base.Int.{ℤ}
use hao_server.Timestamp.{Timestamp}
use hao_server.Timer.{Timer}

-- PKG_MAX_LENGTH, DATA_BUFSIZE and sizeof(PkgHeader)
abbrev pub pkg_max_length : ℕ
pkg_max_length = 30000

abbrev pub data_bufsize : ℕ
data_bufsize = 20

abbrev pub pkg_header_len : ℕ
pkg_header_len = 8

pub data PkgState : Type 0 where
  head_init head_recving body_init body_recving : PkgState

-- A message block: the message header and, behind it, the packet.
pub record Message : Type 0 where
  pub conn : ℕ
  pub cur_sequence_num : ℕ
  pub packet : List ℕ

-- The message header alone, which is what the timer queue keeps.
pub record MsgHeader : Type 0 where
  pub conn : ℕ
  pub cur_sequence_num : ℕ

-- ntohs and ntohl of the bytes from index `i` on
abbrev pub be16 : List ℕ → ℕ → ℕ
be16 bytes i = get_or bytes i 0 * 256 + get_or bytes (i + 1) 0

abbrev pub be32 : List ℕ → ℕ → ℕ
be32 bytes i = be16 bytes i * 65536 + be16 bytes (i + 2)

-- The fields of a PkgHeader at the front of `packet`.
abbrev pub pkg_len : List ℕ → ℕ
pkg_len packet = be16 packet 0

abbrev pub msg_code : List ℕ → ℕ
msg_code packet = be16 packet 2

abbrev pub crc32 : List ℕ → ℕ
crc32 packet = be32 packet 4

-- precv_buf: where the next bytes go, in head_info or in the packet of precv_mem_pointer
pub data Cursor : Type 0 where
  in_head : ℕ → Cursor
  in_packet : ℕ → Cursor

pub data Handler : Type 0 where
  event_accept read_request_handler write_request_handler unset : Handler

pub record Connection : Type 0 where
  pub id : ℕ
  pub fd : Option ℕ
  pub timer_id : Option ℕ
  pub sequence_num : ℕ
  pub read_handler : Handler
  pub write_handler : Handler
  pub events : ℕ
  pub cur_stat : PkgState
  pub head_info : List ℕ
  pub precv_buf : Cursor
  pub recv_len : ℕ
  pub precv_mem_pointer : Option Message
  pub throw_send_count : ℤ
  pub send_mem_pointer : Option Message
  -- send_buf as an index into the packet of send_mem_pointer
  pub send_buf : ℕ
  pub send_len : ℕ
  pub recycle_time : Timestamp
  pub last_ping_time : Timestamp
  pub flood_kick_last_time : Timestamp
  pub flood_attack_count : ℕ
  pub send_count : ℤ

-- What Socket::ReadConfig reads. Times are in seconds, the flood interval in milliseconds.
pub record NetConfig : Type 0 where
  pub worker_connections : ℕ
  pub recycle_connection_wait_time : ℕ
  pub if_kick_time_count : Bool
  pub wait_time : ℕ
  pub flood_ak_enable : Bool
  pub flood_time_interval : ℕ
  pub flood_kick_count : ℕ

pub record Socket : Type 0 where
  pub config : NetConfig
  pub open config use *
  pub conns : ℕ → Connection
  -- Connection::connection_count
  pub connection_count : ℕ
  pub connection_pool : List ℕ
  pub free_connection_pool : List ℕ
  pub total_connection_n : ℤ
  pub free_connection_n : ℤ
  pub recycle_connection_pool : List ℕ
  pub online_user_count : ℤ
  pub send_message_queue : List Message
  pub discard_send_pkg_count : ℕ
  pub timer : Timer MsgHeader
  -- the tasks given to g_threadpool, and the descriptors closed, oldest first
  pub tasks : List Message
  pub closed_fds : List ℕ

-- What a handler works on: the connection that it is given, and the socket object.
pub record Session : Type 0 where
  pub socket : Socket
  pub conn : Connection

-- ++sequence_num, of a uint64_t
abbrev pub next_sequence_num : ℕ → ℕ
next_sequence_num n = (n + 1) % 2 ^ 64

abbrev pub store : Socket → ℕ → Connection → Socket
store s i c = record s { conns = λ j. if i == j then c else s.conns j }

-- Run a handler on the connection with this id.
abbrev pub with_conn : ℕ → (Session → Session) → Socket → Socket
with_conn i f s = let r = f (record { socket = s; conn = s.conns i }) in store r.socket i r.conn

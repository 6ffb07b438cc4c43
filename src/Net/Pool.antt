-- ===== src/Net/Pool.antt =====
-- app/net/hao_socket_conn.cpp: the connection pool, and the queue of connections that wait to be
-- recycled.
pub mod Invariant
pub mod Recycle
pub mod Lend
pub mod Init
use hao_server.Base.{
  ℕ, zero, suc, Bool, false, ◌&&◌, ◌||◌, List, [], ◌∷◌, ◌++◌, Option, none, some, ◌==◌,
  if◌then◌else◌, length,
}
use hao_server.Base.Int.{pos, ◌+ℤ◌, ◌-ℤ◌}
use hao_server.Timestamp.{Timestamp, add_seconds, gt_time}
use hao_server.Net.State.{
  Connection, Socket, Session, with_conn, in_head, head_init, pkg_header_len, next_sequence_num,
  store,
}

-- Connection::GetOneToUse. It leaves send_count as it was.
unfoldable pub get_one_to_use : Timestamp → Connection → Connection
get_one_to_use now c = record c {
  sequence_num = next_sequence_num c.sequence_num;
  fd = none;
  cur_stat = head_init;
  precv_buf = in_head 0;
  recv_len = pkg_header_len;
  precv_mem_pointer = none;
  throw_send_count = pos 0;
  send_mem_pointer = none;
  events = 0;
  last_ping_time = now;
  flood_kick_last_time = record { micro_seconds_since_epoch = pos 0 };
  flood_attack_count = 0;
}

-- Connection::PutOneToFree. The two blocks are freed if they are there.
unfoldable pub put_one_to_free : Connection → Connection
put_one_to_free c = record c {
  sequence_num = next_sequence_num c.sequence_num;
  precv_mem_pointer = none;
  send_mem_pointer = none;
  throw_send_count = pos 0;
}

abbrev pub contains : ℕ → List ℕ → Bool
contains a [] = false
contains a (x ∷ xs) = (x == a) || contains a xs

-- Socket::FreeConnection
unfoldable pub free_connection : Session → Session
free_connection s =
    let socket = s.socket in
    record {
      conn = put_one_to_free s.conn;
      socket = record socket {
        free_connection_pool = socket.free_connection_pool ++ s.conn.id ∷ [];
        free_connection_n = socket.free_connection_n +ℤ pos 1;
      };
    }

-- Socket::InRecyConnectQueue
unfoldable pub in_recy_connect_queue : Timestamp → Session → Session
in_recy_connect_queue now s =
    let socket = s.socket in
    let c = s.conn in
    if contains c.id socket.recycle_connection_pool then s else record {
      conn = record c { recycle_time = now; sequence_num = next_sequence_num c.sequence_num };
      socket = record socket {
        recycle_connection_pool = c.id ∷ socket.recycle_connection_pool;
        online_user_count = socket.online_user_count -ℤ pos 1;
      };
    }

-- close(fd) and fd = -1, if the descriptor is open
unfoldable pub close_fd : Option ℕ → Session → Session
close_fd none s = s
close_fd (some fd) s =
    let socket = s.socket in
    record {
      conn = record s.conn { fd = none };
      socket = record socket { closed_fds = socket.closed_fds ++ fd ∷ [] };
    }

-- Socket::CloseConnection
unfoldable pub close_connection : Session → Session
close_connection s = let freed = free_connection s in close_fd freed.conn.fd freed

-- Is a connection still to be kept in the recycle queue?
abbrev pub still_waiting : Bool → Timestamp → Socket → ℕ → Bool
still_waiting running now s i =
    gt_time (add_seconds (s.conns i).recycle_time s.recycle_connection_wait_time) now && running

-- One walk of RecycleConnectionThread over the entries that are left, `kept` being those passed
-- over. The walk after the loop is that with `running` false.
pub recycle_walk : Bool → Timestamp → List ℕ → List ℕ → Socket → Socket
recycle_walk running now kept [] s = s
recycle_walk running now kept (i ∷ rest) s =
    let keep = recycle_walk running now (kept ++ i ∷ []) rest s in
    let freed =
      recycle_walk running now kept rest
        (with_conn i free_connection (record s { recycle_connection_pool = kept ++ rest })) in
    if still_waiting running now s i then keep else freed

pub recycle_connections : Bool → Timestamp → Socket → Socket
recycle_connections running now s = recycle_walk running now [] s.recycle_connection_pool s

-- `blank` is the zeroed memory of a new connection, with what its constructor leaves unset.
module _ (blank : Connection) where
  -- AllocMemory and the constructor: the id is the counter's value.
  abbrev pub constructed : Socket → Connection
  constructed s = record blank { id = s.connection_count; sequence_num = 0 }

  -- The branch of GetConnection that makes a new connection.
  unfoldable pub new_connection : Timestamp → ℕ → Socket → Socket × ℕ
  new_connection now fd s =
      let i = s.connection_count in
      (
        record (store s i (record (get_one_to_use now (constructed s)) { fd = some fd })) {
          connection_count = suc i;
          connection_pool = s.connection_pool ++ i ∷ [];
          total_connection_n = s.total_connection_n +ℤ pos 1;
        },
        i,
      )

  -- Socket::GetConnection, by the free connections. The result names the connection.
  unfoldable pub get_connection_from : List ℕ → Timestamp → ℕ → Socket → Socket × ℕ
  get_connection_from [] now fd s = new_connection now fd s
  get_connection_from (i ∷ rest) now fd s = (
    record (store s i (record (get_one_to_use now (s.conns i)) { fd = some fd })) {
      free_connection_pool = rest;
      free_connection_n = s.free_connection_n -ℤ pos 1;
    },
    i,
  )

  unfoldable pub get_connection : Timestamp → ℕ → Socket → Socket × ℕ
  get_connection now fd s = get_connection_from s.free_connection_pool now fd s

  -- The loop of Socket::InitConnectionPool, for the rounds left.
  unfoldable pub init_loop : ℕ → Timestamp → Socket → Socket
  init_loop zero now s = s
  init_loop (suc k) now s =
      let i = s.connection_count in
      init_loop k now (record (store s i (get_one_to_use now (constructed s))) {
        connection_count = suc i;
        connection_pool = s.connection_pool ++ i ∷ [];
        free_connection_pool = s.free_connection_pool ++ i ∷ [];
      })

  unfoldable pub init_connection_pool : Timestamp → Socket → Socket
  init_connection_pool now s =
      let filled = init_loop s.worker_connections now s in
      let n = pos (length filled.connection_pool) in
      record filled { total_connection_n = n; free_connection_n = n }

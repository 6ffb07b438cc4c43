-- ===== src/Tests/Fixtures.antt =====
-- Example states.
use hao_server.Base.{ℕ, false, List, [], none, some, replicate, length, ◌≡◌, length-replicate}
use hao_server.Base.Int.{pos}
use hao_server.Timestamp.{Timestamp}
use hao_server.Timer.{Timer, Event}
use hao_server.Net.State.{
  MsgHeader, Connection, NetConfig, Socket, Session, in_head, head_init, unset,
  read_request_handler, write_request_handler,
}

abbrev pub zero_time : Timestamp
zero_time = record { micro_seconds_since_epoch = pos 0 }

abbrev pub no_event : Event MsgHeader
no_event = record { min_heap_idx = none; ev_timeout = zero_time; user_data = none }

abbrev pub no_timers : Timer MsgHeader
no_timers = record {
  p = λ i. 0;
  n = 0;
  a = 0;
  ref = λ id. none;
  events = λ e. no_event;
  live = λ e. false;
  next = 0;
}

-- A zeroed connection.
abbrev pub blank : Connection
blank = record {
  id = 0;
  fd = none;
  timer_id = some 0;
  sequence_num = 0;
  read_handler = unset;
  write_handler = unset;
  events = 0;
  cur_stat = head_init;
  head_info = replicate 20 0;
  precv_buf = in_head 0;
  recv_len = 8;
  precv_mem_pointer = none;
  throw_send_count = pos 0;
  send_mem_pointer = none;
  send_buf = 0;
  send_len = 0;
  recycle_time = zero_time;
  last_ping_time = zero_time;
  flood_kick_last_time = zero_time;
  flood_attack_count = 0;
  send_count = pos 0;
}

abbrev pub quiet : NetConfig
quiet = record {
  worker_connections = 2;
  recycle_connection_wait_time = 150;
  if_kick_time_count = false;
  wait_time = 10;
  flood_ak_enable = false;
  flood_time_interval = 100;
  flood_kick_count = 10;
}

abbrev pub fresh_socket : Socket
fresh_socket = record {
  config = quiet;
  conns = λ i. blank;
  connection_count = 0;
  connection_pool = [];
  free_connection_pool = [];
  total_connection_n = pos 0;
  free_connection_n = pos 0;
  recycle_connection_pool = [];
  online_user_count = pos 0;
  send_message_queue = [];
  discard_send_pkg_count = 0;
  timer = no_timers;
  tasks = [];
  closed_fds = [];
}

-- A connected client.
abbrev pub client : Connection
client = record blank {
  id = 3;
  fd = some 9;
  sequence_num = 1;
  read_handler = read_request_handler;
  write_handler = write_request_handler;
}

abbrev pub connected : Session
connected = record { socket = fresh_socket; conn = client }

abbrev pub zeroed : ℕ → List ℕ
zeroed n = replicate n 0

pub length-zeroed : (n : ℕ) → length (zeroed n) ≡ n
length-zeroed n = length-replicate n 0

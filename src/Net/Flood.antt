-- ===== src/Net/Flood.antt =====
-- app/net/hao_socket.cpp, TestFlood: counting packets that come too fast.
pub mod Streak
use hao_server.Base.{Bool, ◌+◌, leb, if◌then◌else◌}
use hao_server.Timestamp.{Timestamp, minus, lt_milliseconds}
use hao_server.Net.State.{Session}

-- Socket::TestFlood. The result says whether the flood limit is reached.
unfoldable pub test_flood : Timestamp → Session → Session × Bool
test_flood now s =
    let c = s.conn in
    let count =
      if lt_milliseconds (minus now c.flood_kick_last_time) s.socket.flood_time_interval
      then c.flood_attack_count + 1
      else 0 in
    (
      record s { conn = record c { flood_attack_count = count; flood_kick_last_time = now } },
      leb s.socket.flood_kick_count count,
    )

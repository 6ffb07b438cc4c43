-- ===== src/Tests/Accept.antt =====
-- A client on a system without accept4.
use hao_server.Base.{refl, true, false, [], ◌∷◌, arith}
use hao_server.Net.Accept.{accepted, not_implemented, take_client, event_accept, has_room}
use hao_server.Net.Accept.Limit.{InLimit, event_accept-InLimit}
use hao_server.Net.Accept.Client.{Serves, take_client-Serves}
use hao_server.Net.State.{Socket}
use hao_server.Net.Pool.{get_connection}
use hao_server.Net.Pool.Invariant.{PoolInv}
use hao_server.Base.Int.{pos}
use hao_server.Tests.Fixtures.{blank, fresh_socket, zero_time}

event_accept-InLimit_example : InLimit (take_client blank true true true zero_time 7 fresh_socket)
unfolding event_accept
event_accept-InLimit_example =
    event_accept-InLimit blank (not_implemented ∷ accepted 7 ∷ []) true true zero_time true
      fresh_socket (take_client blank true true true zero_time 7 fresh_socket) false refl
      (omega arith)

abbrev stocked : Socket
stocked = record fresh_socket {
  conns = λ i. record blank { id = i };
  connection_count = 2;
  connection_pool = 0 ∷ 1 ∷ [];
  free_connection_pool = 0 ∷ [];
  total_connection_n = pos 2;
  free_connection_n = pos 1;
  online_user_count = pos 1;
}

stocked-PoolInv : PoolInv stocked
stocked-PoolInv = record {
  total = refl;
  free = refl;
  all_made = refl;
  free_known = (omega arith, tt);
  recycle_known = tt;
  distinct = λ i. ground arith;
  ids = λ i h. refl;
}

take_client-Serves_example :
    Serves stocked 7
      (take_client blank true true true zero_time 7 stocked)
      (get_connection blank zero_time 7 stocked).1
unfolding has_room
take_client-Serves_example =
    take_client-Serves blank refl true zero_time 7 stocked (λ j. refl) stocked-PoolInv refl

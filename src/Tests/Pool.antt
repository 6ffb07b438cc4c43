-- ===== src/Tests/Pool.antt =====
-- The pool at work: one connection is free, one waits to be recycled and one is in use.
use hao_server.Base.{ℕ, ◌+◌, ◌≡◌, refl, true, [], ◌∷◌, arith, count, if◌then◌else◌}
use hao_server.Base.Int.{pos}
use hao_server.Net.State.{Socket}
use hao_server.Net.Pool.{get_connection, recycle_connections}
use hao_server.Net.Pool.Invariant.{PoolInv, InUse}
use hao_server.Net.Pool.Recycle.{has_to_wait, recycle_connections-Walked}
use hao_server.Net.Pool.Lend.{here, next, gets, recycles, PoolRuns-PoolInv}
use hao_server.Tests.Fixtures.{zero_time, blank, fresh_socket}

abbrev busy : Socket
busy = record fresh_socket {
  conns = λ i. record blank { id = i };
  connection_count = 3;
  connection_pool = 0 ∷ 1 ∷ 2 ∷ [];
  free_connection_pool = 0 ∷ [];
  recycle_connection_pool = 1 ∷ [];
  total_connection_n = pos 3;
  free_connection_n = pos 1;
}

busy-PoolInv : PoolInv busy
busy-PoolInv = record {
  total = refl;
  free = refl;
  all_made = refl;
  free_known = (omega arith, tt);
  recycle_known = (omega arith, tt);
  distinct = λ i. ground arith;
  ids = λ i h. refl;
}

PoolRuns-PoolInv_example :
    PoolInv (recycle_connections true zero_time (get_connection blank zero_time 7 busy).0)
PoolRuns-PoolInv_example =
    PoolRuns-PoolInv blank busy
      (recycle_connections true zero_time (get_connection blank zero_time 7 busy).0)
      (next (next here (gets zero_time 7)) (recycles true zero_time)) busy-PoolInv

recycle_connections-Walked_example :
    let r = recycle_connections true zero_time busy in
    PoolInv r
    × ((i : ℕ)
        → (count i r.recycle_connection_pool ≡ (
            if has_to_wait true zero_time busy i then count i busy.recycle_connection_pool else 0))
          × (count i r.free_connection_pool
              ≡ count i busy.free_connection_pool
                + (if has_to_wait true zero_time busy i
                    then 0
                    else count i busy.recycle_connection_pool)))
    × ((i : ℕ) → InUse busy i → r.conns i ≡ busy.conns i)
recycle_connections-Walked_example = recycle_connections-Walked true zero_time busy busy-PoolInv

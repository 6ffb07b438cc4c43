-- ===== src/Net/Pool/Init.antt =====
-- InitConnectionPool (app/net/hao_socket_conn.cpp).
use hao_server.Base.{
  ℕ, zero, suc, ◌+◌, ◌≤◌, ◌<◌, ◌≡◌, refl, sym, ap, ◌∙◌, [], ◌∷◌, ◌++◌, arith, length, length-append,
  count, count-append, count_above, All, All-append, All-map,
}
use hao_server.Base.Int.{pos}
use hao_server.Timestamp.{Timestamp}
use hao_server.Net.State.{Connection, Socket, store}
use hao_server.Net.Pool.{get_one_to_use, init_loop, init_connection_pool}
use hao_server.Net.Pool.Invariant.{PoolInv}

-- A pool that has lent nothing yet, before the counters are set.
record Filled (s : Socket) : Type 0 where
  all_made : length s.connection_pool ≡ s.connection_count
  all_free : length s.free_connection_pool ≡ s.connection_count
  free_known : All (λ i. i < s.connection_count) s.free_connection_pool
  none_recycled : s.recycle_connection_pool ≡ []
  distinct : (i : ℕ) → count i s.free_connection_pool ≤ 1
  ids : (i : ℕ) → i < s.connection_count → (s.conns i).id ≡ i

module _ (blank : Connection) (now : Timestamp) where
  init_loop-Filled :
      (k : ℕ) (s : Socket)
      → Filled s
      → Filled (init_loop blank k now s)
        × ((init_loop blank k now s).connection_count ≡ k + s.connection_count)
  unfolding init_loop get_one_to_use
  init_loop-Filled zero s v = (v, omega arith)
  init_loop-Filled (suc k) s v =
      let i = s.connection_count in
      let t : Socket =
        record (store s i (get_one_to_use now (record blank { id = i; sequence_num = 0 }))) {
          connection_count = suc i;
          connection_pool = s.connection_pool ++ i ∷ [];
          free_connection_pool = s.free_connection_pool ++ i ∷ [];
        } in
      let rest = init_loop-Filled k t (record {
        all_made = omega (arith, v.all_made, length-append s.connection_pool (i ∷ []));
        all_free = omega (arith, v.all_free, length-append s.free_connection_pool (i ∷ []));
        free_known = (All-append _ s.free_connection_pool (i ∷ [])).0 (
          All-map _ _ s.free_connection_pool (λ j h. omega arith) v.free_known,
          (omega arith, tt),
        );
        none_recycled = v.none_recycled;
        distinct = λ j. ground (
          arith,
          v.distinct j,
          count-append j s.free_connection_pool (i ∷ []),
          count_above j i s.free_connection_pool,
          v.free_known,
        );
        ids = λ j h. ground (arith, v.ids j);
      }) in
      (rest.0, rest.1 ∙ omega arith)

  -- On an empty socket object InitConnectionPool makes as many connections as are configured, all
  -- of them free, and sets the counters to their number.
  pub init_connection_pool-PoolInv :
      (s : Socket)
      → s.connection_pool ≡ []
      → s.free_connection_pool ≡ []
      → s.recycle_connection_pool ≡ []
      → s.connection_count ≡ 0
      → PoolInv (init_connection_pool blank now s)
        × (length (init_connection_pool blank now s).free_connection_pool ≡ s.worker_connections)
        × (length (init_connection_pool blank now s).connection_pool ≡ s.worker_connections)
  unfolding init_connection_pool
  init_connection_pool-PoolInv s e f g h =
      let r = init_loop-Filled s.worker_connections s (record {
        all_made = rw (e, h);
        all_free = rw (f, h);
        free_known = rw f tt;
        none_recycled = g;
        distinct = λ i. omega (arith, ap (count i) f);
        ids = λ i k. absurd (omega arith);
      }) in
      (
        record {
          total = refl;
          free = ap pos (r.0.all_made ∙ sym r.0.all_free);
          all_made = r.0.all_made;
          free_known = r.0.free_known;
          recycle_known = rw r.0.none_recycled tt;
          distinct = λ i. omega (arith, r.0.distinct i, ap (count i) r.0.none_recycled);
          ids = r.0.ids;
        },
        omega (arith, r.0.all_free, r.1),
        omega (arith, r.0.all_made, r.1),
      )

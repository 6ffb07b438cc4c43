-- ===== src/Net/Pool/Lend.antt =====
-- GetConnection (app/net/hao_socket_conn.cpp), and the pool over the life of a worker process.
use hao_server.Base.{
  subst, ℕ, ◌<◌, ◌≡◌, refl, sym, ap, Bool, true, List, [], ◌∷◌, arith, ◌==◌, count, length, some,
  count_above, Option,
}
use hao_server.Timestamp.{Timestamp}
use hao_server.Net.State.{Connection, Socket, store, with_conn, data_bufsize}
use hao_server.Net.Receive.Holding.{Holds}
use hao_server.Net.Pool.{
  get_one_to_use, in_recy_connect_queue, close_connection, recycle_connections, new_connection,
  get_connection_from, get_connection,
}
use hao_server.Net.Pool.Invariant.{
  PoolInv, InUse, get_connection_from-PoolInv, close-PoolInv, in_recy-PoolInv,
}
use hao_server.Net.Pool.Recycle.{recycle_connections-Walked}

get_one_to_use-Holds :
    (now : Timestamp) (fd : Option ℕ) (c : Connection)
    → length c.head_info ≡ data_bufsize
    → Holds [] (record (get_one_to_use now c) { fd = fd })
unfolding get_one_to_use
get_one_to_use-Holds now fd c room = record {
  room = room;
  stage =
      (record { short = omega arith; cursor = refl; missing = omega arith; bytes = refl }, refl);
}

same : (i : ℕ) → (i == i) ≡ true
same i = ground arith

store_self : (s : Socket) (i : ℕ) (c : Connection) → (store s i c).conns i ≡ c
store_self s i c = rw (same i)

-- `r` is `s` with connection `i` handed out for the descriptor `fd`.
pub record Lent (s : Socket) (fd : ℕ) (r : Socket) (i : ℕ) : Type 0 where
  pub inv : PoolInv r
  pub in_use : InUse r i
  pub was_not : ¬ InUse s i
  pub others : (j : ℕ) → InUse s j → InUse r j × (r.conns j ≡ s.conns j)
  pub fd_is : (r.conns i).fd ≡ some fd
  pub ready : Holds [] (r.conns i)

module _ (blank : Connection) (blank_room : length blank.head_info ≡ data_bufsize) (now : Timestamp)
    (fd : ℕ) (s : Socket) (rooms : (j : ℕ) → length (s.conns j).head_info ≡ data_bufsize)
    (v : PoolInv s) where
  get_connection_from-Lent :
      (free : List ℕ)
      → s.free_connection_pool ≡ free
      → let r = get_connection_from blank free now fd s in Lent s fd r.0 r.1
  unfolding get_connection_from new_connection
  get_connection_from-Lent [] e = record {
    inv = get_connection_from-PoolInv blank now fd [] s e v;
    in_use = record {
      known = omega arith;
      not_free =
          count_above s.connection_count s.connection_count s.free_connection_pool (omega arith)
            v.free_known;
      not_recycling =
          count_above s.connection_count s.connection_count s.recycle_connection_pool (omega arith)
            v.recycle_known;
    };
    was_not = λ u. omega (arith, u.known);
    others = λ j u. (
      record {
        known = omega (arith, u.known);
        not_free = u.not_free;
        not_recycling = u.not_recycling;
      },
      ground (arith, u.known),
    );
    fd_is = ap (λ (c : Connection). c.fd) (store_self s s.connection_count _);
    ready =
        subst (Holds []) (sym (store_self s s.connection_count _))
          (get_one_to_use-Holds now (some fd) _ blank_room);
  }
  get_connection_from-Lent (k ∷ rest) e = record {
    inv = get_connection_from-PoolInv blank now fd (k ∷ rest) s e v;
    in_use = record {
      known = (rw e at v.free_known).0;
      not_free = ground (arith, v.distinct k, ap (count k) e);
      not_recycling = ground (arith, v.distinct k, ap (count k) e);
    };
    was_not = λ u. ground (arith, u.not_free, ap (count k) e);
    others = λ j u. (
      record {
        known = u.known;
        not_free = ground (arith, u.not_free, ap (count j) e);
        not_recycling = u.not_recycling;
      },
      ground (arith, u.not_free, ap (count j) e),
    );
    fd_is = ap (λ (c : Connection). c.fd) (store_self s k _);
    ready =
        subst (Holds []) (sym (store_self s k _))
          (get_one_to_use-Holds now (some fd) (s.conns k) (rooms k));
  }

  -- GetConnection keeps the counters and lists right, hands out a connection that was not in use,
  -- for the given descriptor and ready for a header, and leaves the other connections in use alone.
  pub get_connection-Lent : let r = get_connection blank now fd s in Lent s fd r.0 r.1
  unfolding get_connection
  get_connection-Lent = get_connection_from-Lent s.free_connection_pool refl

-- What happens to the pool: a connection is handed out, refused after it was handed out, put into
-- the recycle queue (also more than once), and the queue is walked.
pub data PoolStep (blank : Connection) (s : Socket) : Socket → Type 0 where
  gets : (now : Timestamp) (fd : ℕ) → PoolStep blank s (get_connection blank now fd s).0
  refuses : (i : ℕ) → InUse s i → PoolStep blank s (with_conn i close_connection s)
  retires :
      (now : Timestamp) (i : ℕ)
      → i < s.connection_count
      → count i s.free_connection_pool ≡ 0
      → PoolStep blank s (with_conn i (in_recy_connect_queue now) s)
  recycles :
      (running : Bool) (now : Timestamp) → PoolStep blank s (recycle_connections running now s)

pub data PoolRuns (blank : Connection) (s : Socket) : Socket → Type 0 where
  here : PoolRuns blank s s
  next : {t u : Socket} → PoolRuns blank s t → PoolStep blank t u → PoolRuns blank s u

PoolStep-PoolInv : (blank : Connection) {s t : Socket} → PoolStep blank s t → PoolInv s → PoolInv t
unfolding get_connection
PoolStep-PoolInv blank {s} (gets now fd) v =
    get_connection_from-PoolInv blank now fd s.free_connection_pool s refl v
PoolStep-PoolInv blank {s} (refuses i u) v = close-PoolInv s i v u
PoolStep-PoolInv blank {s} (retires now i h e) v = in_recy-PoolInv now s i v h e
PoolStep-PoolInv blank {s} (recycles running now) v = (recycle_connections-Walked running now s v).0

-- A history of the pool lends connections, walks the recycle queue, closes connections that are in use,
-- neither free nor waiting, and puts connections that are known and not free into the queue, where those
-- that wait there already stay. Over any such history the counters count the lists, and no
-- connection is in the free pool and the recycle queue at once, or twice in either.
pub PoolRuns-PoolInv :
    (blank : Connection) (s t : Socket) → PoolRuns blank s t → PoolInv s → PoolInv t
PoolRuns-PoolInv blank s t here v = v
PoolRuns-PoolInv blank s t (next {t = m} r st) v =
    PoolStep-PoolInv blank st (PoolRuns-PoolInv blank s m r v)

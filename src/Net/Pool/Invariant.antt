-- ===== src/Net/Pool/Invariant.antt =====
-- The bookkeeping of the connection pool (app/net/hao_socket_conn.cpp): the counters are right, and
-- a connection is in at most one of the free pool and the recycle queue, and there once.
use hao_server.Base.{
  ℕ, suc, ◌+◌, ◌≤◌, ◌<◌, ◌≡◌, refl, sym, ap, ◌∙◌, false, List, [], ◌∷◌, ◌++◌, arith, ◌==◌,
  if◌then◌else◌, length, length-append, count, count-append, All, All-append, All-map, Bool-cases,
  inl, inr, Option, none, some,
}
use hao_server.Base.Int.{pos, ◌+ℤ◌, ◌-ℤ◌}
use hao_server.Timestamp.{Timestamp}
use hao_server.Net.State.{Connection, Socket, Session, store, with_conn}
use hao_server.Net.Pool.{
  get_one_to_use, put_one_to_free, contains, free_connection, in_recy_connect_queue, close_fd,
  close_connection, new_connection, get_connection_from,
}

pub record PoolInv (s : Socket) : Type 0 where
  pub total : s.total_connection_n ≡ pos (length s.connection_pool)
  pub free : s.free_connection_n ≡ pos (length s.free_connection_pool)
  pub all_made : length s.connection_pool ≡ s.connection_count
  pub free_known : All (λ i. i < s.connection_count) s.free_connection_pool
  pub recycle_known : All (λ i. i < s.connection_count) s.recycle_connection_pool
  pub distinct : (i : ℕ) → count i s.free_connection_pool + count i s.recycle_connection_pool ≤ 1
  pub ids : (i : ℕ) → i < s.connection_count → (s.conns i).id ≡ i

-- A connection that has been handed out and is neither free nor waiting to be recycled.
pub record InUse (s : Socket) (i : ℕ) : Type 0 where
  pub known : i < s.connection_count
  pub not_free : count i s.free_connection_pool ≡ 0
  pub not_recycling : count i s.recycle_connection_pool ≡ 0

plus_one : (n : ℕ) → pos n +ℤ pos 1 ≡ pos (suc n)
unfolding ◌+ℤ◌
plus_one n = ground arith

minus_one : (n : ℕ) → pos (suc n) -ℤ pos 1 ≡ pos n
unfolding ◌-ℤ◌
minus_one n = ground arith

length-snoc : (xs : List ℕ) (i : ℕ) → length (xs ++ i ∷ []) ≡ suc (length xs)
length-snoc xs i = omega (arith, length-append xs (i ∷ []))

All-lt_suc : (n : ℕ) (xs : List ℕ) → All (λ i. i < n) xs → All (λ i. i < suc n) xs
All-lt_suc n xs = All-map _ _ xs (λ i h. omega arith)

count-contains : (i : ℕ) (xs : List ℕ) → contains i xs ≡ false → count i xs ≡ 0
count-contains i [] e = refl
count-contains i (x ∷ xs) e = ground (arith, count-contains i xs)

module _ (blank : Connection) (now : Timestamp) (fd : ℕ) where
  pub get_connection_from-PoolInv :
      (free : List ℕ) (s : Socket)
      → s.free_connection_pool ≡ free
      → PoolInv s
      → PoolInv (get_connection_from blank free now fd s).0
  unfolding get_connection_from new_connection get_one_to_use
  get_connection_from-PoolInv [] s e v = record {
    total = rw v.total (
        plus_one (length s.connection_pool)
        ∙ ap pos (sym (length-snoc s.connection_pool s.connection_count)));
    free = v.free;
    all_made = length-snoc s.connection_pool s.connection_count ∙ ap suc v.all_made;
    free_known = All-lt_suc _ _ v.free_known;
    recycle_known = All-lt_suc _ _ v.recycle_known;
    distinct = v.distinct;
    ids = λ i h. ground (arith, v.ids i);
  }
  get_connection_from-PoolInv (k ∷ rest) s e v = record {
    total = v.total;
    free = rw (rw e at v.free) (minus_one (length rest));
    all_made = v.all_made;
    free_known = (rw e at v.free_known).1;
    recycle_known = v.recycle_known;
    distinct = λ i. omega (arith, v.distinct i, ap (count i) e);
    ids = λ i h. ground (arith, v.ids i);
  }

-- FreeConnection of a connection that is in neither list, when the recycle queue is `queue`.
pub free-PoolInv :
    (s : Socket) (i : ℕ) (queue : List ℕ)
    → PoolInv s
    → i < s.connection_count
    → All (λ j. j < s.connection_count) queue
    → ((j : ℕ) → (if i == j then 1 else 0) + count j s.free_connection_pool + count j queue ≤ 1)
    → PoolInv (with_conn i free_connection (record s { recycle_connection_pool = queue }))
unfolding free_connection put_one_to_free
free-PoolInv s i queue v h known apart = record {
  total = v.total;
  free = rw v.free (
      plus_one (length s.free_connection_pool)
      ∙ ap pos (sym (length-snoc s.free_connection_pool _)));
  all_made = v.all_made;
  free_known = (All-append _ s.free_connection_pool _).0 (v.free_known, (rw (v.ids i h) h, tt));
  recycle_known = known;
  distinct = λ j. omega (
    arith,
    apart j,
    v.ids i h,
    count-append j s.free_connection_pool ((s.conns i).id ∷ []),
    ap (λ k. count j (k ∷ [])) (v.ids i h),
  );
  ids = λ j k. ground (arith, v.ids j k, v.ids i h);
}

close_fd-PoolInv :
    (fd : Option ℕ) (t : Session) (i : ℕ)
    → PoolInv (store t.socket i t.conn)
    → PoolInv (store (close_fd fd t).socket i (close_fd fd t).conn)
unfolding close_fd
close_fd-PoolInv none t i v = v
close_fd-PoolInv (some fd) t i v = record {
  total = v.total;
  free = v.free;
  all_made = v.all_made;
  free_known = v.free_known;
  recycle_known = v.recycle_known;
  distinct = v.distinct;
  ids = λ j h. ground (arith, v.ids j h);
}

-- CloseConnection of a connection in use.
pub close-PoolInv :
    (s : Socket) (i : ℕ) → PoolInv s → InUse s i → PoolInv (with_conn i close_connection s)
unfolding close_connection
close-PoolInv s i v u =
    let t : Session = record { socket = s; conn = s.conns i } in
    close_fd-PoolInv (free_connection t).conn.fd (free_connection t) i (
      free-PoolInv s i s.recycle_connection_pool v u.known v.recycle_known
        (λ j. ground (arith, v.distinct j, u.not_free, u.not_recycling)))

-- InRecyConnectQueue of a connection that is not free; it may be in the queue already.
pub in_recy-PoolInv :
    (now : Timestamp) (s : Socket) (i : ℕ)
    → PoolInv s
    → i < s.connection_count
    → count i s.free_connection_pool ≡ 0
    → PoolInv (with_conn i (in_recy_connect_queue now) s)
unfolding in_recy_connect_queue
in_recy-PoolInv now s i v h not_free =
    elim (Bool-cases (contains (s.conns i).id s.recycle_connection_pool)) [
      | inl old ↦ rw old (record {
        total = v.total;
        free = v.free;
        all_made = v.all_made;
        free_known = v.free_known;
        recycle_known = v.recycle_known;
        distinct = v.distinct;
        ids = λ j k. ground (arith, v.ids j k, v.ids i h);
      })
      | inr new ↦ rw new (record {
        total = v.total;
        free = v.free;
        all_made = v.all_made;
        free_known = v.free_known;
        recycle_known = (rw (v.ids i h) h, v.recycle_known);
        distinct = λ j. ground (
          arith,
          v.distinct j,
          v.ids i h,
          not_free,
          count-contains (s.conns i).id s.recycle_connection_pool new,
        );
        ids = λ j k. ground (arith, v.ids j k, v.ids i h);
      })
    ]

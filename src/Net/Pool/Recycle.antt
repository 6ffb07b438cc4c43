-- ===== src/Net/Pool/Recycle.antt =====
-- RecycleConnectionThread (app/net/hao_socket_conn.cpp): which connections a walk over the recycle
-- queue frees.
use hao_server.Base.{
  ℕ, ◌+◌, ◌*◌, ◌≡◌, refl, sym, ap, ◌∙◌, Bool, true, false, ◌&&◌, List, [], ◌∷◌, ◌++◌, arith, ◌==◌,
  if◌then◌else◌, count, count-append, All-append, Bool-cases, inl, inr, append_assoc,
}
use hao_server.Base.Int.{pos, ltb_ℤ, ◌+ℤ◌}
use hao_server.Timestamp.{Timestamp}
use hao_server.Net.State.{Socket, with_conn}
use hao_server.Net.Pool.{
  put_one_to_free, free_connection, still_waiting, recycle_walk, recycle_connections,
}
use hao_server.Net.Pool.Invariant.{PoolInv, InUse, free-PoolInv}

-- The walk from `s` over `rest` has ended in `r`: it has kept those for which `waits` holds, and
-- freed the others.
pub record Walked (waits : ℕ → Bool) (kept rest : List ℕ) (s r : Socket) : Type 0 where
  pub inv : PoolInv r
  pub queue :
      (i : ℕ)
      → count i r.recycle_connection_pool ≡ count i kept + (if waits i then count i rest else 0)
  pub free :
      (i : ℕ)
      → count i r.free_connection_pool
        ≡ count i s.free_connection_pool + (if waits i then 0 else count i rest)
  pub untouched : (i : ℕ) → count i rest ≡ 0 → r.conns i ≡ s.conns i

-- Freeing a connection moves no deadline.
still_waiting-free :
    (running : Bool) (now : Timestamp) (i j : ℕ) (s : Socket) (queue : List ℕ)
    → still_waiting running now
        (with_conn i free_connection (record s { recycle_connection_pool = queue }))
        j
      ≡ still_waiting running now s j
unfolding free_connection put_one_to_free
still_waiting-free running now i j s queue = elim (Bool-cases (i == j)) [
  | inl e ↦ rw (e, eq_of e)
  | inr e ↦ rw e
]
  where
    eq_of : (i == j) ≡ true → i ≡ j
    eq_of e = ground arith

module _ (running : Bool) (now : Timestamp) (waits : ℕ → Bool) where
  walk-Walked :
      (kept rest : List ℕ) (s : Socket)
      → PoolInv s
      → s.recycle_connection_pool ≡ kept ++ rest
      → ((j : ℕ) → still_waiting running now s j ≡ waits j)
      → Walked waits kept rest s (recycle_walk running now kept rest s)
  unfolding recycle_walk free_connection
  walk-Walked kept [] s v e w = record {
    inv = v;
    queue = λ i. ground (arith, ap (count i) e, count-append i kept []);
    free = λ i. ground arith;
    untouched = λ i h. refl;
  }
  walk-Walked kept (i ∷ rest) s v e w = elim (Bool-cases (still_waiting running now s i)) [
    | inl keep ↦
        let x =
          walk-Walked (kept ++ i ∷ []) rest s v (e ∙ sym (append_assoc kept (i ∷ []) rest)) w in
        rw keep (record {
          inv = x.inv;
          queue = λ j. ground (arith, x.queue j, count-append j kept (i ∷ []), w i, keep);
          free = λ j. ground (arith, x.free j, w i, keep);
          untouched = λ j h. x.untouched j (omega arith);
        })
    | inr drop ↦
        let (kept_known, known) = (All-append _ kept (i ∷ rest)).1 (rw e at v.recycle_known) in
        let x =
          walk-Walked kept rest
            (with_conn i free_connection (record s { recycle_connection_pool = kept ++ rest }))
            (free-PoolInv s i (kept ++ rest) v known.0
              ((All-append _ kept rest).0 (kept_known, known.1))
              (λ j. ground (
                arith,
                v.distinct j,
                ap (count j) e,
                count-append j kept (i ∷ rest),
                count-append j kept rest,
              )))
            refl (λ j. still_waiting-free running now i j s (kept ++ rest) ∙ w j) in
        rw drop (record {
          inv = x.inv;
          queue = λ j. ground (arith, x.queue j, w i, drop);
          free = λ j. ground (
            arith,
            x.free j,
            w i,
            drop,
            v.ids i known.0,
            count-append j s.free_connection_pool ((s.conns i).id ∷ []),
          );
          untouched = λ j h. x.untouched j (omega arith) ∙ ground arith;
        })
  ]

-- The server runs, and a connection of the queue has still to wait: the time at which it was put into
-- the queue and the wait time in seconds, as microseconds, add up to more than `now`.
abbrev pub has_to_wait : Bool → Timestamp → Socket → ℕ → Bool
has_to_wait false now s i = false
has_to_wait true now s i = ltb_ℤ now.micro_seconds_since_epoch (
    (s.conns i).recycle_time.micro_seconds_since_epoch
    +ℤ pos (s.recycle_connection_wait_time * 1000000))

still_waiting_lem :
    (running : Bool) (now : Timestamp) (s : Socket) (i : ℕ)
    → still_waiting running now s i ≡ has_to_wait running now s i
still_waiting_lem true now s i = with_true _
  where
    with_true : (b : Bool) → (b && true) ≡ b
    with_true true = refl
    with_true false = refl
still_waiting_lem false now s i = with_false _
  where
    with_false : (b : Bool) → (b && false) ≡ false
    with_false true = refl
    with_false false = refl

-- One walk over the recycle queue keeps the counters and the lists right, frees exactly the
-- connections that have waited for their time since they were put there (all of them if the server
-- is stopping), each once, and
-- leaves those in the queue that still wait; a connection that is in use is not touched.
pub recycle_connections-Walked :
    (running : Bool) (now : Timestamp) (s : Socket)
    → PoolInv s
    → let r = recycle_connections running now s in
      PoolInv r
      × ((i : ℕ)
          → (count i r.recycle_connection_pool
              ≡ (if has_to_wait running now s i then count i s.recycle_connection_pool else 0))
            × (count i r.free_connection_pool
                ≡ count i s.free_connection_pool
                  + (if has_to_wait running now s i then 0 else count i s.recycle_connection_pool)))
      × ((i : ℕ) → InUse s i → r.conns i ≡ s.conns i)
unfolding recycle_connections
recycle_connections-Walked running now s v =
    let x =
      walk-Walked running now (has_to_wait running now s) [] s.recycle_connection_pool s v refl
        (still_waiting_lem running now s) in
    (x.inv, (λ i. (x.queue i ∙ ground arith, x.free i)), λ i u. x.untouched i u.not_recycling)

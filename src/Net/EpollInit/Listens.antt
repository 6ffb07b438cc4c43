-- ===== src/Net/EpollInit/Listens.antt =====
-- What Epoll_init of app/net/hao_socket.cpp leaves behind.
use hao_server.Base.{
  ℕ, zero, suc, ◌≡◌, ◌≢◌, refl, sym, ap, subst, ◌∙◌, Bool, true, List, [], ◌∷◌, some, Bool-cases,
  inl, inr, ◌==◌, length, All, All-map,
}
use hao_server.Timestamp.{Timestamp}
use hao_server.Net.State.{Connection, Socket, event_accept, store, data_bufsize}
use hao_server.Net.Pool.{
  get_one_to_use, get_connection, get_connection_from, new_connection, init_loop,
  init_connection_pool,
}
use hao_server.Net.Pool.Invariant.{PoolInv, InUse}
use hao_server.Net.Pool.Init.{init_connection_pool-PoolInv}
use hao_server.Net.Pool.Lend.{Lent, get_connection-Lent}
use hao_server.Net.Accept.Client.{served-conn, served-PoolInv, served-InUse, served-others}
use hao_server.Net.Epoll.{epoll_oper_event}
use hao_server.Net.EpollInit.{listen_events, register_listening, epoll_init}

-- Each connection has the block for a header.
abbrev pub HasRooms : Socket → Type 0
HasRooms s = (j : ℕ) → length (s.conns j).head_info ≡ data_bufsize

-- Connection `i` waits for clients of the listening socket `fd`.
pub record Accepts (t : Socket) (fd i : ℕ) : Type 0 where
  pub in_use : InUse t i
  pub fd_is : (t.conns i).fd ≡ some fd
  pub accepts : (t.conns i).read_handler ≡ event_accept
  -- EPOLLIN, which is 1, and EPOLLRDHUP, which is 0x2000
  pub registered_for : (t.conns i).events ≡ 0x2001

abbrev pub EachAccepts : Socket → List ℕ → List ℕ → Type 0
EachAccepts t [] [] = Unit
EachAccepts t [] (i ∷ is) = ⊥
EachAccepts t (fd ∷ fds) [] = ⊥
EachAccepts t (fd ∷ fds) (i ∷ is) = Accepts t fd i × EachAccepts t fds is

abbrev pub AreDistinct : List ℕ → Type 0
AreDistinct [] = Unit
AreDistinct (i ∷ is) = All (λ k. k ≢ i) is × AreDistinct is

-- The connections `is` serve the listening sockets `fds`; those that were in use are as they were.
pub record Listens (s t : Socket) (fds is : List ℕ) : Type 0 where
  pub inv : PoolInv t
  pub each : EachAccepts t fds is
  pub distinct : AreDistinct is
  pub fresh : All (λ k. ¬ InUse s k) is
  pub others : (j : ℕ) → InUse s j → InUse t j × (t.conns j ≡ s.conns j)

stored-room :
    (s : Socket) (i : ℕ) (c : Connection)
    → HasRooms s
    → length c.head_info ≡ data_bufsize
    → HasRooms (store s i c)
stored-room s i c rooms room j = elim (Bool-cases (i == j)) [
  | inl same ↦ rw same room
  | inr other ↦ rw other (rooms j)
]

module _ (blank : Connection) (blank_room : length blank.head_info ≡ data_bufsize)
    (now : Timestamp) where
  get_connection_from-HasRooms :
      (free : List ℕ) (fd : ℕ) (s : Socket)
      → HasRooms s
      → HasRooms (get_connection_from blank free now fd s).0
  unfolding get_connection_from new_connection get_one_to_use
  get_connection_from-HasRooms [] fd s rooms = stored-room s s.connection_count _ rooms blank_room
  get_connection_from-HasRooms (i ∷ free) fd s rooms = stored-room s i _ rooms (rooms i)

  get_connection-HasRooms :
      (fd : ℕ) (s : Socket) → HasRooms s → HasRooms (get_connection blank now fd s).0
  unfolding get_connection
  get_connection-HasRooms fd s rooms =
      get_connection_from-HasRooms s.free_connection_pool fd s rooms

  init_loop-HasRooms : (k : ℕ) (s : Socket) → HasRooms s → HasRooms (init_loop blank k now s)
  unfolding init_loop get_one_to_use
  init_loop-HasRooms zero s rooms = rooms
  init_loop-HasRooms (suc k) s rooms =
      init_loop-HasRooms k _ (stored-room s s.connection_count _ rooms blank_room)

  init_connection_pool-HasRooms :
      (s : Socket) → HasRooms s → HasRooms (init_connection_pool blank now s)
  unfolding init_connection_pool
  init_connection_pool-HasRooms s rooms = init_loop-HasRooms s.worker_connections s rooms

  -- A connection with the handler and the events of a listening socket
  abbrev listening : Connection → Connection
  listening c = record c { read_handler = event_accept; events = listen_events }

  module _ (s : Socket) (fd : ℕ) (r : Socket) (i : ℕ) (l : Lent s fd r i) where
    abbrev after_one : Socket
    after_one = store r i (listening (r.conns i))

    one-InUse : InUse after_one i
    one-InUse =
        served-InUse s fd r i l (listening (r.conns i)) r.timer r.online_user_count i l.in_use

    one-others : (j : ℕ) → InUse s j → InUse after_one j × (after_one.conns j ≡ s.conns j)
    one-others = served-others s fd r i l (listening (r.conns i)) r.timer r.online_user_count

    one-PoolInv : PoolInv after_one
    one-PoolInv =
        served-PoolInv s fd r i l (listening (r.conns i)) r.timer r.online_user_count
          (l.inv.ids i l.in_use.known)

    one-Accepts : (t : Socket) → InUse t i → t.conns i ≡ after_one.conns i → Accepts t fd i
    one-Accepts t used e =
        let is : t.conns i ≡ listening (r.conns i) =
          e ∙ served-conn s fd r i l (listening (r.conns i)) r.timer r.online_user_count in
        record {
          in_use = used;
          fd_is = ap (λ (c : Connection). c.fd) is ∙ l.fd_is;
          accepts = ap (λ (c : Connection). c.read_handler) is;
          registered_for = ap (λ (c : Connection). c.events) is;
        }

    more-Listens :
        {t : Socket} {fds is : List ℕ}
        → Listens after_one t fds is
        → Listens s t (fd ∷ fds) (i ∷ is)
    more-Listens {t} {fds} {is} more =
        let (used, same) = more.others i one-InUse in
        record {
          inv = more.inv;
          each = (one-Accepts t used same, more.each);
          distinct = (
            All-map _ _ is (λ k not_used e. not_used (subst (InUse after_one) (sym e) one-InUse))
                more.fresh,
            more.distinct,
          );
          fresh =
              (l.was_not, All-map _ _ is (λ k not_used u. not_used (one-others k u).0) more.fresh);
          others = λ j u.
              let (still, kept) = one-others j u in
              let (last, kept_last) = more.others j still in (last, kept_last ∙ kept);
        }

  module _ (registered : ℕ → Bool) (all_registered : (fd : ℕ) → registered fd ≡ true) where
    register_listening-Listens :
        (fds : List ℕ) (s : Socket)
        → HasRooms s
        → PoolInv s
        → (t : Socket) × (is : List ℕ) × (register_listening blank now registered fds s
            ≡ some (t, is))
          × Listens s t fds is
    unfolding register_listening epoll_oper_event
    register_listening-Listens [] s rooms v = (
      s,
      [],
      refl,
      record { inv = v; each = tt; distinct = tt; fresh = tt; others = λ j u. (u, refl) },
    )
    register_listening-Listens (fd ∷ fds) s rooms v =
        let got = get_connection blank now fd s in
        let l = get_connection-Lent blank blank_room now fd s rooms v in
        let got_rooms = get_connection-HasRooms fd s rooms in
        let next = after_one s fd (got.0) got.1 l in
        let (t, is, done, more) =
          register_listening-Listens fds next
            (stored-room (got.0) got.1 (listening ((got.0).conns got.1)) got_rooms
              (got_rooms got.1))
            (one-PoolInv s fd (got.0) got.1 l) in
        (t, got.1 ∷ is, rw (all_registered fd, done) refl, more-Listens s fd (got.0) got.1 l more)

    -- epoll_create1 and epoll_ctl succeed. On an empty pool whose connections have room for a header,
    -- Epoll_init does not exit: each listening socket has a connection of its own, which is in use,
    -- has its descriptor, accepts clients and is registered for reading, and the pool is consistent.
    pub epoll_init-Listens :
        (fds : List ℕ) (s : Socket)
        → HasRooms s
        → s.connection_pool ≡ []
        → s.free_connection_pool ≡ []
        → s.recycle_connection_pool ≡ []
        → s.connection_count ≡ 0
        → (t : Socket) × (is : List ℕ) × (epoll_init blank now registered true fds s ≡ some (t, is))
          × Listens (init_connection_pool blank now s) t fds is
    unfolding epoll_init
    epoll_init-Listens fds s rooms pool free recycle count_0 =
        register_listening-Listens fds (init_connection_pool blank now s)
          (init_connection_pool-HasRooms s rooms)
          (init_connection_pool-PoolInv blank now s pool free recycle count_0).0

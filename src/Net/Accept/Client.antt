-- ===== src/Net/Accept/Client.antt =====
-- What EventAccept of app/net/hao_socket_accept.cpp makes of a client that it takes.
use Prim.Native.Nat.{bit_or}
use hao_server.Base.{
  ℕ, ◌≡◌, refl, sym, ap, subst, ◌∙◌, Bool, true, false, [], ◌∷◌, ◌++◌, some, ◌&&◌, not, arith,
  Bool-cases, inl, inr, ◌<◌, ◌==◌, ==_iff, length, if◌then◌else◌,
}
use hao_server.Base.Int.{ℤ, pos, ◌+ℤ◌}
use hao_server.Timestamp.{Timestamp}
use hao_server.Timer.{Timer}
use hao_server.Net.State.{
  MsgHeader, Connection, Socket, Session, store, data_bufsize, read_request_handler,
  write_request_handler, PkgState, head_init, head_recving, body_init, body_recving,
}
use hao_server.Net.Pool.{get_connection, close_connection}
use hao_server.Net.Pool.Invariant.{PoolInv, InUse}
use hao_server.Net.Pool.Lend.{Lent, get_connection-Lent}
use hao_server.Net.Receive.Holding.{Holds, HoldsIn, InHead}
use hao_server.Net.Epoll.{epoll_in, epoll_rdhup, epoll_oper_event}
use hao_server.Net.Timers.{add_to_timer_queue}
use hao_server.Net.Accept.{has_room, welcome, set_up, take_client}

-- Connection `i` now serves the descriptor `fd`: it was not in use, it waits for a packet's header,
-- and the pool is consistent and the connections in use are what they were.
pub record Serves (s : Socket) (fd : ℕ) (t : Socket) (i : ℕ) : Type 0 where
  pub inv : PoolInv t
  pub in_use : InUse t i
  pub was_not : ¬ InUse s i
  pub others : (j : ℕ) → InUse s j → InUse t j × (t.conns j ≡ s.conns j)
  pub fd_is : (t.conns i).fd ≡ some fd
  pub ready : Holds [] (t.conns i)
  pub reads : (t.conns i).read_handler ≡ read_request_handler

same_key : (i : ℕ) → (i == i) ≡ true
same_key i = ground arith

module _ (s : Socket) (fd : ℕ) (r : Socket) (i : ℕ) (l : Lent s fd r i) (c : Connection)
    (timer : Timer MsgHeader) (online : ℤ) where
  abbrev pub served : Socket
  served = store (record r { timer = timer; online_user_count = online }) i c

  pub served-conn : served.conns i ≡ c
  served-conn = rw (same_key i) refl

  served-id : c.id ≡ i → (j : ℕ) → j < r.connection_count → (served.conns j).id ≡ j
  served-id e j h = elim (Bool-cases (i == j)) [
    | inl same ↦ rw same (e ∙ (==_iff i j).0 same)
    | inr other ↦ rw other (l.inv.ids j h)
  ]

  pub served-PoolInv : c.id ≡ i → PoolInv served
  served-PoolInv e = record {
    total = l.inv.total;
    free = l.inv.free;
    all_made = l.inv.all_made;
    free_known = l.inv.free_known;
    recycle_known = l.inv.recycle_known;
    distinct = l.inv.distinct;
    ids = served-id e;
  }

  pub served-InUse : (j : ℕ) → InUse r j → InUse served j
  served-InUse j u = record {
    known = u.known;
    not_free = u.not_free;
    not_recycling = u.not_recycling;
  }

  pub served-others : (j : ℕ) → InUse s j → InUse served j × (served.conns j ≡ s.conns j)
  served-others j u = elim (Bool-cases (i == j)) [
    | inl same ↦ absurd (l.was_not (subst (λ k. InUse s k) (sym ((==_iff i j).0 same)) u))
    | inr other ↦ (served-InUse j (l.others j u).0, rw other (l.others j u).1)
  ]

  served-Serves :
      c.id ≡ (r.conns i).id
      → c.fd ≡ (r.conns i).fd
      → Holds [] c
      → c.read_handler ≡ read_request_handler
      → Serves s fd served i
  served-Serves e f ready reads = record {
    inv = served-PoolInv (e ∙ l.inv.ids i l.in_use.known);
    in_use = served-InUse i l.in_use;
    was_not = l.was_not;
    others = served-others;
    fd_is = ap (λ k. k.fd) served-conn ∙ f ∙ l.fd_is;
    ready = subst (λ k. Holds [] k) (sym served-conn) ready;
    reads = ap (λ k. k.read_handler) served-conn ∙ reads;
  }

InHead-kept :
    (c d : Connection)
    → d.precv_buf ≡ c.precv_buf
    → d.recv_len ≡ c.recv_len
    → InHead [] c
    → InHead [] d
InHead-kept c d e f v = record {
  short = v.short;
  cursor = e ∙ v.cursor;
  missing = omega (arith, f, v.missing);
  bytes = refl;
}

HoldsIn-kept :
    (st : PkgState) (c d : Connection)
    → d.precv_buf ≡ c.precv_buf
    → d.recv_len ≡ c.recv_len
    → HoldsIn st [] c
    → HoldsIn st [] d
HoldsIn-kept head_init c d e f (v, q) = (InHead-kept c d e f v, q)
HoldsIn-kept head_recving c d e f v = InHead-kept c d e f v
HoldsIn-kept body_init c d e f v = absurd (omega (arith, v.header))
HoldsIn-kept body_recving c d e f v = absurd (omega (arith, v.header))

either_way : (P : Session → Type 0) (b : Bool) (x y : Session) → P x → P y → P (if b then x else y)
either_way P true x y p q = p
either_way P false x y p q = q

-- The end of EventAccept, with a timer or without.
welcome-Serves :
    (now : Timestamp) (s : Socket) (fd i : ℕ) (u : Session)
    → Lent s fd u.socket i
    → u.conn.id ≡ (u.socket.conns i).id
    → u.conn.fd ≡ (u.socket.conns i).fd
    → Holds [] u.conn
    → u.conn.read_handler ≡ read_request_handler
    → Serves s fd (store (welcome now u).socket i (welcome now u).conn) i
unfolding welcome add_to_timer_queue
welcome-Serves now s fd i u l e f ready reads =
    let timed = add_to_timer_queue now u in
    let online = u.socket.online_user_count +ℤ pos 1 in
    either_way
      (λ w.
        Serves s fd
          (store (record w.socket { online_user_count = w.socket.online_user_count +ℤ pos 1 }) i
            w.conn)
          i)
      u.socket.if_kick_time_count timed u
      (served-Serves s fd u.socket i l timed.conn timed.socket.timer online e f
        (record {
          room = ready.room;
          stage = HoldsIn-kept u.conn.cur_stat u.conn timed.conn refl refl ready.stage;
        })
        reads)
      (served-Serves s fd u.socket i l u.conn u.socket.timer online e f ready reads)

never : (b : Bool) → (b && not true) ≡ false
never true = refl
never false = refl

set_up-Serves :
    (plain : Bool) (now : Timestamp) (s : Socket) (fd i : ℕ) (r : Socket)
    → Lent s fd r i
    → let u = set_up plain true true now (record { socket = r; conn = r.conns i }) in
      Serves s fd (store u.socket i u.conn) i
unfolding set_up epoll_oper_event
set_up-Serves plain now s fd i r l =
    let c = r.conns i in
    let d = record c {
      read_handler = read_request_handler;
      write_handler = write_request_handler;
      events = bit_or epoll_in epoll_rdhup;
    } in
    let ready : Holds [] d = record {
      room = l.ready.room;
      stage = HoldsIn-kept c.cur_stat c d refl refl l.ready.stage;
    } in
    let u : Session = record { socket = r; conn = d } in
    subst (λ w. Serves s fd (store w.socket i w.conn) i)
      (ap (λ b. if b then close_connection (record { socket = r; conn = c }) else welcome now u)
        (sym (never plain)))
      (welcome-Serves now s fd i u l refl refl ready refl)

-- If the limits leave room, the pool is consistent, the header buffers have their size and
-- SetNonBlocking and epoll_ctl succeed, then the client is served by a connection that was not in
-- use: it has the client's descriptor, waits for a packet's header and is read by
-- ReadRequestHandler; the pool stays consistent and the connections in use stay what they are.
pub take_client-Serves :
    (blank : Connection)
    → length blank.head_info ≡ data_bufsize
    → (plain : Bool) (now : Timestamp) (fd : ℕ) (s : Socket)
    → ((j : ℕ) → length (s.conns j).head_info ≡ data_bufsize)
    → PoolInv s
    → has_room s ≡ true
    → Serves s fd (take_client blank plain true true now fd s) (get_connection blank now fd s).1
unfolding take_client
take_client-Serves blank blank_room plain now fd s rooms v room =
    let lent = get_connection blank now fd s in
    let u = set_up plain true true now (record { socket = lent.0; conn = lent.0.conns lent.1 }) in
    subst
      (λ b.
        Serves s fd
          (if b
            then store u.socket lent.1 u.conn
            else record s { closed_fds = s.closed_fds ++ fd ∷ [] })
          lent.1)
      (sym room)
      (set_up-Serves plain now s fd lent.1 lent.0
        (get_connection-Lent blank blank_room now fd s rooms v))

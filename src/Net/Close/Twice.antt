-- ===== src/Net/Close/Twice.antt =====
-- What zd_close_socket_proc (app/net/hao_socket.cpp) leaves behind, and its second call on one
-- connection, which ReadRequestHandler makes after a flood.
use hao_server.Base.{
  ℕ, zero, suc, [], ◌++◌, sym, ◌≡◌, refl, ap, ◌∙◌, true, false, List, ◌∷◌, Option, none, some,
  arith, Bool-cases, inl, inr,
}
use hao_server.Base.Int.{ℤ, pos, negsuc, ltb_ℤ, ◌-ℤ◌}
use hao_server.Timestamp.{Timestamp}
use hao_server.Net.State.{Session}
use hao_server.Net.Pool.{contains, close_fd, in_recy_connect_queue}
use hao_server.Net.Close.{zd_close_socket_proc, lower_throw_send_count}

-- The connection of the session is closed and waits to be recycled.
pub record Closed (t : Session) : Type 0 where
  pub fd_gone : t.conn.fd ≡ none
  pub waiting : contains t.conn.id t.socket.recycle_connection_pool ≡ true

pub close_fd-fd : (fd : Option ℕ) (s : Session) → s.conn.fd ≡ fd → (close_fd fd s).conn.fd ≡ none
unfolding close_fd
close_fd-fd none s e = e
close_fd-fd (some fd) s e = refl

contains_head : (a : ℕ) (xs : List ℕ) → contains a (a ∷ xs) ≡ true
contains_head a xs = ground arith

pub lower-fd : (s : Session) → (lower_throw_send_count s).conn.fd ≡ s.conn.fd
unfolding lower_throw_send_count
lower-fd s = ground arith

pub in_recy-Closed :
    (now : Timestamp) (s : Session) → s.conn.fd ≡ none → Closed (in_recy_connect_queue now s)
unfolding in_recy_connect_queue
in_recy-Closed now s e = elim (Bool-cases (contains s.conn.id s.socket.recycle_connection_pool)) [
  | inl old ↦ rw old (record { fd_gone = e; waiting = old })
  | inr new ↦
      rw new
        (record { fd_gone = e; waiting = contains_head s.conn.id s.socket.recycle_connection_pool })
]

without_timers :
    (now : Timestamp) (s : Session)
    → s.socket.if_kick_time_count ≡ false
    → zd_close_socket_proc now s
      ≡ some (in_recy_connect_queue now (lower_throw_send_count (close_fd s.conn.fd s)))
unfolding zd_close_socket_proc
without_timers now s off = simp off

-- With the kicking of idle clients switched off, closing a connection succeeds: the descriptor is
-- gone and the connection waits to be recycled.
pub zd_close_socket_proc-Closed :
    (now : Timestamp) (s : Session)
    → s.socket.if_kick_time_count ≡ false
    → (t : Session) × (zd_close_socket_proc now s ≡ some t) × Closed t
zd_close_socket_proc-Closed now s off = (
  in_recy_connect_queue now (lower_throw_send_count (close_fd s.conn.fd s)),
  without_timers now s off,
  in_recy-Closed now _ (lower-fd _ ∙ close_fd-fd s.conn.fd s refl),
)

close_fd-none : (fd : Option ℕ) (s : Session) → fd ≡ none → close_fd fd s ≡ s
unfolding close_fd
close_fd-none none s e = refl
close_fd-none (some fd) s e = cc

lower_waiting :
    (s : Session)
    → contains
        (lower_throw_send_count s).conn.id
        (lower_throw_send_count s).socket.recycle_connection_pool
      ≡ contains s.conn.id s.socket.recycle_connection_pool
unfolding lower_throw_send_count
lower_waiting s = elim (Bool-cases (ltb_ℤ (pos 0) s.conn.throw_send_count)) [
  | inl e ↦ rw e
  | inr e ↦ rw e
]

in_recy_waiting :
    (now : Timestamp) (s : Session)
    → contains s.conn.id s.socket.recycle_connection_pool ≡ true
    → in_recy_connect_queue now s ≡ s
unfolding in_recy_connect_queue
in_recy_waiting now s e = rw e

-- A close of a connection that is closed already, without timers, only changes throw_send_count.
close-Closed :
    (now : Timestamp) (t : Session)
    → t.socket.if_kick_time_count ≡ false
    → Closed t
    → zd_close_socket_proc now t ≡ some (lower_throw_send_count t)
close-Closed now t off c =
    without_timers now t off
    ∙ ap (λ u. some (in_recy_connect_queue now (lower_throw_send_count u)))
        (close_fd-none t.conn.fd t c.fd_gone)
    ∙ ap some (in_recy_waiting now (lower_throw_send_count t) (lower_waiting t ∙ c.waiting))

-- One less, of a number that is above 0
abbrev pub lowered : ℤ → ℤ
lowered (pos zero) = pos zero
lowered (pos (suc n)) = pos n
lowered (negsuc n) = negsuc n

-- A session with this throw_send_count, and otherwise as `s`
abbrev pub with_count : ℤ → Session → Session
with_count z s = record { socket = s.socket; conn = record s.conn { throw_send_count = z } }

one_less : (n : ℕ) → pos (suc n) -ℤ pos 1 ≡ pos n
unfolding ◌-ℤ◌
one_less n = ground arith

lower_lem :
    (s : Session) → lower_throw_send_count s ≡ with_count (lowered s.conn.throw_send_count) s
unfolding lower_throw_send_count
lower_lem s = by_count s.conn.throw_send_count refl
  where
    by_count :
        (z : ℤ) → s.conn.throw_send_count ≡ z → lower_throw_send_count s ≡ with_count (lowered z) s
    by_count (pos zero) e = rw (e, sym e) refl
    by_count (pos (suc n)) e =
        let more : ltb_ℤ (pos 0) (pos (suc n)) ≡ true = ground arith in
        rw e (rw more (ap (λ z. with_count z s) (one_less n)))
    by_count (negsuc n) e =
        let less : ltb_ℤ (pos 0) (negsuc n) ≡ false = ground arith in rw e (rw less refl)

new_in_queue :
    (now : Timestamp) (s : Session)
    → contains s.conn.id s.socket.recycle_connection_pool ≡ false
    → ((in_recy_connect_queue now s).socket.online_user_count ≡ s.socket.online_user_count -ℤ pos 1)
      × ((in_recy_connect_queue now s).socket.recycle_connection_pool
          ≡ s.conn.id ∷ s.socket.recycle_connection_pool)
      × ((in_recy_connect_queue now s).socket.closed_fds ≡ s.socket.closed_fds)
      × ((in_recy_connect_queue now s).socket.if_kick_time_count ≡ s.socket.if_kick_time_count)
      × ((in_recy_connect_queue now s).conn.throw_send_count ≡ s.conn.throw_send_count)
unfolding in_recy_connect_queue
new_in_queue now s new = rw new (refl, refl, refl, refl, refl)

-- What two calls of zd_close_socket_proc in a row make of `s`, whose descriptor was `fd`: `t` after
-- the first, `u` after the second.
pub record ClosedTwice (s t u : Session) (fd : ℕ) : Type 0 where
  pub one_user_less : t.socket.online_user_count ≡ s.socket.online_user_count -ℤ pos 1
  pub one_close : t.socket.closed_fds ≡ s.socket.closed_fds ++ fd ∷ []
  pub queued : t.socket.recycle_connection_pool ≡ s.conn.id ∷ s.socket.recycle_connection_pool
  pub fd_gone : t.conn.fd ≡ none
  pub lowered_once : t.conn.throw_send_count ≡ lowered s.conn.throw_send_count
  pub only_count : u ≡ with_count (lowered t.conn.throw_send_count) t

-- Without timers, a connection that has a descriptor and is not in the recycle queue is closed twice.
-- The first close closes the descriptor, puts the connection into the queue, counts one user less and
-- lowers a positive throw_send_count by one. The second lowers a positive throw_send_count by one
-- again, and changes nothing else of the connection or the socket object.
pub zd_close_socket_proc_again :
    (now later : Timestamp) (s : Session) (fd : ℕ)
    → s.socket.if_kick_time_count ≡ false
    → s.conn.fd ≡ some fd
    → contains s.conn.id s.socket.recycle_connection_pool ≡ false
    → (t u : Session) × (zd_close_socket_proc now s ≡ some t)
      × (zd_close_socket_proc later t ≡ some u)
      × ClosedTwice s t u fd
unfolding close_fd
zd_close_socket_proc_again now later s fd off open_fd new =
    let l = lower_throw_send_count (close_fd (some fd) s) in
    let t = in_recy_connect_queue now l in
    let is : l ≡ with_count (lowered s.conn.throw_send_count) (close_fd (some fd) s) =
      lower_lem (close_fd (some fd) s) in
    let new' : contains l.conn.id l.socket.recycle_connection_pool ≡ false =
      lower_waiting (close_fd (some fd) s) ∙ new in
    let (users, queue, fds, kick, count) = new_in_queue now l new' in
    let closed = in_recy-Closed now l (lower-fd (close_fd (some fd) s)) in
    (
      t,
      lower_throw_send_count t,
      without_timers now s off
          ∙ ap (λ o. some (in_recy_connect_queue now (lower_throw_send_count (close_fd o s))))
              open_fd,
      close-Closed later t (kick ∙ ap (λ (r : Session). r.socket.if_kick_time_count) is ∙ off)
          closed,
      record {
        one_user_less = users ∙ ap (λ (r : Session). r.socket.online_user_count -ℤ pos 1) is;
        one_close = fds ∙ ap (λ (r : Session). r.socket.closed_fds) is;
        queued = queue ∙ ap (λ (r : Session). r.conn.id ∷ r.socket.recycle_connection_pool) is;
        fd_gone = closed.fd_gone;
        lowered_once = count ∙ ap (λ (r : Session). r.conn.throw_send_count) is;
        only_count = lower_lem t;
      },
    )

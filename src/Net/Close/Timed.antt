-- ===== src/Net/Close/Timed.antt =====
-- zd_close_socket_proc of app/net/hao_socket.cpp where idle clients are kicked, for a connection with a
-- timer.
use hao_server.Base.{
  ℕ, ◌≡◌, refl, ap, ◌∙◌, Bool, true, false, Option, none, some, ◌>>=◌, subst, sym,
}
use hao_server.Timestamp.{Timestamp}
use hao_server.Timer.{Timer, timer_cancel}
use hao_server.Timer.Added.{IsTimer}
use hao_server.Timer.Steps.{Cancelled, timer_cancel-Cancelled}
use hao_server.Net.State.{MsgHeader, Session, Socket}
use hao_server.Net.Pool.{close_fd, in_recy_connect_queue}
use hao_server.Net.Close.{zd_close_socket_proc, lower_throw_send_count, delete_from_timer_queue}
use hao_server.Net.Close.Twice.{Closed, close_fd-fd, lower-fd, in_recy-Closed}
use hao_server.Net.Close.Tidy.{Tidy-trans, close_fd-Tidy, lower-Tidy, in_recy-Tidy}

-- The connection is closed, and its timer `i`, which stood for the event `ev`, is gone.
pub record ClosedTimed (s t : Session) (i ev : ℕ) : Type 0 where
  pub closed : Closed t
  pub timer : Cancelled s.socket.timer t.socket.timer i ev

module _ (now : Timestamp) (s : Session) (i : ℕ) where
  -- What is left to do when the timer has been deleted
  abbrev finish : Option Socket → Option Session
  finish deleted = deleted >>= λ socket. some (
      in_recy_connect_queue now
        (lower_throw_send_count (close_fd s.conn.fd (record s { socket = socket }))))

  timed :
      s.socket.if_kick_time_count ≡ true
      → s.conn.timer_id ≡ some i
      → zd_close_socket_proc now s ≡ finish (delete_from_timer_queue (some i) s.socket)
  unfolding zd_close_socket_proc
  timed on has = rw (on, has) refl

  cancel_dead :
      (ev : ℕ)
      → s.socket.timer.ref (some i) ≡ some ev
      → s.socket.timer.live ev ≡ false
      → timer_cancel s.socket.timer (some i) ≡ none
  unfolding timer_cancel
  cancel_dead ev found dead = rw (timer_cancel, found, dead) refl

  -- Idle clients are kicked, and the connection has a timer, whose id is in the table of a consistent
  -- timer queue. If it stands for an allocated event, the close succeeds: the descriptor is gone, the
  -- connection waits to be recycled, the event is freed and no other, and the id is out of the table.
  -- If the event has been freed before, the close uses it all the same.
  pub zd_close_socket_proc-ClosedTimed :
      (ev : ℕ)
      → s.socket.if_kick_time_count ≡ true
      → s.conn.timer_id ≡ some i
      → IsTimer s.socket.timer
      → s.socket.timer.ref (some i) ≡ some ev
      → (s.socket.timer.live ev ≡ true
          → (t : Session) × (zd_close_socket_proc now s ≡ some t) × ClosedTimed s t i ev)
        × (s.socket.timer.live ev ≡ false → zd_close_socket_proc now s ≡ none)
  unfolding delete_from_timer_queue
  zd_close_socket_proc-ClosedTimed ev on has v found = (
    λ lives.
        let (u, done, gone) = timer_cancel-Cancelled i ev v found lives in
        let r = record s { socket = record s.socket { timer = u } } in
        let c = close_fd s.conn.fd r in
        let l = lower_throw_send_count c in
        let tidy =
          Tidy-trans (close_fd-Tidy s.conn.fd r) (Tidy-trans (lower-Tidy c) (in_recy-Tidy now l)) in
        (
          in_recy_connect_queue now l,
          timed on has
              ∙ ap
                  (λ (o : Option (Timer MsgHeader × Bool)).
                    finish (o >>= λ r. some (record s.socket { timer = r.0 })))
                  done,
          record {
            closed = in_recy-Closed now l (lower-fd c ∙ close_fd-fd s.conn.fd r refl);
            timer = subst (λ w. Cancelled s.socket.timer w i ev) (sym tidy.same_timer) gone;
          },
        ),
    λ dead.
        timed on has
        ∙ ap
            (λ (o : Option (Timer MsgHeader × Bool)).
              finish (o >>= λ r. some (record s.socket { timer = r.0 })))
            (cancel_dead ev found dead),
  )

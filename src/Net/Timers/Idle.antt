-- ===== src/Net/Timers/Idle.antt =====
-- The second loop of TimerHeartBeatCheck, app/net/hao_socket_timer.cpp: the connections whose timer
-- was taken out are closed.
use hao_server.Base.{
  ℕ, ◌≡◌, ◌≢◌, refl, ap, ◌∙◌, subst, true, false, List, [], ◌∷◌, some, none, arith, ◌==◌, eq_cases,
  Bool-cases, inl, inr,
}
use hao_server.Timestamp.{Timestamp}
use hao_server.Net.State.{MsgHeader, Connection, Socket, Session, store}
use hao_server.Net.Pool.{contains, close_fd, in_recy_connect_queue}
use hao_server.Net.Close.{zd_close_socket_proc, lower_throw_send_count, delete_from_timer_queue}
use hao_server.Net.Close.Twice.{Closed, close_fd-fd, lower-fd, in_recy-Closed}
use hao_server.Net.Timers.{close_idle}
use hao_server.Net.Timers.Taken.{names_conn}
use hao_server.Net.Close.Tidy.{or_true, Tidy, Tidy-trans, close_fd-Tidy, lower-Tidy, in_recy-Tidy}

closes_now :
    (now : Timestamp) (s : Session)
    → s.conn.timer_id ≡ none
    → zd_close_socket_proc now s
      ≡ some (in_recy_connect_queue now (lower_throw_send_count (close_fd s.conn.fd s)))
unfolding zd_close_socket_proc delete_from_timer_queue
closes_now now s off = elim (Bool-cases s.socket.if_kick_time_count) [
  | inl e ↦ rw (e, off) refl
  | inr e ↦ rw e refl
]

-- A connection that has no timer: the close succeeds.
zd_close_socket_proc-Tidy :
    (now : Timestamp) (s : Session)
    → s.conn.timer_id ≡ none
    → (r : Session) × (zd_close_socket_proc now s ≡ some r) × Tidy s r × Closed r
zd_close_socket_proc-Tidy now s off =
    let c = close_fd s.conn.fd s in
    let l = lower_throw_send_count c in
    (
      in_recy_connect_queue now l,
      closes_now now s off,
      Tidy-trans (close_fd-Tidy s.conn.fd s) (Tidy-trans (lower-Tidy c) (in_recy-Tidy now l)),
      in_recy-Closed now l (lower-fd c ∙ close_fd-fd s.conn.fd s refl),
    )

-- What the loop leaves of `s`, for the entries that it is given
pub record Idle (s t : Socket) (hs : List MsgHeader) : Type 0 where
  pub same_timer : t.timer ≡ s.timer
  pub closed :
      (i : ℕ)
      → names_conn i hs ≡ true
      → ((t.conns i).fd ≡ none) × (contains i t.recycle_connection_pool ≡ true)
  pub others : (i : ℕ) → names_conn i hs ≡ false → t.conns i ≡ s.conns i
  pub waits :
      (i : ℕ)
      → contains i s.recycle_connection_pool ≡ true
      → contains i t.recycle_connection_pool ≡ true

-- The connections of these entries have no timer, and know their own place.
abbrev pub AreReady : Socket → List MsgHeader → Type 0
AreReady s hs =
    (i : ℕ) → names_conn i hs ≡ true → ((s.conns i).timer_id ≡ none) × ((s.conns i).id ≡ i)

stored-same : (s : Socket) (c i : ℕ) (v : Connection) → c ≡ i → (store s c v).conns i ≡ v
stored-same s c i v e = let b : (c == i) ≡ true = ground (arith, e) in rw b refl

stored-other : (s : Socket) (c i : ℕ) (v : Connection) → c ≢ i → (store s c v).conns i ≡ s.conns i
stored-other s c i v e = let b : (c == i) ≡ false = ground (arith, e) in rw b refl

module _ (s : Socket) (h : MsgHeader) (hs : List MsgHeader) (ready : AreReady s (h ∷ hs)) where
  own_ready : ((s.conns h.conn).timer_id ≡ none) × ((s.conns h.conn).id ≡ h.conn)
  own_ready = ready h.conn (let b : (h.conn == h.conn) ≡ true = ground arith in rw b refl)

  module _ (r : Session) (tidy : Tidy (record { socket = s; conn = s.conns h.conn }) r) where
    next_ready : AreReady (store r.socket h.conn r.conn) hs
    next_ready i named = elim (eq_cases h.conn i) [
      | inl same ↦
          let e = stored-same r.socket h.conn i r.conn same in
          (
            ap (λ (c : Connection). c.timer_id) e ∙ tidy.same_timer_id ∙ own_ready.0,
            ap (λ (c : Connection). c.id) e ∙ tidy.same_id ∙ own_ready.1 ∙ same,
          )
      | inr other ↦
          let e =
            stored-other r.socket h.conn i r.conn other
            ∙ ap (λ (f : ℕ → Connection). f i) tidy.same_conns in
          let old = ready i (rw named (or_true (h.conn == i))) in
          (ap (λ (c : Connection). c.timer_id) e ∙ old.0, ap (λ (c : Connection). c.id) e ∙ old.1)
    ]

    more-Idle :
        {t : Socket} → Closed r → Idle (store r.socket h.conn r.conn) t hs → Idle s t (h ∷ hs)
    more-Idle {t} closed more = record {
      same_timer = more.same_timer ∙ tidy.same_timer;
      closed = λ i named. elim (Bool-cases (names_conn i hs)) [
        | inl later ↦ more.closed i later
        | inr last ↦
            let same = is_head i named last in
            (
              ap (λ (c : Connection). c.fd)
                    (more.others i last ∙ stored-same r.socket h.conn i r.conn same)
                  ∙ closed.fd_gone,
              more.waits i (
                  subst (λ j. contains j r.socket.recycle_connection_pool ≡ true)
                    (tidy.same_id ∙ own_ready.1 ∙ same) closed.waiting),
            )
      ];
      others = λ i stays.
          more.others i (not_later i stays)
          ∙ stored-other r.socket h.conn i r.conn (not_head i stays)
          ∙ ap (λ (f : ℕ → Connection). f i) tidy.same_conns;
      waits = λ i old. more.waits i (tidy.waits i old);
    }
      where
        is_head : (i : ℕ) → names_conn i (h ∷ hs) ≡ true → names_conn i hs ≡ false → h.conn ≡ i
        is_head i a b = ground (arith, a, b)

        not_head : (i : ℕ) → names_conn i (h ∷ hs) ≡ false → h.conn ≢ i
        not_head i a = ground (arith, a)

        not_later : (i : ℕ) → names_conn i (h ∷ hs) ≡ false → names_conn i hs ≡ false
        not_later i a = ground (arith, a)

-- The loop ends without a fault, and has closed the connections of the entries.
pub close_idle-Idle :
    (now : Timestamp) (hs : List MsgHeader) (s : Socket)
    → AreReady s hs
    → (t : Socket) × (close_idle now hs s ≡ some t) × Idle s t hs
unfolding close_idle
close_idle-Idle now [] s ready = (
  s,
  refl,
  record {
    same_timer = refl;
    closed = λ i named. absurd (cc (named));
    others = λ i stays. refl;
    waits = λ i old. old;
  },
)
close_idle-Idle now (h ∷ hs) s ready =
    let (r, done, tidy, closed) =
      zd_close_socket_proc-Tidy now (record { socket = s; conn = s.conns h.conn })
        (own_ready s h hs ready).0 in
    let (t, rest, idle) =
      close_idle-Idle now hs (store r.socket h.conn r.conn) (next_ready s h hs ready r tidy) in
    (t, rw (done, rest) refl, more-Idle s h hs ready r tidy closed idle)

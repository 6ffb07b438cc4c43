-- ===== src/Net/Accept/Limit.antt =====
-- EventAccept of app/net/hao_socket_accept.cpp and the limit on the users that are online.
use hao_server.Base.{
  ℕ, ◌≡◌, refl, ap, subst, Bool, true, false, List, [], ◌∷◌, some, arith, Bool-cases, inl, inr, ◌⊎◌,
  Option, none, not, if◌then◌else◌,
}
use mathlib.Core.Option.{some-injective, none-ne-some}
use hao_server.Base.Int.{pos, ◌+ℤ◌, ◌≤ℤ◌, +ℤ_parts}
use hao_server.Timestamp.{Timestamp}
use hao_server.Net.State.{Connection, Socket, Session}
use hao_server.Net.Pool.{
  get_connection, get_connection_from, new_connection, close_connection, free_connection, close_fd,
}
use hao_server.Net.Epoll.{ctl_add, epoll_oper_event}
use hao_server.Net.Timers.{add_to_timer_queue}
use hao_server.Net.Accept.{
  AcceptAnswer, accepted, not_ready, not_implemented, failed, has_room, welcome, set_up,
  take_client, event_accept,
}

-- The number of users is within the limit of the configuration.
abbrev pub InLimit : Socket → Type 0
InLimit s = s.online_user_count ≤ℤ pos s.worker_connections

-- An operation that leaves the number of users and the configuration alone.
abbrev Kept : Socket → Socket → Type 0
Kept s t = (t.online_user_count ≡ s.online_user_count) × (t.config ≡ s.config)

Kept-InLimit : (s t : Socket) → Kept s t → InLimit s → InLimit t
Kept-InLimit s t k h = rw (k.0, k.1) h

get_connection_from-Kept :
    (blank : Connection) (free : List ℕ) (now : Timestamp) (fd : ℕ) (s : Socket)
    → Kept s (get_connection_from blank free now fd s).0
unfolding get_connection_from new_connection
get_connection_from-Kept blank [] now fd s = (refl, refl)
get_connection_from-Kept blank (i ∷ rest) now fd s = (refl, refl)

close_fd-Kept : (fd : Option ℕ) (s : Session) → Kept s.socket (close_fd fd s).socket
unfolding close_fd
close_fd-Kept none s = (refl, refl)
close_fd-Kept (some fd) s = (refl, refl)

close-Kept : (s : Session) → Kept s.socket (close_connection s).socket
unfolding close_connection free_connection
close-Kept s = close_fd-Kept _ _

-- One user more, and the same configuration.
abbrev OneMore : Socket → Socket → Type 0
OneMore s t = (t.online_user_count ≡ s.online_user_count +ℤ pos 1) × (t.config ≡ s.config)

welcome-OneMore : (now : Timestamp) (s : Session) → OneMore s.socket (welcome now s).socket
unfolding welcome add_to_timer_queue
welcome-OneMore now s = elim (Bool-cases s.socket.if_kick_time_count) [
  | inl e ↦ rw e (refl, refl)
  | inr e ↦ rw e (refl, refl)
]

registered-OneMore :
    (registered : Bool) (now : Timestamp) (s : Session) (events : ℕ)
    → let t = epoll_oper_event ctl_add events 0 registered s in
      Kept s.socket (if t.1 then welcome now (t.0) else close_connection (t.0)).socket
      ⊎ OneMore s.socket (if t.1 then welcome now (t.0) else close_connection (t.0)).socket
unfolding epoll_oper_event
registered-OneMore true now s events = inr (welcome-OneMore now _)
registered-OneMore false now s events = inl (close-Kept _)

set_up-OneMore :
    (plain non_blocking registered : Bool) (now : Timestamp) (s : Session)
    → let t = (set_up plain non_blocking registered now s).socket in
      Kept s.socket t ⊎ OneMore s.socket t
unfolding set_up
set_up-OneMore true false registered now s = inl (close-Kept s)
set_up-OneMore true true registered now s = registered-OneMore registered now _ _
set_up-OneMore false non_blocking registered now s = registered-OneMore registered now _ _

grown-InLimit :
    (s l t : Socket) → has_room s ≡ true → InLimit s → Kept s l → Kept l t ⊎ OneMore l t → InLimit t
unfolding has_room
grown-InLimit s l t room h k (inl m) = Kept-InLimit l t m (Kept-InLimit s l k h)
grown-InLimit s l t room h k (inr m) =
    rw (m.0, m.1, k.0, k.1) (ground (arith, room, +ℤ_parts s.online_user_count (pos 1)))

take_client-InLimit :
    (blank : Connection) (plain non_blocking registered : Bool) (now : Timestamp) (fd : ℕ)
    (s : Socket)
    → InLimit s
    → InLimit (take_client blank plain non_blocking registered now fd s)
unfolding take_client get_connection
take_client-InLimit blank plain non_blocking registered now fd s h =
    let lent = get_connection_from blank s.free_connection_pool now fd s in
    let given : Session = record { socket = lent.0; conn = lent.0.conns (lent.1) } in
    let t = set_up plain non_blocking registered now given in
    elim (Bool-cases (has_room s)) [
      | inl e ↦ rw e (
          grown-InLimit s given.socket t.socket e h
            (get_connection_from-Kept blank s.free_connection_pool now fd s)
            (set_up-OneMore plain non_blocking registered now given))
      | inr e ↦ rw e h
    ]

-- Whatever accept4, SetNonBlocking and epoll_ctl answer, EventAccept does not take the number of
-- users that are online beyond worker_connections.
pub event_accept-InLimit :
    (blank : Connection) (answers : List AcceptAnswer) (non_blocking registered : Bool)
    (now : Timestamp) (use_accept4 : Bool) (s t : Socket) (after : Bool)
    → event_accept blank answers non_blocking registered now use_accept4 s ≡ some (t, after)
    → InLimit s
    → InLimit t
unfolding event_accept
event_accept-InLimit blank [] nb r now u s t a e h = absurd (none-ne-some _ e)
event_accept-InLimit blank (accepted fd ∷ answers) nb r now u s t a e h =
    subst InLimit (ap (λ x. x.0) (some-injective _ _ e))
      (take_client-InLimit blank (not u) nb r now fd s h)
event_accept-InLimit blank (not_implemented ∷ answers) nb r now true s t a e h =
    event_accept-InLimit blank answers nb r now false s t a e h
event_accept-InLimit blank (not_implemented ∷ answers) nb r now false s t a e h =
    subst InLimit (ap (λ x. x.0) (some-injective _ _ e)) h
event_accept-InLimit blank (not_ready ∷ answers) nb r now u s t a e h =
    subst InLimit (ap (λ x. x.0) (some-injective _ _ e)) h
event_accept-InLimit blank (failed ∷ answers) nb r now u s t a e h =
    subst InLimit (ap (λ x. x.0) (some-injective _ _ e)) h

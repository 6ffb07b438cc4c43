-- ===== src/Net/Send/Drain.antt =====
-- A message on its way out: SendQueueThread of app/net/hao_socket.cpp starts it and
-- WriteRequestHandler of app/net/hao_socket_request.cpp sends what is left, in as many calls as the
-- kernel makes necessary.
use hao_server.Base.{
  ℕ, ◌+◌, ◌≤◌, ◌≡◌, refl, sym, ap, subst, ◌∙◌, ◌⊎◌, inl, inr, Bool, true, false, List, [], ◌++◌,
  none, some, arith, length, take, drop, length-drop, take-append-drop, append-nil, append_assoc,
  drop-drop, take_all, ◌==◌, Bool-cases, ==_iff,
}
use mathlib.Core.Option.{some-injective, none-ne-some}
use hao_server.Base.Int.{ℤ, pos, ◌+ℤ◌, ◌-ℤ◌}
use hao_server.Net.State.{Message, Connection, Session, pkg_len}
use hao_server.Net.Epoll.{epoll_oper_event}
use hao_server.Net.Send.{
  SendOutcome, some_sent, peer_closed, buffer_full, broken, start_send, write_request_handler,
}

-- The bytes that the kernel took, of those that it was given.
abbrev pub taken : SendOutcome → List ℕ → List ℕ
taken (some_sent n) given = take n given
taken peer_closed given = []
taken buffer_full given = []
taken broken given = []

-- A connection that waits to send the rest `left` of the message `m`.
pub record Sending (m : Message) (left : List ℕ) (c : Connection) : Type 0 where
  pub owned : c.send_mem_pointer ≡ some m
  pub rest : drop c.send_buf m.packet ≡ left
  pub len : c.send_len ≡ length left
  pub waiting : c.throw_send_count ≡ pos 1

-- A connection that is done with its message.
pub record Sent (c : Connection) : Type 0 where
  pub released : c.send_mem_pointer ≡ none
  pub idle : c.throw_send_count ≡ pos 0

-- What `send` answers on a connection that works, given `k` bytes: it took some, or it is full.
pub data Working (k : ℕ) : SendOutcome → Type 0 where
  part : {n : ℕ} → n ≤ k → Working k (some_sent n)
  full : Working k buffer_full

-- The message is on its way or done, after `wire` has been sent of `left`.
abbrev pub Progress : Message → List ℕ → List ℕ → Connection → Type 0
Progress m left wire c =
    ((rest : List ℕ) × Sending m rest c × (left ≡ wire ++ rest)) ⊎ (Sent c × (left ≡ wire))

-- Calls of WriteRequestHandler while there is a message to send, and the bytes that they sent.
pub data Drains : Session → List ℕ → Session → Type 0 where
  drained : {s : Session} → Drains s [] s
  drains :
      {s u : Session} {wire all : List ℕ} (m : Message) (o : SendOutcome) (answer : Bool)
      → s.conn.send_mem_pointer ≡ some m
      → Working s.conn.send_len o
      → Drains (write_request_handler o answer s) wire u
      → all ≡ taken o (drop s.conn.send_buf m.packet) ++ wire
      → Drains s all u

-- The throw count of a connection that has been waiting, lowered.
lowered : (z : ℤ) → z ≡ pos 1 → z -ℤ pos 1 ≡ pos 0
unfolding ◌-ℤ◌
lowered z e = rw e refl

whole_written :
    {m : Message} {left : List ℕ} (n : ℕ) (answer : Bool) (s : Session)
    → Sending m left s.conn
    → (n == s.conn.send_len) ≡ true
    → Progress m left (take n left) (write_request_handler (some_sent n) answer s).conn
unfolding write_request_handler epoll_oper_event
whole_written {left} n answer s v e = rw e (
    let k = (==_iff n s.conn.send_len).0 e in
    inr (
      record { released = refl; idle = lowered s.conn.throw_send_count v.waiting },
      sym (take_all n left (omega (arith, k, v.len))),
    ))

part_written :
    {m : Message} {left : List ℕ} (n : ℕ) (answer : Bool) (s : Session)
    → Sending m left s.conn
    → n ≤ s.conn.send_len
    → (n == s.conn.send_len) ≡ false
    → Progress m left (take n left) (write_request_handler (some_sent n) answer s).conn
unfolding write_request_handler
part_written {m} {left} n answer s v k e = rw e (
    inl (
      drop n left,
      record {
        owned = v.owned;
        rest = sym (drop-drop n s.conn.send_buf m.packet) ∙ ap (drop n) v.rest;
        len = omega (arith, v.len, length-drop n left);
        waiting = v.waiting;
      },
      sym (take-append-drop n left),
    ))

write_rest :
    {m : Message} {left : List ℕ} (o : SendOutcome) (answer : Bool) (s : Session)
    → Sending m left s.conn
    → Working s.conn.send_len o
    → Progress m left (taken o left) (write_request_handler o answer s).conn
unfolding write_request_handler
write_rest (some_sent n) answer s v (part k) = elim (Bool-cases (n == s.conn.send_len)) [
  | inl e ↦ whole_written n answer s v e
  | inr e ↦ part_written n answer s v k e
]
write_rest {left} buffer_full answer s v full = inl (left, v, refl)
write_rest peer_closed answer s v k = elim k [ ]
write_rest broken answer s v k = elim k [ ]

-- Progress made on the rest of a message is progress on the message.
Progress-append :
    {m : Message} {left rest after : List ℕ} (before : List ℕ) (c : Connection)
    → left ≡ before ++ rest
    → Progress m rest after c
    → Progress m left (before ++ after) c
Progress-append {after} before c e (inl (more, v, f)) =
    inl (more, v, e ∙ ap (λ l. before ++ l) f ∙ sym (append_assoc before after more))
Progress-append before c e (inr (w, f)) = inr (w, e ∙ ap (λ l. before ++ l) f)

-- Nothing more is sent of a message that is done.
Drains-Sent :
    {s u : Session} {wire : List ℕ} → Sent s.conn → Drains s wire u → Sent u.conn × (wire ≡ [])
Drains-Sent w drained = (w, refl)
Drains-Sent w (drains m o answer e k run f) = absurd (none-ne-some m (sym w.released ∙ e))

Drains-Progress :
    {m : Message} {s u : Session} {left wire : List ℕ}
    → Sending m left s.conn
    → Drains s wire u
    → Progress m left wire u.conn
Drains-Progress {left} v drained = inl (left, v, refl)
Drains-Progress {m} {s} {u} {left} {wire} v (drains {wire = later} a o answer e k run f) =
    let same : a ≡ m = some-injective a m (sym e ∙ v.owned) in
    let all : wire ≡ taken o left ++ later =
      f ∙ ap (λ l. taken o l ++ later) (ap (λ x. drop s.conn.send_buf x.packet) same ∙ v.rest) in
    elim (write_rest o answer s v k) [
      | inl (rest, w, g) ↦
          subst (λ b. Progress m left b u.conn) (sym all)
            (Progress-append (taken o left) u.conn g (Drains-Progress w run))
      | inr (w, g) ↦
          let (x, y) = Drains-Sent w run in
          inr (x, g ∙ sym (append-nil (taken o left)) ∙ sym (all ∙ ap (λ l. taken o left ++ l) y))
    ]

-- The throw count of a connection that was idle, raised.
raised : (z : ℤ) → z ≡ pos 0 → z +ℤ pos 1 ≡ pos 1
unfolding ◌+ℤ◌
raised z e = rw e refl

part_started :
    {m : Message} (n : ℕ) (answer : Bool) (s : Session)
    → s.conn.throw_send_count ≡ pos 0
    → pkg_len m.packet ≡ length m.packet
    → n ≤ length m.packet
    → (n == pkg_len m.packet) ≡ false
    → Progress m m.packet (take n m.packet) (start_send (some_sent n) answer m s).conn
unfolding start_send epoll_oper_event
part_started {m} n answer s calm whole k e = rw e (
    inl (
      drop n m.packet,
      record {
        owned = refl;
        rest = ap (λ k. drop k m.packet) (let same : 0 + n ≡ n = omega arith in same);
        len = omega (arith, whole, length-drop n m.packet);
        waiting = raised s.conn.throw_send_count calm;
      },
      sym (take-append-drop n m.packet),
    ))

whole_started :
    {m : Message} (n : ℕ) (answer : Bool) (s : Session)
    → pkg_len m.packet ≡ length m.packet
    → (n == pkg_len m.packet) ≡ true
    → Progress m m.packet (take n m.packet) (start_send (some_sent n) answer m s).conn
unfolding start_send
whole_started {m} n answer s whole e = rw e (
    let k = (==_iff n (pkg_len m.packet)).0 e in
    inr (
      record { released = refl; idle = refl },
      sym (take_all n m.packet (omega (arith, k, whole))),
    ))

start_rest :
    {m : Message} (o : SendOutcome) (answer : Bool) (s : Session)
    → s.conn.throw_send_count ≡ pos 0
    → pkg_len m.packet ≡ length m.packet
    → Working (length m.packet) o
    → Progress m m.packet (taken o m.packet) (start_send o answer m s).conn
unfolding start_send epoll_oper_event
start_rest {m} (some_sent n) answer s calm whole (part k) =
    elim (Bool-cases (n == pkg_len m.packet)) [
      | inl e ↦ whole_started n answer s whole e
      | inr e ↦ part_started n answer s calm whole k e
    ]
start_rest {m} buffer_full answer s calm whole full = inl (
  m.packet,
  record { owned = refl; rest = refl; len = whole; waiting = raised s.conn.throw_send_count calm },
  refl,
)
start_rest peer_closed answer s calm whole k = elim k [ ]
start_rest broken answer s calm whole k = elim k [ ]

Progress-Drains :
    {m : Message} {left wire : List ℕ} (before : List ℕ) (s u : Session)
    → Progress m left before s.conn
    → Drains s wire u
    → Progress m left (before ++ wire) u.conn
Progress-Drains before s u (inl (rest, v, e)) run =
    Progress-append before u.conn e (Drains-Progress v run)
Progress-Drains before s u (inr (w, e)) run =
    let (x, f) = Drains-Sent w run in
    inr (x, e ∙ sym (append-nil before) ∙ ap (λ l. before ++ l) (sym f))

-- If a packet is as long as its length field says, the connection has no message on its way and
-- `send` answers no error but a full buffer and takes no more bytes than it is given, then
-- SendQueueThread's first call and any calls of WriteRequestHandler after it send the bytes of the
-- packet in order: either a rest of the packet is left, which the connection holds, or the whole
-- packet has been sent once, the block is released and the connection is idle again.
pub message_sent :
    (m : Message) (o : SendOutcome) (answer : Bool) (s u : Session) (wire : List ℕ)
    → s.conn.throw_send_count ≡ pos 0
    → pkg_len m.packet ≡ length m.packet
    → Working (length m.packet) o
    → Drains (start_send o answer m s) wire u
    → Progress m m.packet (taken o m.packet ++ wire) u.conn
message_sent m o answer s u wire calm whole k run =
    Progress-Drains (taken o m.packet) (start_send o answer m s) u
      (start_rest o answer s calm whole k) run

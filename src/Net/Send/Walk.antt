-- ===== src/Net/Send/Walk.antt =====
-- A walk of SendQueueThread (app/net/hao_socket.cpp) over the whole queue.
use hao_server.Base.{
  ◌≤◌, ◌≡◌, refl, sym, ap, subst, ◌∙◌, inl, inr, Bool, true, false, List, [], ◌∷◌, ◌++◌, arith,
  length, append-nil, append_assoc, ◌==◌, Bool-cases, All, All-append, All-map, not, if◌then◌else◌,
  ==_iff,
}
use mathlib.Core.Bool.{true≢false}
use hao_server.Base.Int.{pos, ltb_ℤ, ◌≤ℤ◌}
use hao_server.Net.State.{Message, Socket, Session, with_conn, pkg_len}
use hao_server.Net.Epoll.{epoll_oper_event}
use hao_server.Net.Send.{
  SendOutcome, some_sent, peer_closed, buffer_full, broken, Turn, out_of_date, waits, sends, turn,
  start_send, send_walk,
}

-- A message that is up to date and whose connection waits until it can be written to.
abbrev pub Waiting : Socket → Message → Type 0
Waiting s m = turn m s ≡ waits

-- Sending touches nothing but the connection.
pub start_send-socket :
    (o : SendOutcome) (answer : Bool) (m : Message) (s : Session)
    → (start_send o answer m s).socket ≡ s.socket
unfolding start_send epoll_oper_event
start_send-socket (some_sent n) answer m s = elim (Bool-cases (n == pkg_len m.packet)) [
  | inl e ↦ rw e refl
  | inr e ↦ rw e refl
]
start_send-socket peer_closed answer m s = refl
start_send-socket buffer_full answer m s = refl
start_send-socket broken answer m s = refl

picks_waits :
    (current busy : Bool)
    → (if not current then out_of_date else if busy then waits else sends) ≡ waits
    → busy ≡ true
picks_waits true true e = refl
picks_waits true false e = cc
picks_waits false busy e = cc

picks_current :
    (current busy : Bool)
    → (if not current then out_of_date else if busy then waits else sends) ≡ waits
    → current ≡ true
picks_current true busy e = refl
picks_current false busy e = cc

pub picks_sends :
    (current busy : Bool)
    → (if not current then out_of_date else if busy then waits else sends) ≡ sends
    → busy ≡ false
picks_sends true true e = cc
picks_sends true false e = refl
picks_sends false busy e = cc

-- A message that is sent is of another connection than one that waits.
other_conn :
    (k m : Message) (s : Socket) → Waiting s k → turn m s ≡ sends → (m.conn == k.conn) ≡ false
unfolding turn
other_conn k m s w e = elim (Bool-cases (m.conn == k.conn)) [
  | inl same ↦
      let busy = picks_waits _ _ w in
      let idle = picks_sends _ _ e in
      let at = (==_iff m.conn k.conn).0 same in
      absurd (
        true≢false
          (sym busy ∙ ap (λ i. ltb_ℤ (pos 0) (s.conns i).throw_send_count) (sym at) ∙ idle))
  | inr other ↦ other
]

sent-Waiting :
    (o : SendOutcome) (answer : Bool) (m k : Message) (s : Socket) (queue : List Message)
    → turn m s ≡ sends
    → Waiting s k
    → Waiting (with_conn m.conn (start_send o answer m) (record s { send_message_queue = queue })) k
unfolding turn
sent-Waiting o answer m k s queue e w = rw (other_conn k m s w e, start_send-socket o answer m _) w

pub by_turn :
    (P : Socket → Type 0) (t : Turn) (x y z : Socket)
    → (t ≡ out_of_date → P x)
    → (t ≡ waits → P y)
    → (t ≡ sends → P z)
    → P (elim t [ out_of_date ↦ x | waits ↦ y | sends ↦ z ])
by_turn P out_of_date x y z f g h = f refl
by_turn P waits x y z f g h = g refl
by_turn P sends x y z f g h = h refl

-- All messages in the queue wait.
abbrev AllWait : Socket → Type 0
AllWait s = All (Waiting s) s.send_message_queue

-- The connection of the message has not been given up since the message was made, and a message of
-- this connection is on its way: its throw_send_count is at least 1.
pub record UpToDateAndHeld (s : Socket) (m : Message) : Type 0 where
  pub current : (s.conns m.conn).sequence_num ≡ m.cur_sequence_num
  pub held : pos 1 ≤ℤ (s.conns m.conn).throw_send_count

Waiting-held : (s : Socket) (m : Message) → Waiting s m → UpToDateAndHeld s m
unfolding turn
Waiting-held s m w = record {
  current = (==_iff _ _).0 (picks_current _ _ w);
  held = ground (arith, picks_waits _ _ w);
}

-- What the walk ends with, if there is an answer for every message.
walk-AllWait :
    (answers : List (SendOutcome × Bool)) (kept queue : List Message) (s : Socket)
    → length queue ≤ length answers
    → s.send_message_queue ≡ kept ++ queue
    → All (Waiting s) kept
    → AllWait (send_walk answers kept queue s)
unfolding send_walk turn
walk-AllWait answers kept [] s n e v = subst (λ q. All (Waiting s) q) (sym (e ∙ append-nil kept)) v
walk-AllWait [] kept (m ∷ rest) s n e v = absurd (omega (arith, n))
walk-AllWait (a ∷ answers) kept (m ∷ rest) s n e v =
    let left = record s { send_message_queue = kept ++ rest } in
    let after = with_conn m.conn (start_send a.0 a.1 m) left in
    by_turn AllWait (turn m s) (send_walk (a ∷ answers) kept rest left)
      (send_walk (a ∷ answers) (kept ++ m ∷ []) rest s) (send_walk answers kept rest after)
      (λ at.
        walk-AllWait (a ∷ answers) kept rest left (omega (arith, n)) refl
          (All-map (Waiting s) (Waiting left) kept (λ k w. w) v))
      (λ at.
        walk-AllWait (a ∷ answers) (kept ++ m ∷ []) rest s (omega (arith, n))
          (e ∙ sym (append_assoc kept (m ∷ []) rest))
          ((All-append (Waiting s) kept (m ∷ [])).0 (v, (at, tt))))
      (λ at.
        walk-AllWait answers kept rest after (omega (arith, n))
          (ap (λ t. t.send_message_queue) (start_send-socket a.0 a.1 m _))
          (All-map (Waiting s) (Waiting after) kept
            (λ k w. sent-Waiting a.0 a.1 m k s (kept ++ rest) at w) v))

-- After a walk of SendQueueThread in which every call of SendProc returned, each message that is left in
-- the queue has the sequence number that its connection has now, and the connection's
-- throw_send_count is at least 1: nothing is left that is out of date or could be sent.
pub send_walk-AllWait :
    (answers : List (SendOutcome × Bool)) (s : Socket)
    → length s.send_message_queue ≤ length answers
    → let r = send_walk answers [] s.send_message_queue s in
      All (UpToDateAndHeld r) r.send_message_queue
send_walk-AllWait answers s n =
    let r = send_walk answers [] s.send_message_queue s in
    All-map (Waiting r) (UpToDateAndHeld r) r.send_message_queue (Waiting-held r)
      (walk-AllWait answers [] s.send_message_queue s n refl tt)

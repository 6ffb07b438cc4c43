-- ===== src/Net/Timers/Taken.antt =====
-- The first loop of TimerHeartBeatCheck, app/net/hao_socket_timer.cpp: which timers it takes out.
use hao_server.Base.{
  ℕ, ◌<◌, ◌≡◌, ◌≢◌, refl, sym, ap, ◌∙◌, subst, Bool, true, false, ◌&&◌, ◌||◌, not, List, [], ◌∷◌,
  some, none, arith, ◌==◌, if◌then◌else◌, eq_cases, inl, inr, count, All,
}
use hao_server.Base.Int.{◌≤ℤ◌}
use hao_server.Timestamp.{Timestamp, le_time}
use hao_server.Timer.{Timer, earliest_time}
use hao_server.Timer.Order.{NoLater, due_of, update-same, update-other}
use hao_server.Timer.Added.{IsTimer}
use hao_server.Timer.Popped.{Popped}
use hao_server.Net.State.{MsgHeader, Connection, Socket, store}

-- Each timer has a header to give.
abbrev pub HasHeaders : Timer MsgHeader → (ℕ → MsgHeader) → Type 0
HasHeaders t header = (x : ℕ) → t.live x ≡ true → (t.events x).user_data ≡ some (header x)

-- A timer that is due at this time or before
abbrev pub overdue : Timestamp → Timer MsgHeader → ℕ → Bool
overdue now t x = t.live x && le_time (due_of t x) now

-- Each is due no later than the ones behind it.
abbrev pub InOrder : (ℕ → Timestamp) → List ℕ → Type 0
InOrder due [] = Unit
InOrder due (e ∷ es) = All (NoLater due e) es × InOrder due es

abbrev pub headers_of : (ℕ → MsgHeader) → List ℕ → List MsgHeader
headers_of header [] = []
headers_of header (e ∷ es) = header e ∷ headers_of header es

abbrev pub names_conn : ℕ → List MsgHeader → Bool
names_conn i [] = false
names_conn i (h ∷ hs) = (h.conn == i) || names_conn i hs

-- The connection that an entry names forgets its timer.
abbrev pub forget : Socket → List MsgHeader → ℕ → Connection
forget s hs i = if names_conn i hs then record (s.conns i) { timer_id = none } else s.conns i

-- What the loop leaves of `s`, and the timers that it takes
pub record Taken (now : Timestamp) (header : ℕ → MsgHeader) (s u : Socket) (hs : List MsgHeader)
    : Type 0 where
  pub events : List ℕ
  pub headers : hs ≡ headers_of header events
  pub all : (x : ℕ) → count x events ≡ (if overdue now s.timer x then 1 else 0)
  pub ordered : InOrder (due_of s.timer) events
  pub left : (x : ℕ) → u.timer.live x ≡ (s.timer.live x && not (le_time (due_of s.timer x) now))
  pub same_due : (x : ℕ) → u.timer.live x ≡ true → due_of u.timer x ≡ due_of s.timer x
  pub has_headers : HasHeaders u.timer header
  pub consistent : IsTimer u.timer
  pub conns : (i : ℕ) → u.conns i ≡ forget s hs i
  pub rest : u ≡ record s { timer = u.timer; conns = u.conns }

pub none-Taken :
    {now : Timestamp} {header : ℕ → MsgHeader} {s : Socket}
    → IsTimer s.timer
    → HasHeaders s.timer header
    → ((x : ℕ) → overdue now s.timer x ≡ false)
    → Taken now header s s []
none-Taken {now} {header} {s} v has none_due = record {
  events = [];
  headers = refl;
  all = λ x. rw (none_due x) refl;
  ordered = tt;
  left = λ x. stays (s.timer.live x) (le_time (due_of s.timer x) now) (none_due x);
  same_due = λ x lives. refl;
  has_headers = has;
  consistent = v;
  conns = λ i. refl;
  rest = refl;
}
  where
    stays : (a b : Bool) → (a && b) ≡ false → a ≡ (a && not b)
    stays true true h = absurd (cc h)
    stays true false h = refl
    stays false b h = refl

All-members : {P : ℕ → Type 0} (xs : List ℕ) → ((x : ℕ) → 0 < count x xs → P x) → All P xs
All-members [] h = tt
All-members (x ∷ xs) h = (h x (ground arith), All-members xs (λ y pos. h y (ground (arith, pos))))

InOrder-same :
    (due due' : ℕ → Timestamp) (es : List ℕ)
    → All (λ x. due x ≡ due' x) es
    → InOrder due es
    → InOrder due' es
InOrder-same due due' [] h k = tt
InOrder-same due due' (e ∷ es) h k = (later h.0 es h.1 k.0, InOrder-same due due' es h.1 k.1)
  where
    later :
        due e ≡ due' e
        → (xs : List ℕ) → All (λ x. due x ≡ due' x) xs
        → All (NoLater due e) xs
        → All (NoLater due' e) xs
    later q [] g l = tt
    later q (x ∷ xs) g l = (rw (sym q, sym g.0) l.0, later q xs g.1 l.1)

-- The state after a round that takes out the first timer
abbrev pub after_one : (ℕ → MsgHeader) → Timer MsgHeader → Socket → Socket
after_one header t s =
    let i = (header (s.timer.p 0)).conn in
    store (record s { timer = t }) i (record (s.conns i) { timer_id = none })

forget_at :
    (s : Socket) (t : Timer MsgHeader) (c i : ℕ) (b : Bool)
    → (let w = store (record s { timer = t }) c (record (s.conns c) { timer_id = none }) in
        if b then record (w.conns i) { timer_id = none } else w.conns i)
      ≡ (if (c == i) || b then record (s.conns i) { timer_id = none } else s.conns i)
forget_at s t c i b = elim (eq_cases c i) [
  | inl same ↦
      subst
        (λ j.
          (let w = store (record s { timer = t }) c (record (s.conns c) { timer_id = none }) in
            if b then record (w.conns j) { timer_id = none } else w.conns j)
          ≡ (if (c == j) || b then record (s.conns j) { timer_id = none } else s.conns j))
        same (at_same b)
  | inr ne ↦ at_other b (ground (arith, ne))
]
  where
    at_same :
        (b : Bool)
        → (let w = store (record s { timer = t }) c (record (s.conns c) { timer_id = none }) in
            if b then record (w.conns c) { timer_id = none } else w.conns c)
          ≡ (if (c == c) || b then record (s.conns c) { timer_id = none } else s.conns c)
    at_same true = let e : (c == c) ≡ true = ground arith in rw e refl
    at_same false = let e : (c == c) ≡ true = ground arith in rw e refl

    at_other :
        (b : Bool)
        → (c == i) ≡ false
        → (let w = store (record s { timer = t }) c (record (s.conns c) { timer_id = none }) in
            if b then record (w.conns i) { timer_id = none } else w.conns i)
          ≡ (if (c == i) || b then record (s.conns i) { timer_id = none } else s.conns i)
    at_other true e = rw e refl
    at_other false e = rw e refl

first_true : (a b : Bool) → (a && b) ≡ true → a ≡ true
first_true true b h = refl
first_true false b h = h

pub le_time_mono :
    (a b now : Timestamp)
    → a.micro_seconds_since_epoch ≤ℤ b.micro_seconds_since_epoch
    → le_time a now ≡ false
    → le_time b now ≡ false
le_time_mono a b now h k = ground (arith, h, k)

module _ (now : Timestamp) (header : ℕ → MsgHeader) (s : Socket) (t : Timer MsgHeader) where
  module _ (one : Popped s.timer t (some (header (s.timer.p 0)))) where
    dead : t.live (s.timer.p 0) ≡ false
    dead = rw one.same_live (update-same s.timer.live (s.timer.p 0) false)

    alive : (x : ℕ) → x ≢ s.timer.p 0 → t.live x ≡ s.timer.live x
    alive x ne = rw one.same_live (update-other s.timer.live (s.timer.p 0) x false ne)

    from : (x : ℕ) → t.live x ≡ true → (s.timer.live x ≡ true) × (x ≢ s.timer.p 0)
    from x lives = elim (eq_cases x (s.timer.p 0)) [
      | inl same ↦ absurd (cc (ap t.live same, dead, lives))
      | inr ne ↦ (sym (alive x ne) ∙ lives, ne)
    ]

    pub still-HasHeaders : HasHeaders s.timer header → HasHeaders t header
    still-HasHeaders has x lives = let (old, ne) = from x lives in one.same_data x ne ∙ has x old

    -- A timer that the later rounds take out
    later_one :
        {u : Socket} {hs : List MsgHeader}
        → (more : Taken now header (after_one header t s) u hs) → (x : ℕ) → 0 < count x more.events
        → (s.timer.live x ≡ true) × (x ≢ s.timer.p 0)
    later_one more x pos =
        let n : count x more.events ≡ (if overdue now t x then 1 else 0) = more.all x in
        from x (first_true (t.live x) _ (counted (overdue now t x) (omega (arith, pos, n))))
      where
        counted : (b : Bool) → 0 < (if b then 1 else 0) → b ≡ true
        counted true h = refl
        counted false h = absurd (omega (arith, h))

    still_overdue : (x : ℕ) → x ≢ s.timer.p 0 → overdue now t x ≡ overdue now s.timer x
    still_overdue x ne = rw (alive x ne, one.same_due x ne) refl

  pub more-Taken :
      {u : Socket} {hs : List MsgHeader}
      → Popped s.timer t (some (header (s.timer.p 0)))
      → le_time (earliest_time s.timer) now ≡ true
      → Taken now header (after_one header t s) u hs
      → Taken now header s u (header (s.timer.p 0) ∷ hs)
  more-Taken {u} {hs} one late more =
      let e = s.timer.p 0 in
      let due_now : overdue now s.timer e ≡ true = rw (one.lives, sym one.earliest) late in
      let gone : overdue now t e ≡ false = rw (dead one) refl in
      record {
        events = e ∷ more.events;
        headers = ap (λ l. header e ∷ l) more.headers;
        all = λ x.
            let n : count x more.events ≡ (if overdue now t x then 1 else 0) = more.all x in
            elim (eq_cases x e) [
              | inl same ↦
                  let a : overdue now s.timer x ≡ true = ap (overdue now s.timer) same ∙ due_now in
                  let z : overdue now t x ≡ false = ap (overdue now t) same ∙ gone in
                  rw (n, z, a) (ground (arith, same))
              | inr ne ↦ rw (n, still_overdue one x ne) (ground (arith, ne))
            ];
        ordered = (
          All-members more.events (λ x pos. one.first x (later_one one more x pos).0),
          InOrder-same (due_of t) (due_of s.timer) more.events
              (All-members more.events (λ x pos. one.same_due x (later_one one more x pos).1))
              more.ordered,
        );
        left = λ x. elim (eq_cases x e) [
          | inl same ↦
              let z : t.live x ≡ false = ap t.live same ∙ dead one in
              let y : le_time (due_of s.timer x) now ≡ true =
                ap (λ j. le_time (due_of s.timer j) now) same ∙ rw (sym one.earliest) late in
              more.left x ∙ rw (z, y) (and_false (s.timer.live x))
          | inr ne ↦ more.left x ∙ (rw (alive one x ne, one.same_due x ne) refl)
        ];
        same_due = λ x lives.
            let ne = (from one x (first_true (t.live x) _ (sym (more.left x) ∙ lives))).1 in
            more.same_due x lives ∙ one.same_due x ne;
        has_headers = more.has_headers;
        consistent = more.consistent;
        conns = λ i. more.conns i ∙ forget_at s t (header e).conn i (names_conn i hs);
        rest = more.rest;
      }
    where
      and_false : (a : Bool) → false ≡ (a && false)
      and_false true = refl
      and_false false = refl

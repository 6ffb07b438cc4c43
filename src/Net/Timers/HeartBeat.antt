-- ===== src/Net/Timers/HeartBeat.antt =====
-- TimerHeartBeatCheck, app/net/hao_socket_timer.cpp: the two loops together.
use hao_server.Base.{
  ℕ, suc, ◌<◌, ◌≡◌, ◌≢◌, refl, sym, ap, ◌∙◌, subst, Bool, true, false, ◌&&◌, ◌||◌, not, List, [],
  ◌∷◌, some, none, arith, ◌==◌, if◌then◌else◌, eq_cases, Bool-cases, inl, inr, count, ◌↔◌,
}
use hao_server.Base.Int.{ℤ, ◌≤ℤ◌}
use hao_server.Timestamp.{invalid_time, Timestamp, lt_time, le_time, minus, milliseconds}
use hao_server.Timer.{Timer, earliest_time}
use hao_server.Timer.Order.{due_of}
use hao_server.Timer.Added.{IsTimer}
use hao_server.Timer.Popped.{first_due}
use hao_server.Net.State.{MsgHeader, Connection, Socket}
use hao_server.Net.Pool.{contains}
use hao_server.Net.Timers.{to_int, timer_heart_beat_check}
use hao_server.Net.Timers.Taken.{HasHeaders, overdue, headers_of, names_conn, Taken}
use hao_server.Net.Timers.Wait.{WaitTime, wait_time}
use hao_server.Net.Timers.TakeOver.{take_over_time-Taken}
use hao_server.Net.Timers.Idle.{Idle, AreReady, close_idle-Idle}

-- The timers that a check at this time ends: once one is due before this time, all that are due by
-- this time.
abbrev pub ends : Timestamp → Timer MsgHeader → ℕ → Bool
ends now t x = lt_time (earliest_time t) now && overdue now t x

-- What a check at this time leaves of `s`
pub record Beaten (now : Timestamp) (header : ℕ → MsgHeader) (s t : Socket) : Type 0 where
  pub timers : (x : ℕ) → t.timer.live x ≡ (s.timer.live x && not (ends now s.timer x))
  pub same_due : (x : ℕ) → t.timer.live x ≡ true → due_of t.timer x ≡ due_of s.timer x
  pub in_time : (x : ℕ) → t.timer.live x ≡ true → lt_time (due_of t.timer x) now ≡ false
  pub closed :
      (x : ℕ)
      → ends now s.timer x ≡ true
      → let i = (header x).conn in
        ((t.conns i).fd ≡ none) × (contains i t.recycle_connection_pool ≡ true)
  pub others :
      (i : ℕ) → ((x : ℕ) → ends now s.timer x ≡ true → (header x).conn ≢ i) → t.conns i ≡ s.conns i
  pub consistent : IsTimer t.timer
  pub has_headers : HasHeaders t.timer header

-- Each timer is for a connection that knows its own place.
abbrev pub KnowPlaces : Socket → (ℕ → MsgHeader) → Type 0
KnowPlaces s header =
    (x : ℕ) → s.timer.live x ≡ true → let i = (header x).conn in (s.conns i).id ≡ i

named_by :
    (header : ℕ → MsgHeader) (i : ℕ) (es : List ℕ)
    → names_conn i (headers_of header es) ≡ true
    → (x : ℕ) × (0 < count x es) × ((header x).conn ≡ i)
named_by header i [] h = absurd (cc h)
named_by header i (e ∷ es) h = elim (eq_cases (header e).conn i) [
  | inl same ↦ (e, ground arith, same)
  | inr other ↦
      let (x, pos, is) = named_by header i es (ground (arith, h, other)) in
      (x, omega (arith, pos), is)
]

names_it :
    (header : ℕ → MsgHeader) (x : ℕ) (es : List ℕ)
    → 0 < count x es
    → names_conn (header x).conn (headers_of header es) ≡ true
names_it header x [] h = absurd (omega (arith, h))
names_it header x (e ∷ es) h = elim (eq_cases e x) [
  | inl same ↦
      let b : ((header e).conn == (header x).conn) ≡ true =
        let is : (header e).conn ≡ (header x).conn = ap (λ j. (header j).conn) same in
        ground (arith, is) in
      rw b refl
  | inr other ↦
      rw (names_it header x es (ground (arith, h, other)))
        (or_true ((header e).conn == (header x).conn))
]
  where
    or_true : (b : Bool) → (b || true) ≡ true
    or_true true = refl
    or_true false = refl

module _ (now : Timestamp) (header : ℕ → MsgHeader) (s : Socket) where
  counted_once :
      {u : Socket} {hs : List MsgHeader}
      → (taken : Taken now header s u hs) → (x : ℕ)
      → (0 < count x taken.events) ↔ (overdue now s.timer x ≡ true)
  counted_once taken x = counted (overdue now s.timer x) (taken.all x)
    where
      counted : (b : Bool) {n : ℕ} → n ≡ (if b then 1 else 0) → (0 < n) ↔ (b ≡ true)
      counted true e = (λ h. refl, λ h. omega (arith, e))
      counted false e = (λ h. absurd (omega (arith, e, h)), λ h. absurd (cc h))

  ready :
      {u : Socket} {hs : List MsgHeader}
      → KnowPlaces s header
      → Taken now header s u hs
      → AreReady u hs
  ready {u} {hs} ids taken i named =
      let (x, pos, is) =
        named_by header i taken.events (subst (λ l. names_conn i l ≡ true) taken.headers named) in
      let lives = and_left (s.timer.live x) _ ((counted_once taken x).0 pos) in
      let c : u.conns i ≡ record (s.conns i) { timer_id = none } =
        taken.conns i ∙ (rw named refl) in
      (
        ap (λ (c : Connection). c.timer_id) c,
        ap (λ (c : Connection). c.id) c ∙ subst (λ j. (s.conns j).id ≡ j) is (ids x lives),
      )
    where
      and_left : (a b : Bool) → (a && b) ≡ true → a ≡ true
      and_left true b h = refl
      and_left false b h = h

  late_check :
      {u t : Socket} {hs : List MsgHeader}
      → lt_time (earliest_time s.timer) now ≡ true
      → Taken now header s u hs
      → Idle u t hs
      → Beaten now header s t
  late_check {u} {t} {hs} late taken idle =
      let same_ends : (x : ℕ) → ends now s.timer x ≡ overdue now s.timer x = λ x. rw late refl in
      let live : (x : ℕ) → t.timer.live x ≡ u.timer.live x =
        λ x. ap (λ (r : Timer MsgHeader). r.live x) idle.same_timer in
      let due : (x : ℕ) → t.timer.live x ≡ true → due_of t.timer x ≡ due_of s.timer x =
        λ x lives. ap (λ r. due_of r x) idle.same_timer ∙ taken.same_due x (sym (live x) ∙ lives) in
      record {
        timers = λ x. live x ∙ taken.left x ∙ rw (same_ends x) (twice (s.timer.live x) _);
        same_due = due;
        in_time = λ x lives. rw (due x lives) (
            not_yet (due_of s.timer x) now
              (later (s.timer.live x) _ (sym (taken.left x) ∙ sym (live x) ∙ lives)));
        closed = λ x over. idle.closed (header x).conn (
            subst (λ l. names_conn (header x).conn l ≡ true) (sym taken.headers)
              (names_it header x taken.events
                ((counted_once taken x).1 (sym (same_ends x) ∙ over))));
        others = λ i stays. elim (Bool-cases (names_conn i hs)) [
          | inl named ↦
              let (x, pos, is) =
                named_by header i taken.events
                  (subst (λ l. names_conn i l ≡ true) taken.headers named) in
              absurd (stays x (same_ends x ∙ (counted_once taken x).0 pos) is)
          | inr stays_named ↦ idle.others i stays_named ∙ taken.conns i ∙ (rw stays_named refl)
        ];
        consistent = subst IsTimer (sym idle.same_timer) taken.consistent;
        has_headers = subst (λ r. HasHeaders r header) (sym idle.same_timer) taken.has_headers;
      }
    where
      twice : (a b : Bool) → (a && not b) ≡ (a && not (a && b))
      twice true b = refl
      twice false b = refl

      later : (a b : Bool) → (a && not b) ≡ true → b ≡ false
      later true false h = refl
      later true true h = sym h
      later false b h = absurd (cc h)

      not_yet : (a b : Timestamp) → le_time a b ≡ false → lt_time a b ≡ false
      not_yet a b h = ground (arith, h)

  early_check :
      IsTimer s.timer
      → HasHeaders s.timer header
      → lt_time (earliest_time s.timer) now ≡ false
      → Beaten now header s s
  early_check v has early = record {
    timers = λ x. rw early (kept (s.timer.live x));
    same_due = λ x lives. refl;
    in_time = λ x lives.
        let (i, lt, is) = (v.holds x).1 lives in
        let some_left : (s.timer.n == 0) ≡ false = ground (arith, lt) in
        let first : lt_time (due_of s.timer (s.timer.p 0)) now ≡ false =
          sym (
            ap (λ b. lt_time (if b then invalid_time else due_of s.timer (s.timer.p 0)) now)
              some_left)
          ∙ early in
        mono (due_of s.timer (s.timer.p 0)) (due_of s.timer x) (first_due s.timer v x lives) first;
    closed = λ x over. absurd (not_both _ _ early over);
    others = λ i stays. refl;
    consistent = v;
    has_headers = has;
  }
    where
      kept : (a : Bool) → a ≡ (a && true)
      kept true = refl
      kept false = refl

      not_both : (a b : Bool) → a ≡ false → (a && b) ≡ true → ⊥
      not_both true b e h = cc (e)
      not_both false b e h = cc (h)

      mono :
          (a b : Timestamp)
          → a.micro_seconds_since_epoch ≤ℤ b.micro_seconds_since_epoch
          → lt_time a now ≡ false
          → lt_time b now ≡ false
      mono a b h k = ground (arith, h, k)

-- With a consistent timer queue whose timers have headers, each for a connection that knows its own
-- place, the check ends without a fault. If a timer was due before `now`, the timers that are due by
-- then are ended, and no others: the connection of each is closed and waits to be recycled. Every
-- other connection is as it was. No timer that is due before `now` is left, and the queue is
-- consistent. By the clock that was read last, the int that is given back is the number of whole
-- milliseconds until the first timer that is left, negative if it is due already, where fewer than
-- 2^31 of them are between the two times; if no timer is left, it is the time since the epoch in
-- milliseconds, negative and as far as an int holds it.
pub timer_heart_beat_check-Beaten :
    (now later : Timestamp) (header : ℕ → MsgHeader) (s : Socket)
    → IsTimer s.timer
    → HasHeaders s.timer header
    → KnowPlaces s header
    → (t : Socket) × (ms : ℤ) × (timer_heart_beat_check now later s ≡ some (t, ms))
      × WaitTime t.timer (if lt_time (earliest_time s.timer) now then later else now) ms
      × Beaten now header s t
unfolding timer_heart_beat_check
timer_heart_beat_check-Beaten now later header s v has ids =
    elim (Bool-cases (lt_time (earliest_time s.timer) now)) [
      | inl late ↦
          let (u, hs, took, taken) =
            take_over_time-Taken (suc s.timer.n) now header s v has (omega arith) in
          let (t, done, idle) = close_idle-Idle now hs u (ready now header s ids taken) in
          let beaten = late_check now header s late taken idle in
          (
            t,
            to_int (milliseconds (minus (earliest_time t.timer) later)),
            rw (late, took, done) refl,
            rw late (wait_time t.timer beaten.consistent later),
            beaten,
          )
      | inr early ↦ (
        s,
        to_int (milliseconds (minus (earliest_time s.timer) now)),
        rw early refl,
        rw early (wait_time s.timer v now),
        early_check now header s v has early,
      )
    ]

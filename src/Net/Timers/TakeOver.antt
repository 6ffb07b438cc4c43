-- ===== src/Net/Timers/TakeOver.antt =====
-- The first loop of TimerHeartBeatCheck, app/net/hao_socket_timer.cpp, does take those timers out.
use hao_server.Base.{
  ◌⊎◌, ℕ, zero, suc, ◌-◌, ◌<◌, ◌≡◌, refl, sym, ap, ◌∙◌, subst, true, false, List, [], ◌∷◌, Option,
  some, none, arith, ◌==◌, if◌then◌else◌, Bool-cases, inl, inr,
}
use hao_server.Timestamp.{Timestamp, invalid_time, le_time}
use hao_server.Timer.{Timer, timer_pop, earliest_time}
use hao_server.Timer.Order.{due_of}
use hao_server.Timer.Added.{IsTimer}
use hao_server.Timer.Popped.{Popped, timer_pop-Popped, first_due}
use hao_server.Net.State.{MsgHeader, Socket, store}
use hao_server.Net.Timers.{remove_first_timer, get_over_time_timer, take_over_time}
use hao_server.Net.Timers.Taken.{
  HasHeaders, overdue, Taken, none-Taken, still-HasHeaders, more-Taken, after_one, le_time_mono,
}

module _ (now : Timestamp) (s : Socket) where
  remove_first_timer-some :
      (s.timer.n == 0) ≡ false
      → remove_first_timer s ≡ (record s { timer = (timer_pop s.timer).0 }, (timer_pop s.timer).1)
  unfolding remove_first_timer
  remove_first_timer-some some_left = rw some_left refl

  get_over_time_timer-empty : (s.timer.n == 0) ≡ true → get_over_time_timer now s ≡ some (s, none)
  unfolding get_over_time_timer
  get_over_time_timer-empty empty = rw empty refl

  get_over_time_timer-early :
      le_time (earliest_time s.timer) now ≡ false → get_over_time_timer now s ≡ some (s, none)
  unfolding get_over_time_timer
  get_over_time_timer-early early = elim (Bool-cases (s.timer.n == 0)) [
    | inl empty ↦ rw empty refl
    | inr some_left ↦ rw (early, some_left) refl
  ]

  get_over_time_timer-late :
      (h : MsgHeader)
      → (s.timer.n == 0) ≡ false
      → le_time (earliest_time s.timer) now ≡ true
      → (timer_pop s.timer).1 ≡ some h
      → get_over_time_timer now s
        ≡ some (
          store
              (record s { timer = (timer_pop s.timer).0 })
              h.conn
              (record (s.conns h.conn) { timer_id = none }),
          some h,
        )
  unfolding get_over_time_timer
  get_over_time_timer-late h some_left late given =
      let continue : Socket × Option MsgHeader → Option (Socket × Option MsgHeader) = λ removed.
        elim (removed.1) [
          | none ↦ none
          | some h ↦
              let t = removed.0 in
              some (store t h.conn (record (t.conns h.conn) { timer_id = none }), some h)
        ] in
      rw (late, some_left)
        (ap continue (
          remove_first_timer-some some_left
          ∙ ap (λ g. (record s { timer = (timer_pop s.timer).0 }, g)) given))

none_overdue :
    (now : Timestamp) (t : Timer MsgHeader)
    → IsTimer t
    → (t.n ≡ 0) ⊎ (le_time (earliest_time t) now ≡ false)
    → (x : ℕ) → overdue now t x ≡ false
none_overdue now t v stop x = elim (Bool-cases (t.live x)) [
  | inl lives ↦
      let (i, lt, is) = (v.holds x).1 lives in
      elim stop [
        | inl empty ↦ absurd (omega (arith, lt, empty))
        | inr early ↦
            let some_left : (t.n == 0) ≡ false = ground (arith, lt) in
            let first : le_time (due_of t (t.p 0)) now ≡ false =
              sym (ap (λ b. le_time (if b then invalid_time else due_of t (t.p 0)) now) some_left)
              ∙ early in
            rw lives (le_time_mono _ _ now (first_due t v x lives) first)
      ]
  | inr is_dead ↦ rw is_dead refl
]

-- Timers with headers and a timer queue that is consistent: the loop ends without a fault, and has
-- taken the timers that are due out of the queue.
pub take_over_time-Taken :
    (k : ℕ) (now : Timestamp) (header : ℕ → MsgHeader) (s : Socket)
    → IsTimer s.timer
    → HasHeaders s.timer header
    → s.timer.n < k
    → (u : Socket) × (hs : List MsgHeader) × (take_over_time k now s ≡ some (u, hs))
      × Taken now header s u hs
unfolding take_over_time
take_over_time-Taken zero now header s v has fuel = absurd (omega (arith, fuel))
take_over_time-Taken (suc k) now header s v has fuel =
    elim (Bool-cases (le_time (earliest_time s.timer) now)) [
      | inl late ↦ elim (Bool-cases (s.timer.n == 0)) [
        | inl empty ↦ (
          s,
          [],
          rw (get_over_time_timer-empty now s empty) refl,
          none-Taken v has (none_overdue now s.timer v (inl (ground (arith, empty)))),
        )
        | inr some_left ↦
            let t = (timer_pop s.timer).0 in
            let e = s.timer.p 0 in
            let raw = timer_pop-Popped s.timer v (ground (arith, some_left)) in
            let is : (timer_pop s.timer).1 ≡ some (header e) = raw.given ∙ has e raw.lives in
            let one : Popped s.timer t (some (header e)) = subst (Popped s.timer t) is raw in
            let (u, hs, done, more) =
              take_over_time-Taken k now header (after_one header t s) one.consistent
                (still-HasHeaders now header s t one has)
                (one_less one.same_n (ground (arith, some_left)) fuel) in
            (
              u,
              header e ∷ hs,
              rw (get_over_time_timer-late now s (header e) some_left late is, done) refl,
              more-Taken now header s t one late more,
            )
      ]
      | inr early ↦ (
        s,
        [],
        rw (get_over_time_timer-early now s early) refl,
        none-Taken v has (none_overdue now s.timer v (inr early)),
      )
    ]
  where
    one_less : {n m k : ℕ} → m ≡ n - 1 → 0 < n → n < suc k → m < k
    one_less a b c = omega (arith, a, b, c)

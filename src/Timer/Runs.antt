-- ===== src/Timer/Runs.antt =====
-- Sequences of the operations of Timer, of app/util/hao_timer.cpp.
use hao_server.Base.{
  ℕ, zero, suc, ◌+◌, ◌-◌, ◌^◌, ◌≤◌, ◌<◌, ◌≡◌, ◌≢◌, ◌↔◌, refl, sym, ap, ◌∙◌, subst, true, false,
  ◌==◌, Option, some, arith, eq_cases, Option-cases, inl, inr, List, [], ◌∷◌, length, ◌>>=◌,
}
use hao_server.Timestamp.{Timestamp}
use hao_server.Timer.{
  Event, Timer, update, parent, timer_add, timer_update, timer_cancel, timer_pop, earliest_time,
  empty_timer,
}
use hao_server.Timer.Order.{NoLater, NoLater-trans, IsHeap, due_of, update-false}
use hao_server.Timer.Remove.{shift_down-data, shorter}
use mathlib.Core.Option.{some-injective}
use hao_server.Timer.Added.{IsTimer, timer_add-IsTimer}
use hao_server.Timer.Steps.{timer_update-IsTimer, timer_cancel-IsTimer, timer_pop-IsTimer, popped}

-- The operations of Timer that change it
pub data TimerOp {ℓ} (A : Type ℓ) : Type ℓ where
  add : Timestamp → A → TimerOp A
  move : Option ℕ → Timestamp → TimerOp A
  cancel : Option ℕ → TimerOp A
  pop : TimerOp A

module _ {ℓ} {A : Type ℓ} where
  unfoldable pub run_op : TimerOp A → Timer A → Option (Timer A)
  run_op (add time contents) t = some (timer_add t time contents).0
  run_op (move id time) t = timer_update t id time
  run_op (cancel id) t = do r ← timer_cancel t id; some (r.0)
  run_op pop t = some (timer_pop t).0

  -- The operations in turn; one that touches a freed event is the end.
  unfoldable pub run_ops : List (TimerOp A) → Timer A → Option (Timer A)
  run_ops [] t = some t
  run_ops (o ∷ os) t = run_op o t >>= λ u. run_ops os u

  run_op-IsTimer :
      {t u : Timer A} (o : TimerOp A)
      → IsTimer t
      → suc t.n < 2 ^ 31
      → run_op o t ≡ some u
      → IsTimer u × (u.n ≤ suc t.n)
  unfolding run_op
  run_op-IsTimer {t} (add time contents) v room e =
      let (w, size) = timer_add-IsTimer time contents v room in
      subst (λ u. IsTimer u × (u.n ≤ suc t.n)) (some-injective _ _ e) (w, omega (arith, size))
  run_op-IsTimer {t} (move id time) v room e =
      let (w, size) = timer_update-IsTimer id time v e in (w, omega (arith, size))
  run_op-IsTimer {t} {u} (cancel id) v room e = elim (Option-cases (timer_cancel t id)) [
    | inl fault ↦ absurd (cc (sym (ap (λ o. o >>= λ r. some (r.0)) fault) ∙ e))
    | inr ((w, done), is) ↦
        let (h, size) = timer_cancel-IsTimer id v is in
        subst (λ u. IsTimer u × (u.n ≤ suc t.n))
          (some-injective _ _ (sym (ap (λ o. o >>= λ r. some (r.0)) is) ∙ e))
          (h, omega (arith, size))
  ]
  run_op-IsTimer {t} pop v room e =
      let (w, size) = timer_pop-IsTimer v in
      subst (λ u. IsTimer u × (u.n ≤ suc t.n)) (some-injective _ _ e) (w, omega (arith, size))

  run_ops-Kept :
      (os : List (TimerOp A)) {t u : Timer A}
      → IsTimer t
      → t.n + length os < 2 ^ 31
      → run_ops os t ≡ some u
      → IsTimer u
  unfolding run_ops
  run_ops-Kept [] v room e = subst IsTimer (some-injective _ _ e) v
  run_ops-Kept (o ∷ os) {t} v room e = elim (Option-cases (run_op o t)) [
    | inl fault ↦ absurd (cc (sym (ap (λ r. r >>= λ w. run_ops os w) fault) ∙ e))
    | inr (w, is) ↦
        let (h, size) = run_op-IsTimer o v (omega (arith, room)) is in
        run_ops-Kept os h (omega (arith, room, size))
          (sym (ap (λ r. r >>= λ w. run_ops os w) is) ∙ e)
  ]

  empty-IsTimer : (junk : Event A) → IsTimer (empty_timer junk)
  unfolding empty_timer
  empty-IsTimer junk = record {
    room = omega arith;
    heap = record {
      fits = omega arith;
      agrees = λ x. refl;
      edges = λ i pos lt. absurd (omega (arith, lt));
      indexed = λ i lt. absurd (omega (arith, lt));
    };
    holds = λ x. (λ (i, lt, is). absurd (omega (arith, lt)), λ e. absurd (cc e));
    fresh = λ x e. absurd (cc e);
  }

  -- From the empty timer, fewer than 2^31 operations, none of which touches a freed event, leave a heap
  -- of fewer than 2^31 events that is in order and no larger than the array's capacity, whose events know
  -- their places and are exactly the allocated ones.
  pub run_ops-IsTimer :
      (junk : Event A) (os : List (TimerOp A)) (t : Timer A)
      → length os < 2 ^ 31
      → run_ops os (empty_timer junk) ≡ some t
      → IsTimer t
  unfolding empty_timer
  run_ops-IsTimer junk os t few e = run_ops-Kept os (empty-IsTimer junk) (omega (arith, few)) e

  pub root_first :
      {due : ℕ → Timestamp} (k : ℕ) {t : Timer A}
      → IsHeap due t
      → (i : ℕ) → i < k
      → i < t.n
      → NoLater due (t.p 0) (t.p i)
  root_first zero h i below lt = absurd (omega (arith, below))
  root_first {due} (suc k) {t} h i below lt = elim (eq_cases i 0) [
    | inl root ↦ rw root (omega arith)
    | inr inner ↦
        NoLater-trans due (t.p 0) (t.p (parent i)) (t.p i)
          (root_first k h (parent i) (omega (arith, below, inner)) (omega (arith, lt)))
          (h.edges i (omega (arith, inner)) lt)
  ]

  -- Pop of a consistent timer that is not empty frees one event, gives back its data and leaves the
  -- other events, with their times and data: the event was due no later than any other, at the time that
  -- EarliestTime said.
  pub timer_pop-earliest :
      (t : Timer A)
      → IsTimer t
      → 0 < t.n
      → let (u, contents) = timer_pop t in
        (e : ℕ) × (t.live e ≡ true)
        × (earliest_time t ≡ due_of t e)
        × (contents ≡ (t.events e).user_data)
        × ((x : ℕ) → t.live x ≡ true → NoLater (due_of t) e x)
        × ((x : ℕ) → (u.live x ≡ true) ↔ ((t.live x ≡ true) × (x ≢ e)))
        × ((x : ℕ) → x ≢ e → due_of u x ≡ due_of t x)
        × ((x : ℕ) → x ≢ e → (u.events x).user_data ≡ (t.events x).user_data)
  unfolding timer_pop
  timer_pop-earliest t v pos =
      let some_left : (t.n == 0) ≡ false = ground (arith, pos) in
      let r = popped v pos in
      let first = t.p 0 in
      rw some_left (
        first,
        (v.holds first).0 (0, pos, refl),
        refl,
        shift_down-data (shorter t) 0 (t.p (t.n - 1)) first,
        λ x lives.
            let (i, lt, is) = (v.holds x).1 lives in
            subst (NoLater (due_of t) first) is (root_first (suc i) v.heap i (omega arith) lt),
        λ x.
            subst (λ f. (update f first false x ≡ true) ↔ ((t.live x ≡ true) × (x ≢ first)))
              (sym r.same_live) (update-false t.live first x),
        λ x ne. r.heap.agrees x,
        r.same_data,
      )

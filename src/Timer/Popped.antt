-- ===== src/Timer/Popped.antt =====
-- Pop of app/util/hao_timer.cpp, for what is done with the event that it gives back.
use hao_server.Base.{ℕ, suc, ◌-◌, ◌<◌, ◌≡◌, ◌≢◌, refl, ap, subst, true, false, ◌==◌, Option, arith}
use hao_server.Timer.{Timer, update, earliest_time, timer_pop}
use hao_server.Timer.Order.{NoLater, due_of}
use hao_server.Timer.Remove.{shorter, shift_down-data}
use hao_server.Timer.Added.{IsTimer}
use hao_server.Timer.Steps.{popped, freed-IsTimer}
use hao_server.Timer.Runs.{root_first}

module _ {ℓ} {A : Type ℓ} where
  -- The first event is given back, and the others stay.
  pub record Popped (t u : Timer A) (contents : Option A) : Type ℓ where
    pub consistent : IsTimer u
    pub lives : t.live (t.p 0) ≡ true
    pub earliest : earliest_time t ≡ due_of t (t.p 0)
    pub first : (x : ℕ) → t.live x ≡ true → NoLater (due_of t) (t.p 0) x
    pub given : contents ≡ (t.events (t.p 0)).user_data
    pub same_live : u.live ≡ update t.live (t.p 0) false
    pub same_n : u.n ≡ t.n - 1
    pub same_due : (x : ℕ) → x ≢ t.p 0 → due_of u x ≡ due_of t x
    pub same_data : (x : ℕ) → x ≢ t.p 0 → (u.events x).user_data ≡ (t.events x).user_data

  pub first_due :
      (t : Timer A) → IsTimer t → (x : ℕ) → t.live x ≡ true → NoLater (due_of t) (t.p 0) x
  first_due t v x lives =
      let (i, lt, is) = (v.holds x).1 lives in
      subst (NoLater (due_of t) (t.p 0)) is (root_first (suc i) v.heap i (omega arith) lt)

  pub timer_pop-Popped :
      (t : Timer A) → IsTimer t → 0 < t.n → Popped t (timer_pop t).0 (timer_pop t).1
  unfolding timer_pop
  timer_pop-Popped t v pos =
      let some_left : (t.n == 0) ≡ false = ground (arith, pos) in
      let r = popped v pos in
      rw some_left (record {
        consistent = freed-IsTimer _ v r;
        lives = (v.holds (t.p 0)).0 (0, pos, refl);
        earliest = rw some_left refl;
        first = first_due t v;
        given = shift_down-data (shorter t) 0 (t.p (t.n - 1)) (t.p 0);
        same_live = ap (λ f. update f (t.p 0) false) r.same_live;
        same_n = r.same_n;
        same_due = λ x ne. r.heap.agrees x;
        same_data = r.same_data;
      })

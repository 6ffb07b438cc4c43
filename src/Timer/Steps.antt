-- ===== src/Timer/Steps.antt =====
-- Each operation of Timer, of app/util/hao_timer.cpp, keeps the heap in order and holding the events
-- that are allocated.
use hao_server.Base.{
  ℕ, ◌-◌, ◌≤◌, ◌<◌, ◌≡◌, ◌≢◌, refl, sym, ap, ◌∙◌, subst, Bool, true, false, ◌==◌, Option, some,
  none, arith, eq_cases, Bool-cases, Option-cases, inl, inr, ◌⊎◌,
}
use hao_server.Timestamp.{Timestamp}
use hao_server.Timer.{
  Timer, update, update_ref, timer_update, timer_cancel, timer_pop, heap_adjust, heap_erase,
  heap_erase_at, shift_down,
}
use hao_server.Timer.Order.{due_of, update-other, update-false}
use hao_server.Timer.Sifted.{InHeap, Around, Sifted}
use hao_server.Timer.Remove.{Removed, shorter}
use hao_server.Timer.Erase.{Removed-event, shift_down-Removed, heap_erase_at-Removed}
use mathlib.Core.Option.{some-injective}
use hao_server.Timer.Adjust.{index-retime, retime, heap_adjust_at-Sifted}
use hao_server.Timer.Added.{IsTimer, own}

module _ {ℓ} {A : Type ℓ} where
  -- An event is taken out and freed.
  pub freed-IsTimer :
      {t u : Timer A} {due : ℕ → Timestamp} {e : ℕ} (ref : Option ℕ → Option ℕ)
      → IsTimer t
      → Removed due t e u
      → IsTimer (record u { live = update u.live e false; ref = ref })
  freed-IsTimer {t} {u} {due} {e} ref v r =
      let still : (x : ℕ) → update u.live e false x ≡ true → (t.live x ≡ true) × (x ≢ e) =
        λ x lives.
          (update-false t.live e x).0 (ap (λ f. update f e false x) (sym r.same_live) ∙ lives) in
      record {
        room = omega (arith, v.room, r.same_n, r.same_a);
        heap = record {
          fits = r.heap.fits;
          agrees = λ x. refl;
          edges = (own r.heap).edges;
          indexed = r.heap.indexed;
        };
        holds = λ x. (
          (λ here.
              let (was, ne) = (r.holds x).0 here in
              update-other u.live e x false ne ∙ ap (λ f. f x) r.same_live ∙ (v.holds x).0 was),
          λ lives. let (lived, ne) = still x lives in (r.holds x).1 ((v.holds x).1 lived, ne),
        );
        fresh = λ x lives. subst (λ k. x < k) (sym r.same_next) (v.fresh x ((still x lives).0));
      }

  -- The event at i gets another time.
  adjusted-IsTimer :
      {t : Timer A} (i : ℕ) (time : Timestamp)
      → IsTimer t
      → i < t.n
      → let u = heap_adjust (retime t (t.p i) time) (t.p i) in IsTimer u × (u.n ≡ t.n)
  unfolding heap_adjust
  adjusted-IsTimer {t} i time v lt =
      let index = index-retime t (t.p i) time (t.p i) ∙ v.heap.indexed i lt in
      rw index (let s = heap_adjust_at-Sifted v.heap i lt time in (kept s, s.kept.same_n))
    where
      back : (x : ℕ) → (x ≡ t.p i) ⊎ Around (retime t (t.p i) time) i x → InHeap t x
      back x (inl is) = (i, lt, sym is)
      back x (inr (k, below, away, is)) = (k, below, is)

      on : (x : ℕ) → InHeap t x → (x ≡ t.p i) ⊎ Around (retime t (t.p i) time) i x
      on x (k, below, is) = elim (eq_cases k i) [
        | inl same ↦ inl (sym is ∙ ap t.p same)
        | inr away ↦ inr (k, below, away, is)
      ]

      kept :
          {u : Timer A}
          → Sifted (update (due_of t) (t.p i) time) (retime t (t.p i) time) i (t.p i) u
          → IsTimer u
      kept {u} s =
          let live = λ (x : ℕ). ap (λ f. f x) s.kept.same_live in
          record {
            heap = own s.heap;
            room = omega (arith, v.room, s.kept.same_n, s.kept.same_a);
            holds = λ x. (
              λ here. live x ∙ (v.holds x).0 (back x ((s.holds x).0 here)),
              λ h. (s.holds x).1 (on x ((v.holds x).1 (sym (live x) ∙ h))),
            );
            fresh = λ x h. subst (λ k. x < k) (sym s.kept.same_next) (v.fresh x (sym (live x) ∙ h));
          }

  pub timer_update-IsTimer :
      {t u : Timer A} (id : Option ℕ) (time : Timestamp)
      → IsTimer t
      → timer_update t id time ≡ some u
      → IsTimer u × (u.n ≡ t.n)
  unfolding timer_update
  timer_update-IsTimer {t} {u} id time v = elim (Option-cases (t.ref id)) [
    | inl missing ↦
        rw (timer_update, missing)
          (λ e. subst (λ w. IsTimer w × (w.n ≡ t.n)) (some-injective _ _ e) (v, refl))
    | inr (ev, found) ↦
        rw (timer_update, found)
          (elim (Bool-cases (t.live ev)) [
            | inr dead ↦ rw dead (λ e. absurd (cc e))
            | inl lives ↦ rw lives (λ e.
                subst (λ w. IsTimer w × (w.n ≡ t.n)) (some-injective _ _ e)
                  (let (i, lt, is) = (v.holds ev).1 lives in
                    subst (λ x. let w = heap_adjust (retime t x time) x in IsTimer w × (w.n ≡ t.n))
                      is (adjusted-IsTimer i time v lt)))
          ])
  ]

  pub timer_cancel-IsTimer :
      {t u : Timer A} {done : Bool} (id : Option ℕ)
      → IsTimer t
      → timer_cancel t id ≡ some (u, done)
      → IsTimer u × (u.n ≤ t.n)
  unfolding timer_cancel heap_erase
  timer_cancel-IsTimer {t} {u} {done} id v = elim (Option-cases (t.ref id)) [
    | inl missing ↦
        rw (timer_cancel, missing)
          (λ e.
            subst (λ w. IsTimer w × (w.n ≤ t.n)) (ap (λ r. r.0) (some-injective _ _ e))
              (v, omega arith))
    | inr (ev, found) ↦
        rw (timer_cancel, found)
          (elim (Bool-cases (t.live ev)) [
            | inr dead ↦ rw dead (λ e. absurd (cc e))
            | inl lives ↦ rw lives (λ e.
                subst (λ w. IsTimer w × (w.n ≤ t.n)) (ap (λ r. r.0) (some-injective _ _ e))
                  (cancelled ev ((v.holds ev).1 lives)))
          ])
  ]
    where
      cancelled :
          (ev : ℕ)
          → InHeap t ev
          → let w = heap_erase_at (t.events ev).min_heap_idx t ev in
            IsTimer (record w { live = update w.live ev false; ref = update_ref w.ref id none })
            × (w.n ≤ t.n)
      cancelled ev (i, lt, is) =
          let index = subst (λ x. (t.events x).min_heap_idx ≡ some i) is (v.heap.indexed i lt) in
          let r =
            subst (λ x. Removed (due_of t) t x (heap_erase_at (some i) t x)) is
              (heap_erase_at-Removed v.heap i lt) in
          rw index (freed-IsTimer _ v r, omega (arith, r.same_n))

  -- What TimerCancel does with an id that stands for an allocated event
  pub record Cancelled (t u : Timer A) (i ev : ℕ) : Type ℓ where
    pub consistent : IsTimer u
    pub same_live : u.live ≡ update t.live ev false
    pub entry_gone : u.ref (some i) ≡ none

  pub timer_cancel-Cancelled :
      {t : Timer A} (i ev : ℕ)
      → IsTimer t
      → t.ref (some i) ≡ some ev
      → t.live ev ≡ true
      → (u : Timer A) × (timer_cancel t (some i) ≡ some (u, true)) × Cancelled t u i ev
  unfolding timer_cancel heap_erase
  timer_cancel-Cancelled {t} i ev v found lives =
      let (j, lt, is) = (v.holds ev).1 lives in
      let index = subst (λ x. (t.events x).min_heap_idx ≡ some j) is (v.heap.indexed j lt) in
      let r =
        subst (λ x. Removed (due_of t) t x (heap_erase_at (some j) t x)) is
          (heap_erase_at-Removed v.heap j lt) in
      let w = heap_erase_at (some j) t ev in
      (
        record w { live = update w.live ev false; ref = update_ref w.ref (some i) none },
        rw (timer_cancel, found, lives, index) refl,
        record {
          consistent = freed-IsTimer _ v r;
          same_live = ap (λ f. update f ev false) r.same_live;
          entry_gone = let own : (i == i) ≡ true = ground arith in rw own refl;
        },
      )

  pub popped :
      {t : Timer A}
      → IsTimer t
      → 0 < t.n
      → let shifted = shift_down (shorter t) 0 (t.p (t.n - 1)) in
        Removed (due_of t) t (t.p 0) (record shifted {
          events =
              update shifted.events
                (t.p 0)
                (record (shifted.events (t.p 0)) { min_heap_idx = none; user_data = none });
        })
  popped {t} v pos =
      let r = shift_down-Removed v.heap 0 pos (λ inner. absurd (omega (arith, inner))) in
      Removed-event _ r (r.heap.agrees (t.p 0))

  pub timer_pop-IsTimer :
      {t : Timer A} → IsTimer t → IsTimer (timer_pop t).0 × ((timer_pop t).0.n ≤ t.n)
  unfolding timer_pop
  timer_pop-IsTimer {t} v = elim (Bool-cases (t.n == 0)) [
    | inl none_left ↦ rw none_left (v, omega arith)
    | inr some_left ↦ rw some_left (
        let pos : 0 < t.n = ground (arith, some_left) in
        let r = popped v pos in (freed-IsTimer _ v r, omega (arith, r.same_n)))
  ]

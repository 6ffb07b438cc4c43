-- ===== src/Timer/Adjust.antt =====
-- min_heap_adjust_ of app/util/hao_timer.cpp
use hao_server.Base.{
  ℕ, ◌<◌, ◌≡◌, ◌≢◌, sym, ap, ◌∙◌, ◌&&◌, some, arith, eq_cases, ltb, Bool-cases, inl, inr,
}
use hao_server.Timestamp.{Timestamp, gt_time}
use hao_server.Timer.{Event, Timer, update, parent, heap_adjust_at}
use hao_server.Timer.Order.{
  NoLater, Holed, IsHeap, elem_greater_of, due_of, update-same, update-other,
}
use hao_server.Timer.Sifted.{Sifted}
use hao_server.Timer.Up.{shift_up_unconditional-Sifted}
use hao_server.Timer.Down.{shift_down-Sifted}
use hao_server.Timer.Remove.{one_place, bridged}

NoLater-retime :
    (before : ℕ → Timestamp) (e : ℕ) (time : Timestamp) (x y : ℕ)
    → x ≢ e
    → y ≢ e
    → NoLater before x y
    → NoLater (update before e time) x y
NoLater-retime before e time x y h k less =
    rw (update-other before e x time h, update-other before e y time k) less

module _ {ℓ} {A : Type ℓ} where
  -- An event with another time
  abbrev pub retime : Timer A → ℕ → Timestamp → Timer A
  retime t e time = record t {
    events = update t.events e (record (t.events e) { ev_timeout = time });
  }

  due-retime :
      (t : Timer A) (e : ℕ) (time : Timestamp) (x : ℕ)
      → due_of (retime t e time) x ≡ update (due_of t) e time x
  due-retime t e time x = elim (eq_cases x e) [
    | inl same ↦ rw same (
        ap (λ (v : Event A). v.ev_timeout) (update-same t.events e _)
        ∙ sym (update-same (due_of t) e time))
    | inr other ↦
        ap (λ (v : Event A). v.ev_timeout) (update-other t.events e x _ other)
        ∙ sym (update-other (due_of t) e x time other)
  ]

  pub index-retime :
      (t : Timer A) (e : ℕ) (time : Timestamp) (x : ℕ)
      → ((retime t e time).events x).min_heap_idx ≡ (t.events x).min_heap_idx
  index-retime t e time x = elim (eq_cases x e) [
    | inl same ↦ rw same (ap (λ (v : Event A). v.min_heap_idx) (update-same t.events e _))
    | inr other ↦ ap (λ (v : Event A). v.min_heap_idx) (update-other t.events e x _ other)
  ]

  retime-Holed :
      {t : Timer A}
      → IsHeap (due_of t) t
      → (i : ℕ) → i < t.n
      → (time : Timestamp)
      → Holed (update (due_of t) (t.p i) time) (retime t (t.p i) time) i (t.p i)
  retime-Holed {t} h i lt time =
      let away : (k : ℕ) → k < t.n → k ≢ i → t.p k ≢ t.p i =
        λ k below ne same. ne (one_place h k i below lt same) in
      let kept = NoLater-retime (due_of t) (t.p i) time in
      record {
        fits = h.fits;
        agrees = due-retime t (t.p i) time;
        inside = lt;
        edges = λ k some_edge below ne off.
            kept (t.p (parent k)) (t.p k) (away (parent k) (omega (arith, below)) off)
              (away k below ne) (h.edges k some_edge below);
        bridge = λ k some_edge below edge pos.
            kept (t.p (parent i)) (t.p k) (away (parent i) (omega (arith, lt)) (omega (arith, pos)))
              (away k below (omega (arith, edge, some_edge)))
              (bridged h i k pos some_edge below edge);
        indexed = λ k below ne. index-retime t (t.p i) time (t.p k) ∙ h.indexed k below;
        absent = away;
      }

  -- An event of the heap that gets another time moves up or down.
  pub heap_adjust_at-Sifted :
      {t : Timer A}
      → IsHeap (due_of t) t
      → (i : ℕ) → i < t.n
      → (time : Timestamp)
      → Sifted
          (update (due_of t) (t.p i) time)
          (retime t (t.p i) time)
          i
          (t.p i)
          (heap_adjust_at (some i) (retime t (t.p i) time) (t.p i))
  unfolding heap_adjust_at
  heap_adjust_at-Sifted {t} h i lt time =
      let due = update (due_of t) (t.p i) time in
      let holed = retime-Holed h i lt time in
      rw (elem_greater_of (retime t (t.p i) time) holed.agrees (t.p (parent i)) (t.p i))
        (elim (Bool-cases (ltb 0 i && gt_time (due (t.p (parent i))) (due (t.p i)))) [
          | inl up ↦
              rw up (shift_up_unconditional-Sifted holed (ground (arith, up)) (ground (arith, up)))
          | inr stop ↦ rw stop (shift_down-Sifted holed (λ pos. ground (arith, stop, pos)))
        ])

-- ===== src/Timer/Erase.antt =====
-- min_heap_erase_ of app/util/hao_timer.cpp, at the end of the heap and inside it
use hao_server.Base.{
  ℕ, ◌-◌, ◌<◌, ◌≡◌, ◌≢◌, refl, sym, ap, ◌∙◌, subst, true, ◌&&◌, some, none, arith, eq_cases, ltb,
  Bool-cases, inl, inr,
}
use hao_server.Timestamp.{Timestamp, gt_time}
use hao_server.Timer.{Event, Timer, update, parent, place, shift_down, heap_erase_at}
use hao_server.Timer.Order.{
  NoLater, IsHeap, elem_greater_of, due-place, index-other, off_hole, update-same, update-other,
}
use hao_server.Timer.Sifted.{Kept-place}
use hao_server.Timer.Up.{shift_up_unconditional-Sifted}
use hao_server.Timer.Down.{shift_down-Sifted}
use hao_server.Timer.Remove.{
  shorter, Removed, shift_down_loop-stop, one_place, shorter-Holed, Sifted-Removed,
}

module _ {ℓ} {A : Type ℓ} {due : ℕ → Timestamp} where
  -- The last event of all is put back behind the heap.
  last_Removed :
      {t : Timer A}
      → IsHeap due t
      → 0 < t.n
      → Removed due t (t.p (t.n - 1)) (shift_down (shorter t) (t.n - 1) (t.p (t.n - 1)))
  unfolding shift_down
  last_Removed {t} h pos =
      let last = t.p (t.n - 1) in
      let u = place (shorter t) (t.n - 1) last in
      let kept = Kept-place (shorter t) (t.n - 1) last in
      let off : (i : ℕ) → i < t.n - 1 → u.p i ≡ t.p i =
        λ i lt. off_hole (shorter t) (t.n - 1) last i (omega (arith, lt)) in
      let ne : (i : ℕ) → i < t.n - 1 → t.p i ≢ last = λ i lt same. absurd (
        omega (arith, lt, one_place h i (t.n - 1) (omega (arith, lt)) (omega (arith, pos)) same)) in
      subst (Removed due t last)
        (sym (
          shift_down_loop-stop (t.n - 1) (shorter t) (t.n - 1) last (omega (arith, h.fits, pos))
            (omega (arith, pos))))
        (record {
          heap = record {
            fits = omega (arith, h.fits);
            agrees = λ x. due-place (shorter t) (t.n - 1) last x ∙ h.agrees x;
            edges = λ i some_edge lt.
                rw (off i lt, off (parent i) (omega (arith, lt)))
                  (h.edges i some_edge (omega (arith, lt)));
            indexed = λ i lt. rw (off i lt) (
                index-other (shorter t) (t.n - 1) last (t.p i) (ne i lt)
                ∙ h.indexed i (omega (arith, lt)));
          };
          holds = λ x. (
            λ (i, lt, is).
                let was = sym (off i lt) ∙ is in
                ((i, omega (arith, lt), was), λ same. ne i lt (was ∙ same)),
            λ ((i, lt, is), other).
                let below : i < t.n - 1 = before_last x i lt is other in
                (i, below, off i below ∙ is),
          );
          same_n = refl;
          same_a = refl;
          same_live = refl;
          same_ref = refl;
          same_next = refl;
          same_data = λ x _. kept.same_data x;
        })
    where
      before_last : (x i : ℕ) → i < t.n → t.p i ≡ x → x ≢ t.p (t.n - 1) → i < t.n - 1
      before_last x i lt is other = elim (eq_cases i (t.n - 1)) [
        | inl same ↦ absurd (other (sym is ∙ ap t.p same))
        | inr ne ↦ omega (arith, lt, ne)
      ]

  pub shift_down-Removed :
      {t : Timer A}
      → IsHeap due t
      → (i : ℕ) → i < t.n
      → (0 < i → NoLater due (t.p (parent i)) (t.p (t.n - 1)))
      → Removed due t (t.p i) (shift_down (shorter t) i (t.p (t.n - 1)))
  shift_down-Removed {t} h i lt above = elim (eq_cases i (t.n - 1)) [
    | inl same ↦
        subst (λ k. Removed due t (t.p k) (shift_down (shorter t) k (t.p (t.n - 1)))) (sym same)
          (last_Removed h (omega (arith, lt)))
    | inr other ↦
        Sifted-Removed h i (omega (arith, lt, other))
          (shift_down-Sifted (shorter-Holed h i (omega (arith, lt, other))) above)
  ]

  -- What becomes of the event that is taken out does not matter to the heap.
  pub Removed-event :
      {t u : Timer A} {e : ℕ} (v : Event A)
      → Removed due t e u
      → v.ev_timeout ≡ due e
      → Removed due t e (record u { events = update u.events e v })
  Removed-event {t} {u} {e} v r same_time = record {
    heap = record {
      fits = r.heap.fits;
      agrees = λ x. elim (eq_cases x e) [
        | inl same ↦
            rw same (ap (λ (w : Event A). w.ev_timeout) (update-same u.events e v) ∙ same_time)
        | inr other ↦
            ap (λ (w : Event A). w.ev_timeout) (update-other u.events e x v other) ∙ r.heap.agrees x
      ];
      edges = r.heap.edges;
      indexed = λ i lt.
          rw (update-other u.events e (u.p i) v (((r.holds (u.p i)).0 (i, lt, refl)).1))
            (r.heap.indexed i lt);
    };
    holds = r.holds;
    same_n = r.same_n;
    same_a = r.same_a;
    same_live = r.same_live;
    same_ref = r.same_ref;
    same_next = r.same_next;
    same_data = λ x ne. rw (update-other u.events e x v ne) (r.same_data x ne);
  }

  pub heap_erase_at-Removed :
      {t : Timer A}
      → IsHeap due t
      → (i : ℕ) → i < t.n
      → Removed due t (t.p i) (heap_erase_at (some i) t (t.p i))
  unfolding heap_erase_at
  heap_erase_at-Removed {t} h i lt =
      let last = t.p (t.n - 1) in
      let out = λ (u : Timer A) (r : Removed due t (t.p i) u).
        Removed-event (record (u.events (t.p i)) { min_heap_idx = none }) r
          (r.heap.agrees (t.p i)) in
      rw (elem_greater_of t h.agrees (t.p (parent i)) last)
        (elim (Bool-cases (ltb 0 i && gt_time (due (t.p (parent i))) (due last))) [
          | inl up ↦ rw up (
              let pos : 0 < i = ground (arith, up) in
              let less : NoLater due last (t.p (parent i)) = ground (arith, up) in
              let inner = before_last i lt pos up in
              out _ (
                Sifted-Removed h i inner
                  (shift_up_unconditional-Sifted (shorter-Holed h i inner) pos less)))
          | inr stop ↦
              rw stop (out _ (shift_down-Removed h i lt (λ pos. ground (arith, stop, pos))))
        ])
    where
      before_last :
          (i : ℕ)
          → i < t.n
          → 0 < i
          → (ltb 0 i && gt_time (due (t.p (parent i))) (due (t.p (t.n - 1)))) ≡ true
          → i < t.n - 1
      before_last i lt pos up = elim (eq_cases i (t.n - 1)) [
        | inl same ↦ absurd (
            ground (
              arith,
              up,
              pos,
              subst (λ k. NoLater due (t.p (parent i)) (t.p k)) same (h.edges i pos lt),
            ))
        | inr ne ↦ omega (arith, lt, ne)
      ]

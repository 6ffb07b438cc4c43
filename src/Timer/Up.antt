-- ===== src/Timer/Up.antt =====
-- min_heap_shift_up_ and min_heap_shift_up_unconditional_ of app/util/hao_timer.cpp
use hao_server.Base.{
  ℕ, zero, suc, ◌≤◌, ◌<◌, ◌≡◌, ◌≢◌, ap, subst, ◌&&◌, arith, eq_cases, ltb, Bool-cases, inl, inr,
}
use hao_server.Timestamp.{Timestamp, gt_time}
use hao_server.Timer.{Timer, parent, place, shift_up_loop, shift_up, shift_up_unconditional}
use hao_server.Timer.Sifted.{Sifted, Sifted-fill, Sifted-move}
use hao_server.Timer.Order.{
  NoLater, NoLater-trans, Holed, AboveChildren, moved, at_hole, off_hole, elem_greater_of,
}

module _ {ℓ} {A : Type ℓ} {due : ℕ → Timestamp} where
  sibling :
      {t : Timer A} {hole e : ℕ}
      → Holed due t hole e
      → 0 < hole
      → (i : ℕ) → 0 < i
      → i < t.n
      → i ≢ hole
      → parent i ≡ parent hole
      → NoLater due (t.p (parent hole)) (t.p i)
  sibling {t} h pos i some_edge lt away edge =
      subst (λ k. NoLater due (t.p k) (t.p i)) edge
        (h.edges i some_edge lt away (omega (arith, edge, pos)))

  -- A round takes the hole to its parent.
  up-Holed :
      {t : Timer A} {hole e : ℕ}
      → Holed due t hole e
      → 0 < hole
      → Holed due (place t hole (t.p (parent hole))) (parent hole) e
  up-Holed {t} {hole} {e} h pos =
      let j = parent hole in
      let x = t.p j in
      let lower : j ≢ hole = omega arith in
      let top : j < t.n = omega (arith, h.inside) in
      moved h j top lower
        (λ i some_edge lt other edge. elim (eq_cases i hole) [
          | inl same ↦ absurd (edge (ap (λ k. parent k) same))
          | inr away ↦ elim (eq_cases (parent i) hole) [
            | inl below ↦
                rw (below, at_hole t hole x, off_hole t hole x i away)
                  (h.bridge i some_edge lt below pos)
            | inr far ↦
                rw (off_hole t hole x (parent i) far, off_hole t hole x i away)
                  (h.edges i some_edge lt away far)
          ]
        ])
        (λ i some_edge lt edge inner.
          let up = h.edges j inner top lower (omega (arith, pos)) in
          rw (off_hole t hole x (parent j) (omega (arith, pos))) (elim (eq_cases i hole) [
            | inl same ↦ rw (same, at_hole t hole x) up
            | inr away ↦ rw (off_hole t hole x i away) (
                NoLater-trans due (t.p (parent j)) x (t.p i) up
                  (sibling h pos i some_edge lt away edge))
          ]))

  up-AboveChildren :
      {t : Timer A} {hole e : ℕ}
      → Holed due t hole e
      → 0 < hole
      → NoLater due e (t.p (parent hole))
      → AboveChildren due (place t hole (t.p (parent hole))) (parent hole) e
  up-AboveChildren {t} {hole} {e} h pos less i some_edge lt edge =
      let x = t.p (parent hole) in
      elim (eq_cases i hole) [
        | inl same ↦ rw (same, at_hole t hole x) less
        | inr away ↦
            rw (off_hole t hole x i away)
              (NoLater-trans due e x (t.p i) less (sibling h pos i some_edge lt away edge))
      ]

  shift_up_loop-Sifted :
      (k : ℕ) {t : Timer A} {hole e : ℕ}
      → hole ≤ k
      → Holed due t hole e
      → AboveChildren due t hole e
      → Sifted due t hole e (shift_up_loop k t hole e)
  unfolding shift_up_loop
  shift_up_loop-Sifted zero {t} {hole} {e} fuel h below =
      Sifted-fill h (λ pos. absurd (omega (arith, pos, fuel))) below
  shift_up_loop-Sifted (suc k) {t} {hole} {e} fuel h below =
      rw (elem_greater_of t h.agrees (t.p (parent hole)) e)
        (elim (Bool-cases (ltb 0 hole && gt_time (due (t.p (parent hole))) (due e))) [
          | inl up ↦ rw up (
              let pos : 0 < hole = ground (arith, up) in
              Sifted-move h (parent hole) (omega (arith, pos, h.inside)) (omega (arith, pos)) (
                shift_up_loop-Sifted k (omega (arith, fuel, pos)) (up-Holed h pos)
                  (up-AboveChildren h pos (ground (arith, up)))))
          | inr stop ↦ rw stop (Sifted-fill h (λ pos. ground (arith, stop, pos)) below)
        ])

  pub shift_up-Sifted :
      {t : Timer A} {hole e : ℕ}
      → Holed due t hole e
      → AboveChildren due t hole e
      → Sifted due t hole e (shift_up t hole e)
  unfolding shift_up
  shift_up-Sifted {hole = hole} h below = shift_up_loop-Sifted hole (omega arith) h below

  pub shift_up_unconditional-Sifted :
      {t : Timer A} {hole e : ℕ}
      → Holed due t hole e
      → 0 < hole
      → NoLater due e (t.p (parent hole))
      → Sifted due t hole e (shift_up_unconditional t hole e)
  unfolding shift_up_unconditional
  shift_up_unconditional-Sifted {hole = hole} h pos less =
      Sifted-move h (parent hole) (omega (arith, pos, h.inside)) (omega (arith, pos))
        (shift_up-Sifted (up-Holed h pos) (up-AboveChildren h pos less))

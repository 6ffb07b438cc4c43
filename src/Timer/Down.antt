-- ===== src/Timer/Down.antt =====
-- min_heap_shift_down_ of app/util/hao_timer.cpp
use hao_server.Base.{
  ◌%◌, ◌^◌, ℕ, zero, suc, ◌+◌, ◌-◌, ◌*◌, ◌≤◌, ◌<◌, ◌≡◌, ◌≢◌, subst, ◌==◌, arith, eq_cases, ◌⊎◌, leb,
  Bool-cases, inl, inr,
}
use hao_server.Timestamp.{Timestamp, gt_time}
use hao_server.Timer.{Timer, parent, place, right_child, min_child, shift_down_loop, shift_down}
use hao_server.Timer.Sifted.{Sifted, Sifted-fill, Sifted-move}
use hao_server.Timer.Order.{
  NoLater, NoLater-trans, Holed, moved, at_hole, off_hole, elem_greater_of,
}

two_children :
    (hole i : ℕ) → 0 < i → parent i ≡ hole → (i ≡ 2 * (hole + 1) - 1) ⊎ (i ≡ 2 * (hole + 1))
two_children hole i some_edge edge = elim (eq_cases i (2 * (hole + 1))) [
  | inl same ↦ inr same
  | inr other ↦ inl (omega (arith, some_edge, edge, other))
]

module _ {ℓ} {A : Type ℓ} where
  -- The child that is due first
  record FirstChild (due : ℕ → Timestamp) (t : Timer A) (hole c : ℕ) : Type ℓ where
    below : parent c ≡ hole
    inner : hole < c
    inside : c < t.n
    first : (i : ℕ) → 0 < i → i < t.n → parent i ≡ hole → NoLater due (t.p c) (t.p i)

module _ {ℓ} {A : Type ℓ} {due : ℕ → Timestamp} where
  left_first :
      {t : Timer A} (hole : ℕ)
      → 2 * (hole + 1) ≤ t.n
      → (2 * (hole + 1) < t.n → NoLater due (t.p (2 * (hole + 1) - 1)) (t.p (2 * (hole + 1))))
      → FirstChild due t hole (2 * (hole + 1) - 1)
  left_first {t} hole room less = record {
    below = omega arith;
    inner = omega arith;
    inside = omega (arith, room);
    first = λ i some_edge lt edge. elim (two_children hole i some_edge edge) [
      | inl same ↦ rw same (omega arith)
      | inr same ↦ rw same (less (omega (arith, lt, same)))
    ];
  }

  right_first :
      {t : Timer A} (hole : ℕ)
      → 2 * (hole + 1) < t.n
      → NoLater due (t.p (2 * (hole + 1))) (t.p (2 * (hole + 1) - 1))
      → FirstChild due t hole (2 * (hole + 1))
  right_first {t} hole room less = record {
    below = omega arith;
    inner = omega arith;
    inside = room;
    first = λ i some_edge lt edge. elim (two_children hole i some_edge edge) [
      | inl same ↦ rw same less
      | inr same ↦ rw same (omega arith)
    ];
  }

  min_child-FirstChild :
      {t : Timer A} {hole e : ℕ}
      → Holed due t hole e
      → right_child hole ≤ t.n
      → FirstChild due t hole (min_child t hole)
  min_child-FirstChild {t} {hole} {e} h below_end =
      let right = 2 * (hole + 1) in
      let small : right % 2 ^ 32 ≡ right = omega (arith, h.fits, h.inside) in
      let room : right ≤ t.n = omega (arith, below_end, small) in
      rw (small, elem_greater_of t h.agrees (t.p right) (t.p (right - 1)))
        (elim (Bool-cases (right == t.n)) [
          | inl end ↦ rw end (left_first hole room (λ more. absurd (ground (arith, end, more))))
          | inr both ↦
              rw both (elim (Bool-cases (gt_time (due (t.p right)) (due (t.p (right - 1))))) [
                | inl left ↦ rw left (left_first hole room (λ more. ground (arith, left)))
                | inr later ↦
                    rw later (right_first hole (ground (arith, room, both)) (ground (arith, later)))
              ])
        ])

  down-Holed :
      {t : Timer A} {hole e c : ℕ}
      → Holed due t hole e
      → FirstChild due t hole c
      → Holed due (place t hole (t.p c)) c e
  down-Holed {t} {hole} {e} {c} h f =
      let x = t.p c in
      moved h c f.inside (omega (arith, f.inner))
        (λ i some_edge lt other edge. elim (eq_cases i hole) [
          | inl same ↦
              rw
                (
                  same,
                  at_hole t hole x,
                  off_hole t hole x (parent hole) (omega (arith, some_edge, same)),
                )
                (h.bridge c (omega (arith, f.inner)) f.inside f.below
                  (omega (arith, some_edge, same)))
          | inr away ↦ elim (eq_cases (parent i) hole) [
            | inl under ↦
                rw (under, at_hole t hole x, off_hole t hole x i away)
                  (f.first i some_edge lt under)
            | inr far ↦
                rw (off_hole t hole x (parent i) far, off_hole t hole x i away)
                  (h.edges i some_edge lt away far)
          ]
        ])
        (λ i some_edge lt edge inner.
          let away : i ≢ hole = omega (arith, edge, f.inner) in
          rw (f.below, at_hole t hole x, off_hole t hole x i away)
            (subst (λ k. NoLater due (t.p k) (t.p i)) edge
              (h.edges i some_edge lt away (omega (arith, edge, f.inner)))))

  shift_down_loop-Sifted :
      (k : ℕ) {t : Timer A} {hole e : ℕ}
      → t.n ≤ hole + k
      → Holed due t hole e
      → (0 < hole → NoLater due (t.p (parent hole)) e)
      → Sifted due t hole e (shift_down_loop k t hole e)
  unfolding shift_down_loop
  shift_down_loop-Sifted zero {t} {hole} {e} fuel h above = absurd (omega (arith, fuel, h.inside))
  shift_down_loop-Sifted (suc k) {t} {hole} {e} fuel h above =
      let c = min_child t hole in
      elim (Bool-cases (leb (right_child hole) t.n)) [
        | inr none_below ↦ rw none_below (
            Sifted-fill h above (λ i some_edge lt edge.
              absurd (ground (arith, none_below, lt, edge, some_edge, h.fits, h.inside))))
        | inl room ↦
            let f = min_child-FirstChild h (ground (arith, room)) in
            rw (room, elem_greater_of t h.agrees e (t.p c))
              (elim (Bool-cases (gt_time (due e) (due (t.p c)))) [
                | inl down ↦ rw down (
                    Sifted-move h c f.inside (omega (arith, f.inner)) (
                      shift_down_loop-Sifted k (omega (arith, fuel, f.inner)) (down-Holed h f)
                        (λ pos. rw (f.below, at_hole t hole (t.p c)) (ground (arith, down)))))
                | inr stop ↦ rw stop (
                    Sifted-fill h above (λ i some_edge lt edge.
                      NoLater-trans due e (t.p c) (t.p i) (ground (arith, stop))
                        (f.first i some_edge lt edge)))
              ])
      ]

  pub shift_down-Sifted :
      {t : Timer A} {hole e : ℕ}
      → Holed due t hole e
      → (0 < hole → NoLater due (t.p (parent hole)) e)
      → Sifted due t hole e (shift_down t hole e)
  unfolding shift_down
  shift_down-Sifted {t} h above = shift_down_loop-Sifted t.n (omega arith) h above

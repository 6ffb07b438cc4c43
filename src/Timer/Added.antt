-- ===== src/Timer/Added.antt =====
-- What a consistent timer of app/util/hao_timer.cpp is, and that TimerAdd leaves one.
use hao_server.Base.{
  ◌≤◌, ℕ, suc, ◌^◌, ◌<◌, ◌≡◌, ◌≢◌, ◌↔◌, refl, sym, ap, ◌∙◌, subst, true, some, none, arith,
  eq_cases, inl, inr, ◌⊎◌,
}
use hao_server.Timestamp.{Timestamp}
use hao_server.Timer.{Event, Timer, update, parent, timer_add}
use hao_server.Timer.Order.{IsHeap, due_of, update-same, update-other}
use hao_server.Timer.Sifted.{InHeap}
use hao_server.Timer.Insert.{heap_push-Inserted}

module _ {ℓ} {A : Type ℓ} where
  -- The heap is in order, inside its array, and holds the events that are allocated.
  pub record IsTimer (t : Timer A) : Type ℓ where
    pub heap : IsHeap (due_of t) t
    pub room : t.n ≤ t.a
    pub holds : (x : ℕ) → InHeap t x ↔ (t.live x ≡ true)
    pub fresh : (x : ℕ) → t.live x ≡ true → x < t.next

  pub own : {due : ℕ → Timestamp} {t : Timer A} → IsHeap due t → IsHeap (due_of t) t
  own {due} {t} h = record {
    fits = h.fits;
    agrees = λ x. refl;
    edges = λ i pos lt. rw (h.agrees (t.p (parent i)), h.agrees (t.p i)) (h.edges i pos lt);
    indexed = h.indexed;
  }

  -- The timer with a new event that is not in the heap yet
  abbrev allocated : Timer A → Timestamp → A → Timer A
  allocated t time contents = record t {
    events =
        update t.events t.next
          (record { min_heap_idx = none; ev_timeout = time; user_data = some contents });
    live = update t.live t.next true;
    next = suc t.next;
  }

  new-absent : {t : Timer A} → IsTimer t → (i : ℕ) → i < t.n → t.p i ≢ t.next
  new-absent {t} v i lt same =
      let old = v.fresh (t.p i) ((v.holds (t.p i)).0 (i, lt, refl)) in
      absurd (omega (arith, old, same))

  allocated-IsHeap :
      {t : Timer A} (time : Timestamp) (contents : A)
      → IsTimer t
      → IsHeap (due_of (allocated t time contents)) (allocated t time contents)
  allocated-IsHeap {t} time contents v =
      let other : (i : ℕ)
          → i < t.n
          → (allocated t time contents).events (t.p i) ≡ t.events (t.p i) =
        λ i lt. update-other t.events t.next (t.p i) _ (new-absent v i lt) in
      let same = λ (i : ℕ) (lt : i < t.n). ap (λ (w : Event A). w.ev_timeout) (other i lt) in
      record {
        fits = v.heap.fits;
        agrees = λ x. refl;
        edges =
            λ i pos lt. rw (same (parent i) (omega (arith, lt)), same i lt) (v.heap.edges i pos lt);
        indexed = λ i lt. ap (λ (w : Event A). w.min_heap_idx) (other i lt) ∙ v.heap.indexed i lt;
      }

  pub timer_add-IsTimer :
      {t : Timer A} (time : Timestamp) (contents : A)
      → IsTimer t
      → suc t.n < 2 ^ 31
      → IsTimer (timer_add t time contents).0 × ((timer_add t time contents).0.n ≡ suc t.n)
  unfolding timer_add
  timer_add-IsTimer {t} time contents v room =
      let r = heap_push-Inserted (allocated-IsHeap time contents v) (new-absent v) room in
      let live = λ (x : ℕ). ap (λ f. f x) r.same_live in
      (
        record {
          room = r.room;
          heap = record {
            fits = r.heap.fits;
            agrees = λ x. refl;
            edges = (own r.heap).edges;
            indexed = r.heap.indexed;
          };
          holds = λ x. (
            λ here. live x ∙ lives x ((r.holds x).0 here),
            λ h. (r.holds x).1 (stands x (sym (live x) ∙ h)),
          );
          fresh =
              λ x h. subst (λ k. x < k) (sym r.same_next) (older x (stands x (sym (live x) ∙ h)));
        },
        r.same_n,
      )
    where
      lives : (x : ℕ) → (x ≡ t.next) ⊎ InHeap t x → update t.live t.next true x ≡ true
      lives x (inl is) = ap (update t.live t.next true) is ∙ update-same t.live t.next true
      lives x (inr here) = elim (eq_cases x t.next) [
        | inl is ↦ ap (update t.live t.next true) is ∙ update-same t.live t.next true
        | inr ne ↦ update-other t.live t.next x true ne ∙ (v.holds x).0 here
      ]

      stands : (x : ℕ) → update t.live t.next true x ≡ true → (x ≡ t.next) ⊎ InHeap t x
      stands x h = elim (eq_cases x t.next) [
        | inl is ↦ inl is
        | inr ne ↦ inr ((v.holds x).1 (sym (update-other t.live t.next x true ne) ∙ h))
      ]

      older : (x : ℕ) → (x ≡ t.next) ⊎ InHeap t x → x < suc t.next
      older x (inl is) = omega (arith, is)
      older x (inr here) = omega (arith, v.fresh x ((v.holds x).0 here))

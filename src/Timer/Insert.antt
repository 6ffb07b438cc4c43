-- ===== src/Timer/Insert.antt =====
-- min_heap_push_ of app/util/hao_timer.cpp
use hao_server.Base.{
  ◌≤◌, ℕ, suc, ◌+◌, ◌-◌, ◌^◌, ◌<◌, ◌≡◌, ◌≢◌, ◌↔◌, ◌∙◌, false, ◌==◌, arith, ltb, Bool-cases, inl,
  inr, ◌⊎◌,
}
use hao_server.Timestamp.{Timestamp}
use hao_server.Timer.{Timer, reserve, shift_up, heap_push}
use hao_server.Timer.Order.{IsHeap}
use hao_server.Timer.Sifted.{Sifted, InHeap, Around}
use hao_server.Timer.Up.{shift_up-Sifted}

module _ {ℓ} {A : Type ℓ} where
  -- A place behind the heap, whatever the capacity
  abbrev grown : Timer A → ℕ → Timer A
  grown t capacity = record t { a = capacity; n = t.n + 1 }

  -- The heap with `e` as well
  pub record Inserted (due : ℕ → Timestamp) (t : Timer A) (e : ℕ) (u : Timer A) : Type ℓ where
    pub heap : IsHeap due u
    pub holds : (x : ℕ) → InHeap u x ↔ ((x ≡ e) ⊎ InHeap t x)
    pub same_n : u.n ≡ suc t.n
    pub room : u.n ≤ u.a
    pub same_live : u.live ≡ t.live
    pub same_ref : u.ref ≡ t.ref
    pub same_next : u.next ≡ t.next
    pub same_data : (x : ℕ) → (u.events x).user_data ≡ (t.events x).user_data

module _ {ℓ} {A : Type ℓ} {due : ℕ → Timestamp} where
  grown-Inserted :
      {t : Timer A} {e : ℕ} (capacity : ℕ)
      → suc t.n < 2 ^ 31
      → suc t.n ≤ capacity
      → IsHeap due t
      → ((i : ℕ) → i < t.n → t.p i ≢ e)
      → Inserted due t e (shift_up (grown t capacity) t.n e)
  grown-Inserted {t} {e} capacity few holds_all h absent = from (
      shift_up-Sifted {t = grown t capacity}
        (record {
          fits = omega (arith, few);
          agrees = h.agrees;
          inside = omega arith;
          edges = λ i some_edge lt other away. h.edges i some_edge (omega (arith, lt, other));
          bridge = λ i some_edge lt edge pos. absurd (omega (arith, some_edge, lt, edge));
          indexed = λ i lt other. h.indexed i (omega (arith, lt, other));
          absent = λ i lt other. absent i (omega (arith, lt, other));
        })
        (λ i some_edge lt edge. absurd (omega (arith, some_edge, lt, edge))))
    where
      back : (x : ℕ) → (x ≡ e) ⊎ Around (grown t capacity) t.n x → (x ≡ e) ⊎ InHeap t x
      back x (inl is) = inl is
      back x (inr (i, lt, other, is)) = inr (i, omega (arith, lt, other), is)

      on : (x : ℕ) → (x ≡ e) ⊎ InHeap t x → (x ≡ e) ⊎ Around (grown t capacity) t.n x
      on x (inl is) = inl is
      on x (inr (i, lt, is)) = inr (i, omega (arith, lt), omega (arith, lt), is)

      from : {u : Timer A} → Sifted due (grown t capacity) t.n e u → Inserted due t e u
      from {u} s = record {
        heap = s.heap;
        holds = λ x. (λ here. back x ((s.holds x).0 here), λ there. (s.holds x).1 (on x there));
        same_n = s.kept.same_n ∙ omega arith;
        room = omega (arith, s.kept.same_n, s.kept.same_a, holds_all);
        same_live = s.kept.same_live;
        same_ref = s.kept.same_ref;
        same_next = s.kept.same_next;
        same_data = s.kept.same_data;
      }

  -- Unless the heap is full, min_heap_push_ puts an event into it.
  pub heap_push-Inserted :
      {t : Timer A} {e : ℕ}
      → IsHeap due t
      → ((i : ℕ) → i < t.n → t.p i ≢ e)
      → suc t.n < 2 ^ 31
      → Inserted due t e (heap_push t e).0
  unfolding heap_push reserve
  heap_push-Inserted {t} {e} h absent room =
      let free : (t.n == 2 ^ 32 - 1) ≡ false = ground (arith, room) in
      rw free (elim (Bool-cases (ltb t.a (t.n + 1))) [
        | inl more ↦ rw more (grown-Inserted _ room (ground arith) h absent)
        | inr enough ↦ rw enough (grown-Inserted t.a room (ground (arith, enough)) h absent)
      ])

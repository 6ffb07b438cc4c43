-- ===== src/Timer/Remove.antt =====
-- min_heap_erase_ and Pop of app/util/hao_timer.cpp: the last event of the heap takes the place of the
-- one that is taken out.
use hao_server.Base.{
  ◌^◌, ℕ, zero, suc, ◌+◌, ◌-◌, ◌*◌, ◌<◌, ◌≡◌, ◌≢◌, ◌↔◌, refl, sym, ap, ◌∙◌, subst, false, ◌&&◌, leb,
  some, arith, eq_cases, Bool-cases, inl, inr, ◌⊎◌,
}
use hao_server.Timestamp.{Timestamp}
use hao_server.Timer.{
  Timer, parent, place, elem_greater, right_child, min_child, shift_down, shift_down_loop,
}
use hao_server.Timer.Order.{NoLater, NoLater-trans, Holed, IsHeap}
use hao_server.Timer.Sifted.{Sifted, InHeap, Around, Kept-place}

module _ {ℓ} {A : Type ℓ} where
  abbrev pub shorter : Timer A → Timer A
  shorter t = record t { n = t.n - 1 }

  -- The heap without `e`
  pub record Removed (due : ℕ → Timestamp) (t : Timer A) (e : ℕ) (u : Timer A) : Type ℓ where
    pub heap : IsHeap due u
    pub holds : (x : ℕ) → InHeap u x ↔ (InHeap t x × (x ≢ e))
    pub same_n : u.n ≡ t.n - 1
    pub same_a : u.a ≡ t.a
    pub same_live : u.live ≡ t.live
    pub same_ref : u.ref ≡ t.ref
    pub same_next : u.next ≡ t.next
    pub same_data : (x : ℕ) → x ≢ e → (u.events x).user_data ≡ (t.events x).user_data

  -- A hole behind the heap is filled at once.
  pub shift_down_loop-stop :
      (k : ℕ) (t : Timer A) (hole e : ℕ)
      → hole < 2 ^ 31 - 1
      → t.n < 2 * (hole + 1)
      → shift_down_loop k t hole e ≡ place t hole e
  unfolding shift_down_loop
  shift_down_loop-stop zero t hole e few h = refl
  shift_down_loop-stop (suc k) t hole e few h =
      let beyond : leb (right_child hole) t.n ≡ false = ground (arith, few, h) in rw beyond refl

  shift_down_loop-data :
      (k : ℕ) (t : Timer A) (hole e x : ℕ)
      → ((shift_down_loop k t hole e).events x).user_data ≡ (t.events x).user_data
  unfolding shift_down_loop
  shift_down_loop-data zero t hole e x = (Kept-place t hole e).same_data x
  shift_down_loop-data (suc k) t hole e x =
      let c = min_child t hole in
      elim (Bool-cases (leb (right_child hole) t.n && elem_greater t.events e (t.p c))) [
        | inl down ↦ rw down (
            shift_down_loop-data k (place t hole (t.p c)) c e x
            ∙ (Kept-place t hole (t.p c)).same_data x)
        | inr stop ↦ rw stop ((Kept-place t hole e).same_data x)
      ]

  pub shift_down-data :
      (t : Timer A) (hole e x : ℕ)
      → ((shift_down t hole e).events x).user_data ≡ (t.events x).user_data
  unfolding shift_down
  shift_down-data t hole e x = shift_down_loop-data t.n t hole e x

module _ {ℓ} {A : Type ℓ} {due : ℕ → Timestamp} where
  -- An event of the heap is in one place only.
  pub one_place :
      {t : Timer A} → IsHeap due t → (i j : ℕ) → i < t.n → j < t.n → t.p i ≡ t.p j → i ≡ j
  one_place {t} h i j lt lt' same =
      let here : some i ≡ some j =
        sym (h.indexed i lt) ∙ ap (λ x. (t.events x).min_heap_idx) same ∙ h.indexed j lt' in
      cc here

  pub bridged :
      {t : Timer A}
      → IsHeap due t
      → (i k : ℕ) → 0 < i
      → 0 < k
      → k < t.n
      → parent k ≡ i
      → NoLater due (t.p (parent i)) (t.p k)
  bridged {t} h i k pos some_edge lt edge =
      NoLater-trans due (t.p (parent i)) (t.p i) (t.p k)
        (h.edges i pos (omega (arith, lt, edge, some_edge)))
        (subst (λ m. NoLater due (t.p m) (t.p k)) edge (h.edges k some_edge lt))

  pub shorter-Holed :
      {t : Timer A} → IsHeap due t → (i : ℕ) → i < t.n - 1 → Holed due (shorter t) i (t.p (t.n - 1))
  shorter-Holed {t} h i lt = record {
    fits = omega (arith, h.fits);
    agrees = h.agrees;
    inside = lt;
    edges = λ k some_edge below other away. h.edges k some_edge (omega (arith, below));
    bridge = λ k some_edge below edge pos. bridged h i k pos some_edge (omega (arith, below)) edge;
    indexed = λ k below other. h.indexed k (omega (arith, below));
    absent = λ k below other same. absurd (
        omega (
          arith,
          below,
          one_place h k (t.n - 1) (omega (arith, below)) (omega (arith, below)) same,
        ));
  }

  -- What is left when the last event fills the hole that another left
  pub Sifted-Removed :
      {t u : Timer A}
      → IsHeap due t
      → (i : ℕ) → i < t.n - 1
      → Sifted due (shorter t) i (t.p (t.n - 1)) u
      → Removed due t (t.p i) u
  Sifted-Removed {t} {u} h i lt s = record {
    heap = s.heap;
    holds =
        λ x. (λ here. back x ((s.holds x).0 here), λ (there, ne). (s.holds x).1 (on x there ne));
    same_n = s.kept.same_n;
    same_a = s.kept.same_a;
    same_live = s.kept.same_live;
    same_ref = s.kept.same_ref;
    same_next = s.kept.same_next;
    same_data = λ x ne. s.kept.same_data x;
  }
    where
      back : (x : ℕ) → (x ≡ t.p (t.n - 1)) ⊎ Around (shorter t) i x → InHeap t x × (x ≢ t.p i)
      back x (inl is) = (
        (t.n - 1, omega (arith, lt), sym is),
        λ same. absurd (
            omega (
              arith,
              lt,
              one_place h (t.n - 1) i (omega (arith, lt)) (omega (arith, lt)) (sym is ∙ same),
            )),
      )
      back x (inr (k, below, away, is)) = (
        (k, omega (arith, below), is),
        λ same. away (one_place h k i (omega (arith, below)) (omega (arith, lt)) (is ∙ same)),
      )

      on : (x : ℕ) → InHeap t x → x ≢ t.p i → (x ≡ t.p (t.n - 1)) ⊎ Around (shorter t) i x
      on x (k, below, is) ne = elim (eq_cases k (t.n - 1)) [
        | inl last ↦ inl (sym is ∙ ap t.p last)
        | inr other ↦ inr (k, omega (arith, below, other), (λ same. ne (sym is ∙ ap t.p same)), is)
      ]

-- ===== src/Timer/Sifted.antt =====
-- What a shift in the heap of app/util/hao_timer.cpp leaves: an ordered heap of the events that were
-- around the hole and the one that filled it.
use hao_server.Base.{ℕ, ◌<◌, ◌≡◌, ◌≢◌, ◌⊎◌, ◌↔◌, refl, sym, ap, ◌∙◌, eq_cases, inl, inr}
use hao_server.Timestamp.{Timestamp}
use hao_server.Timer.{Event, Timer, place, parent}
use hao_server.Timer.Order.{
  NoLater, Holed, IsHeap, AboveChildren, fill, at_hole, off_hole, update-same, update-other,
}

module _ {ℓ} {A : Type ℓ} where
  abbrev pub InHeap : Timer A → ℕ → Type 0
  InHeap t x = (i : ℕ) × (i < t.n) × (t.p i ≡ x)

  abbrev pub Around : Timer A → ℕ → ℕ → Type 0
  Around t hole x = (i : ℕ) × (i < t.n) × (i ≢ hole) × (t.p i ≡ x)

  -- All but the heap's array, the indices and the times
  pub record Kept (t u : Timer A) : Type ℓ where
    pub same_n : u.n ≡ t.n
    pub same_a : u.a ≡ t.a
    pub same_live : u.live ≡ t.live
    pub same_ref : u.ref ≡ t.ref
    pub same_next : u.next ≡ t.next
    pub same_data : (x : ℕ) → (u.events x).user_data ≡ (t.events x).user_data

  pub Kept-trans : {t u v : Timer A} → Kept t u → Kept u v → Kept t v
  Kept-trans h k = record {
    same_n = k.same_n ∙ h.same_n;
    same_a = k.same_a ∙ h.same_a;
    same_live = k.same_live ∙ h.same_live;
    same_ref = k.same_ref ∙ h.same_ref;
    same_next = k.same_next ∙ h.same_next;
    same_data = λ x. k.same_data x ∙ h.same_data x;
  }

  pub Kept-place : (t : Timer A) (hole e : ℕ) → Kept t (place t hole e)
  Kept-place t hole e = record {
    same_n = refl;
    same_a = refl;
    same_live = refl;
    same_ref = refl;
    same_next = refl;
    same_data = λ x. elim (eq_cases x e) [
      | inl same ↦ rw same (ap (λ (v : Event A). v.user_data) (update-same t.events e _))
      | inr other ↦ ap (λ (v : Event A). v.user_data) (update-other t.events e x _ other)
    ];
  }

  pub record Sifted (due : ℕ → Timestamp) (t : Timer A) (hole e : ℕ) (u : Timer A) : Type ℓ where
    pub heap : IsHeap due u
    pub kept : Kept t u
    pub holds : (x : ℕ) → InHeap u x ↔ ((x ≡ e) ⊎ Around t hole x)

  pub Sifted-fill :
      {due : ℕ → Timestamp} {t : Timer A} {hole e : ℕ}
      → Holed due t hole e
      → (0 < hole → NoLater due (t.p (parent hole)) e)
      → AboveChildren due t hole e
      → Sifted due t hole e (place t hole e)
  Sifted-fill {due} {t} {hole} {e} h above below = record {
    heap = fill h above below;
    kept = Kept-place t hole e;
    holds = λ x. (found x, stands x);
  }
    where
      found : (x : ℕ) → InHeap (place t hole e) x → (x ≡ e) ⊎ Around t hole x
      found x (i, lt, is) = elim (eq_cases i hole) [
        | inl same ↦ inl (sym is ∙ ap (place t hole e).p same ∙ at_hole t hole e)
        | inr away ↦ inr (i, lt, away, sym (off_hole t hole e i away) ∙ is)
      ]

      stands : (x : ℕ) → (x ≡ e) ⊎ Around t hole x → InHeap (place t hole e) x
      stands x (inl is) = (hole, h.inside, at_hole t hole e ∙ sym is)
      stands x (inr (i, lt, away, is)) = (i, lt, off_hole t hole e i away ∙ is)

  -- The same of the timer before a round
  pub Sifted-move :
      {due : ℕ → Timestamp} {t u : Timer A} {hole e : ℕ}
      → Holed due t hole e
      → (j : ℕ) → j < t.n
      → j ≢ hole
      → Sifted due (place t hole (t.p j)) j e u
      → Sifted due t hole e u
  Sifted-move {due} {t} {u} {hole} {e} h j lt ne s = record {
    heap = s.heap;
    kept = Kept-trans (Kept-place t hole (t.p j)) s.kept;
    holds = λ x. (λ there. back x ((s.holds x).0 there), λ here. (s.holds x).1 (on x here));
  }
    where
      back : (x : ℕ) → (x ≡ e) ⊎ Around (place t hole (t.p j)) j x → (x ≡ e) ⊎ Around t hole x
      back x (inl is) = inl is
      back x (inr (i, below, away, is)) = elim (eq_cases i hole) [
        | inl same ↦
            inr (
              j,
              lt,
              ne,
              sym (at_hole t hole (t.p j)) ∙ ap (place t hole (t.p j)).p (sym same) ∙ is,
            )
        | inr off ↦ inr (i, below, off, sym (off_hole t hole (t.p j) i off) ∙ is)
      ]

      on : (x : ℕ) → (x ≡ e) ⊎ Around t hole x → (x ≡ e) ⊎ Around (place t hole (t.p j)) j x
      on x (inl is) = inl is
      on x (inr (i, below, away, is)) = elim (eq_cases i j) [
        | inl same ↦
            inr (hole, h.inside, (λ e. ne (sym e)), at_hole t hole (t.p j) ∙ ap t.p (sym same) ∙ is)
        | inr off ↦ inr (i, below, off, off_hole t hole (t.p j) i away ∙ is)
      ]

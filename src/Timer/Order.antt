-- ===== src/Timer/Order.antt =====
-- The order of the heap in app/util/hao_timer.cpp, with a hole in it while an event is moved.
use hao_server.Base.{
  ◌^◌, ℕ, ◌<◌, ◌≡◌, ◌≢◌, refl, sym, ap, ◌∙◌, Bool, true, false, some, arith, eq_cases, inl, inr,
  ◌↔◌,
}
use hao_server.Base.Int.{◌≤ℤ◌}
use hao_server.Timestamp.{Timestamp, gt_time}
use hao_server.Timer.{Event, Timer, update, parent, place, elem_greater}

-- x is due no later than y.
abbrev pub NoLater : (ℕ → Timestamp) → ℕ → ℕ → Type 0
NoLater due x y = (due x).micro_seconds_since_epoch ≤ℤ (due y).micro_seconds_since_epoch

pub NoLater-trans :
    (due : ℕ → Timestamp) (x y z : ℕ) → NoLater due x y → NoLater due y z → NoLater due x z
NoLater-trans due x y z h k = omega (arith, h, k)

pub update-same {ℓ} : {B : Type ℓ} (f : ℕ → B) (k : ℕ) (v : B) → update f k v k ≡ v
update-same f k v = ground arith

pub update-other {ℓ} : {B : Type ℓ} (f : ℕ → B) (k j : ℕ) (v : B) → j ≢ k → update f k v j ≡ f j
update-other f k j v h = ground (arith, h)

-- Marked false at `e` and where it was false
pub update-false : (f : ℕ → Bool) (e x : ℕ) → (update f e false x ≡ true) ↔ ((f x ≡ true) × (x ≢ e))
update-false f e x = elim (eq_cases x e) [
  | inl same ↦
      let dead : update f e false x ≡ false = ap (update f e false) same ∙ update-same f e false in
      (λ h. absurd (cc (dead, h)), λ (h, ne). absurd (ne same))
  | inr ne ↦ let kept = update-other f e x false ne in (λ h. (sym kept ∙ h, ne), λ (h, _). kept ∙ h)
]

module _ {ℓ} {A : Type ℓ} where
  abbrev pub due_of : Timer A → ℕ → Timestamp
  due_of t e = (t.events e).ev_timeout

  -- There are few enough events for their indices, the edges are in order, and each event knows its
  -- place.
  pub record IsHeap (due : ℕ → Timestamp) (t : Timer A) : Type ℓ where
    pub fits : t.n < 2 ^ 31
    pub agrees : (x : ℕ) → due_of t x ≡ due x
    pub edges : (i : ℕ) → 0 < i → i < t.n → NoLater due (t.p (parent i)) (t.p i)
    pub indexed : (i : ℕ) → i < t.n → (t.events (t.p i)).min_heap_idx ≡ some i

  -- All but the hole is such a heap; `e`, which is to fill it, is nowhere else.
  pub record Holed (due : ℕ → Timestamp) (t : Timer A) (hole e : ℕ) : Type ℓ where
    pub fits : t.n < 2 ^ 31
    pub agrees : (x : ℕ) → due_of t x ≡ due x
    pub inside : hole < t.n
    pub edges :
        (i : ℕ)
        → 0 < i
        → i < t.n
        → i ≢ hole
        → parent i ≢ hole
        → NoLater due (t.p (parent i)) (t.p i)
    pub bridge :
        (i : ℕ)
        → 0 < i
        → i < t.n
        → parent i ≡ hole
        → 0 < hole
        → NoLater due (t.p (parent hole)) (t.p i)
    pub indexed : (i : ℕ) → i < t.n → i ≢ hole → (t.events (t.p i)).min_heap_idx ≡ some i
    pub absent : (i : ℕ) → i < t.n → i ≢ hole → t.p i ≢ e

  -- What hangs below the hole is due no earlier than `e`.
  abbrev pub AboveChildren : (ℕ → Timestamp) → Timer A → ℕ → ℕ → Type 0
  AboveChildren due t hole e = (i : ℕ) → 0 < i → i < t.n → parent i ≡ hole → NoLater due e (t.p i)

  -- What place leaves alone, and what it sets
  pub due-place : (t : Timer A) (hole e x : ℕ) → due_of (place t hole e) x ≡ due_of t x
  due-place t hole e x = elim (eq_cases x e) [
    | inl same ↦ rw same (ap (λ (v : Event A). v.ev_timeout) (update-same t.events e _))
    | inr other ↦ ap (λ (v : Event A). v.ev_timeout) (update-other t.events e x _ other)
  ]

  pub index-place :
      (t : Timer A) (hole e : ℕ) → ((place t hole e).events e).min_heap_idx ≡ some hole
  index-place t hole e = ap (λ (v : Event A). v.min_heap_idx) (update-same t.events e _)

  pub index-other :
      (t : Timer A) (hole e x : ℕ)
      → x ≢ e
      → ((place t hole e).events x).min_heap_idx ≡ (t.events x).min_heap_idx
  index-other t hole e x other =
      ap (λ (v : Event A). v.min_heap_idx) (update-other t.events e x _ other)

  pub fill :
      {due : ℕ → Timestamp} {t : Timer A} {hole e : ℕ}
      → Holed due t hole e
      → (0 < hole → NoLater due (t.p (parent hole)) e)
      → AboveChildren due t hole e
      → IsHeap due (place t hole e)
  fill {due} {t} {hole} {e} h above below = record {
    fits = h.fits;
    agrees = λ x. due-place t hole e x ∙ h.agrees x;
    edges = λ i pos lt. elim (eq_cases i hole) [
      | inl same ↦
          rw
            (
              same,
              update-same t.p hole e,
              update-other t.p hole (parent hole) e (omega (arith, pos, same)),
            )
            (above (omega (arith, pos, same)))
      | inr other ↦ elim (eq_cases (parent i) hole) [
        | inl same ↦
            rw same
              (rw (update-same t.p hole e, update-other t.p hole i e other) (below i pos lt same))
        | inr apart ↦
            rw (update-other t.p hole i e other, update-other t.p hole (parent i) e apart)
              (h.edges i pos lt other apart)
      ]
    ];
    indexed = λ i lt. elim (eq_cases i hole) [
      | inl same ↦ rw (same, update-same t.p hole e) (index-place t hole e)
      | inr other ↦
          rw (update-other t.p hole i e other)
            (index-other t hole e (t.p i) (h.absent i lt other) ∙ h.indexed i lt other)
    ];
  }

  apart :
      {due : ℕ → Timestamp} {t : Timer A} {hole e : ℕ}
      → Holed due t hole e
      → (i j : ℕ) → i < t.n
      → j < t.n
      → i ≢ hole
      → j ≢ hole
      → i ≢ j
      → t.p i ≢ t.p j
  apart {t = t} h i j lt lt' other other' ne same =
      let here : some i ≡ some j =
        sym (h.indexed i lt other)
        ∙ ap (λ x. (t.events x).min_heap_idx) same
        ∙ h.indexed j lt' other' in
      ne (cc here)

  -- The hole moves to j when the event there is put into it.
  pub moved :
      {due : ℕ → Timestamp} {t : Timer A} {hole e : ℕ}
      → Holed due t hole e
      → (j : ℕ) → j < t.n
      → j ≢ hole
      → let u = place t hole (t.p j) in
        ((i : ℕ) → 0 < i → i < t.n → i ≢ j → parent i ≢ j → NoLater due (u.p (parent i)) (u.p i))
        → ((i : ℕ) → 0 < i → i < t.n → parent i ≡ j → 0 < j → NoLater due (u.p (parent j)) (u.p i))
        → Holed due u j e
  moved {due} {t} {hole} {e} h j lt ne edges bridge = record {
    fits = h.fits;
    agrees = λ x. due-place t hole (t.p j) x ∙ h.agrees x;
    inside = lt;
    edges = edges;
    bridge = bridge;
    indexed = λ i below other. elim (eq_cases i hole) [
      | inl same ↦ rw (same, update-same t.p hole (t.p j)) (index-place t hole (t.p j))
      | inr away ↦ rw (update-other t.p hole i (t.p j) away) (
          index-other t hole (t.p j) (t.p i) (apart h i j below lt away ne other)
          ∙ h.indexed i below away)
    ];
    absent = λ i below other. elim (eq_cases i hole) [
      | inl same ↦ rw (same, update-same t.p hole (t.p j)) (h.absent j lt ne)
      | inr away ↦ rw (update-other t.p hole i (t.p j) away) (h.absent i below away)
    ];
  }

  -- What the next round of a shift works on
  pub at_hole : (t : Timer A) (hole x : ℕ) → (place t hole x).p hole ≡ x
  at_hole t hole x = update-same t.p hole x

  pub off_hole : (t : Timer A) (hole x i : ℕ) → i ≢ hole → (place t hole x).p i ≡ t.p i
  off_hole t hole x i h = update-other t.p hole i x h

  pub elem_greater_of :
      {due : ℕ → Timestamp} (t : Timer A)
      → ((x : ℕ) → due_of t x ≡ due x)
      → (x y : ℕ) → elem_greater t.events x y ≡ gt_time (due x) (due y)
  elem_greater_of t agrees x y = rw (agrees x, agrees y) refl

-- ===== src/Timer/Cleared.antt =====
-- Clear and the destructor of Timer, app/util/hao_timer.cpp, which are the same code. `none` is a second
-- free of an event or of the array.
use hao_server.Base.{
  ◌⊎◌, ℕ, zero, suc, ◌+◌, ◌≤◌, ◌<◌, ◌≡◌, ◌≢◌, refl, sym, ap, ◌∙◌, true, false, Option, some, none,
  ◌>>=◌, arith, if◌then◌else◌, Bool-cases, inl, inr, eq_cases,
}
use mathlib.Core.Option.{some-injective}
use hao_server.Timer.{Timer, update}
use hao_server.Timer.Order.{update-same, update-other}
use hao_server.Timer.Added.{IsTimer}

-- Where p of min_heap_ points: nowhere, to the array, or to what was the array
pub data Pointer : Type 0 where
  null allocated dangling : Pointer

module _ {ℓ} {A : Type ℓ} where
  -- free of an event
  unfoldable pub free_event : ℕ → Timer A → Option (Timer A)
  free_event e t = if t.live e then some (record t { live = update t.live e false }) else none

  -- The loop over the array, from `i` on with `k` elements left
  unfoldable pub free_events : ℕ → ℕ → Timer A → Option (Timer A)
  free_events i zero t = some t
  free_events i (suc k) t = free_event (t.p i) t >>= λ u. free_events (suc i) k u

  -- min_heap_dtor_: p keeps its value.
  unfoldable pub heap_dtor : Timer A → Pointer → Option (Timer A × Pointer)
  heap_dtor t null = some (t, null)
  heap_dtor t allocated = some (record t { n = 0; a = 0 }, dangling)
  heap_dtor t dangling = none

  -- Timer::Clear and Timer::~Timer
  unfoldable pub clear : Timer A → Pointer → Option (Timer A × Pointer)
  clear t pointer = free_events 0 t.n t >>= λ u. heap_dtor u pointer

  -- The events at `i` and behind are allocated, each in one place.
  abbrev FromHere : ℕ → ℕ → Timer A → Type 0
  FromHere i k t =
      ((j : ℕ) → i ≤ j → j < i + k → t.live (t.p j) ≡ true)
      × ((j m : ℕ) → i ≤ j → j < m → m < i + k → t.p j ≢ t.p m)

  -- `live` with these marked false
  abbrev freed : ℕ → ℕ → Timer A → Timer A
  freed i zero t = t
  freed i (suc k) t = freed (suc i) k (record t { live = update t.live (t.p i) false })

  freed_next :
      (i k : ℕ) (t : Timer A)
      → FromHere i (suc k) t
      → FromHere (suc i) k (record t { live = update t.live (t.p i) false })
  freed_next i k t (lives, apart) = (
    λ j from upto.
        update-other t.live (t.p i) (t.p j) false
          (λ same. apart i j (omega arith) (omega (arith, from)) (omega (arith, upto)) (sym same))
        ∙ lives j (omega (arith, from)) (omega (arith, upto)),
    λ j m from below upto. apart j m (omega (arith, from)) below (omega (arith, upto)),
  )

  free_events-freed :
      (i k : ℕ) (t : Timer A) → FromHere i k t → free_events i k t ≡ some (freed i k t)
  unfolding free_events free_event
  free_events-freed i zero t h = refl
  free_events-freed i (suc k) t h =
      let live_first : t.live (t.p i) ≡ true = h.0 i (omega arith) (omega arith) in
      rw live_first (
        free_events-freed (suc i) k (record t { live = update t.live (t.p i) false })
          (freed_next i k t h))

  -- What was dead stays dead, and what is in the array dies.
  freed-dead :
      (i k : ℕ) (t : Timer A) (x : ℕ)
      → (t.live x ≡ false) ⊎ ((j : ℕ) × (i ≤ j) × (j < i + k) × (t.p j ≡ x))
      → (freed i k t).live x ≡ false
  freed-dead i zero t x (inl dead) = dead
  freed-dead i zero t x (inr (j, from, upto, is)) = absurd (omega (arith, from, upto))
  freed-dead i (suc k) t x which =
      freed-dead (suc i) k (record t { live = update t.live (t.p i) false }) x
        (elim (eq_cases x (t.p i)) [
          | inl same ↦
              inl (ap (update t.live (t.p i) false) same ∙ update-same t.live (t.p i) false)
          | inr other ↦ elim which [
            | inl dead ↦ inl (update-other t.live (t.p i) x false other ∙ dead)
            | inr (j, from, upto, is) ↦
                inr (j, behind i j from (λ e. other (sym is ∙ ap t.p e)), omega (arith, upto), is)
          ]
        ])
    where
      behind : (i j : ℕ) → i ≤ j → j ≢ i → suc i ≤ j
      behind i j h ne = omega (arith, h, ne)

  all_apart : (t : Timer A) → IsTimer t → (j m : ℕ) → j < m → m < t.n → t.p j ≢ t.p m
  all_apart t v j m below upto same =
      let e : some j ≡ some m =
        sym (v.heap.indexed j (omega (arith, below, upto)))
        ∙ ap (λ x. (t.events x).min_heap_idx) same
        ∙ v.heap.indexed m upto in
      absurd (omega (arith, below, some-injective _ _ e))

  -- Clear of a consistent timer that has an array frees each event once and the array, and leaves the
  -- timer without elements; but p still points to the array, so that the destructor, and any other
  -- Clear, frees it again.
  pub clear_twice :
      (t : Timer A)
      → IsTimer t
      → (u : Timer A) × (clear t allocated ≡ some (u, dangling))
        × ((x : ℕ) → u.live x ≡ false)
        × (u.n ≡ 0)
        × (clear u dangling ≡ none)
  unfolding clear heap_dtor free_events
  clear_twice t v =
      let here : FromHere 0 t.n t = (
        λ j from upto. (v.holds (t.p j)).0 (j, omega (arith, upto), refl),
        λ j m from below upto. all_apart t v j m below (omega (arith, upto)),
      ) in
      (
        record (freed 0 t.n t) { n = 0; a = 0 },
        rw (free_events-freed 0 t.n t here) refl,
        λ x. freed-dead 0 t.n t x (elim (Bool-cases (t.live x)) [
          | inl lives ↦
              let (i, lt, is) = (v.holds x).1 lives in inr (i, omega arith, omega (arith, lt), is)
          | inr dead ↦ inl dead
        ]),
        refl,
        refl,
      )

-- ===== src/Timer.antt =====
-- _include/hao_timer.h and app/util/hao_timer.cpp: timers in a binary min-heap of pointers to
-- events, with a hash map from timer ids to events. An event is named by its address; `live` says
-- which addresses are allocated, and an operation that would follow a pointer of the hash map to a
-- freed event gives `none`. Allocation succeeds. An index of -1 is `none`; with fewer than 2^31 events
-- no other index is negative. The size, the capacity and the child of a place are uint32_t.
pub mod Ids
pub mod Order
pub mod Sifted
pub mod Up
pub mod Down
pub mod Remove
pub mod Erase
pub mod Insert
pub mod Adjust
pub mod Added
pub mod Steps
pub mod Runs
pub mod Popped
pub mod Cleared
use hao_server.Base.{
  ℕ, zero, suc, ◌+◌, ◌-◌, ◌*◌, ◌/◌, ◌%◌, ◌^◌, Bool, true, false, ◌&&◌, ◌||◌, Option, none, some,
  ltb, leb, ◌==◌, if◌then◌else◌,
}
use hao_server.Timestamp.{Timestamp, invalid_time, gt_time}

pub record Event {ℓ} (A : Type ℓ) : Type ℓ where
  -- an int32_t, whose -1 is `none`: below 2^31 it is the index itself
  pub min_heap_idx : Option ℕ
  pub ev_timeout : Timestamp
  pub user_data : Option A

pub record Timer {ℓ} (A : Type ℓ) : Type ℓ where
  -- min_heap_: the array, the number of elements and the capacity
  pub p : ℕ → ℕ
  pub n : ℕ
  pub a : ℕ
  pub ref : Option ℕ → Option ℕ
  -- the allocated events
  pub events : ℕ → Event A
  pub live : ℕ → Bool
  pub next : ℕ

abbrev pub update {ℓ} : {B : Type ℓ} → (ℕ → B) → ℕ → B → ℕ → B
update f k v j = if k == j then v else f j

-- Two ids of the hash map.
abbrev pub same_id : Option ℕ → Option ℕ → Bool
same_id none none = true
same_id none (some j) = false
same_id (some i) none = false
same_id (some i) (some j) = i == j

abbrev pub update_ref : (Option ℕ → Option ℕ) → Option ℕ → Option ℕ → Option ℕ → Option ℕ
update_ref f k v j = if same_id k j then v else f j

-- 2 * (hole_index + 1), in a uint32_t
abbrev pub right_child : ℕ → ℕ
right_child hole = 2 * (hole + 1) % 2 ^ 32

abbrev pub parent : ℕ → ℕ
parent i = (i - 1) / 2

module _ {ℓ} {A : Type ℓ} where
  -- min_heap_elem_greater
  abbrev pub elem_greater : (ℕ → Event A) → ℕ → ℕ → Bool
  elem_greater events x y = gt_time (events x).ev_timeout (events y).ev_timeout

  -- (s->p[hole_index] = e)->min_heap_idx = hole_index
  abbrev pub place : Timer A → ℕ → ℕ → Timer A
  place t hole e = record t {
    p = update t.p hole e;
    events = update t.events e (record (t.events e) { min_heap_idx = some hole });
  }

  -- min_heap_reserve_
  unfoldable pub reserve : Timer A → ℕ → Timer A
  reserve t n =
      if ltb t.a n
      then (let doubled = if t.a == 0 then 8 else t.a * 2 % 2 ^ 32 in
          record t { a = if ltb doubled n then n else doubled })
      else t

  -- min_heap_shift_up_, with the hole as fuel: the hole falls at each round.
  unfoldable pub shift_up_loop : ℕ → Timer A → ℕ → ℕ → Timer A
  shift_up_loop zero t hole e = place t hole e
  shift_up_loop (suc k) t hole e =
      let rest = shift_up_loop k (place t hole (t.p (parent hole))) (parent hole) e in
      if ltb 0 hole && elem_greater t.events (t.p (parent hole)) e then rest else place t hole e

  unfoldable pub shift_up : Timer A → ℕ → ℕ → Timer A
  shift_up t hole e = shift_up_loop hole t hole e

  -- min_heap_shift_up_unconditional_: the first round makes no test.
  unfoldable pub shift_up_unconditional : Timer A → ℕ → ℕ → Timer A
  shift_up_unconditional t hole e = shift_up (place t hole (t.p (parent hole))) (parent hole) e

  -- The child that min_heap_shift_down_ compares with.
  abbrev pub min_child : Timer A → ℕ → ℕ
  min_child t hole =
      let right = right_child hole in
      if (right == t.n) || elem_greater t.events (t.p right) (t.p (right - 1))
      then right - 1
      else right

  -- min_heap_shift_down_, with the number of elements as fuel: the hole rises at each round.
  unfoldable pub shift_down_loop : ℕ → Timer A → ℕ → ℕ → Timer A
  shift_down_loop zero t hole e = place t hole e
  shift_down_loop (suc k) t hole e =
      let child = min_child t hole in
      let rest = shift_down_loop k (place t hole (t.p child)) child e in
      if leb (right_child hole) t.n && elem_greater t.events e (t.p child)
      then rest
      else place t hole e

  unfoldable pub shift_down : Timer A → ℕ → ℕ → Timer A
  shift_down t hole e = shift_down_loop t.n t hole e

  abbrev pub set_index : Timer A → ℕ → Option ℕ → Timer A
  set_index t e i = record t {
    events = update t.events e (record (t.events e) { min_heap_idx = i });
  }

  -- min_heap_push_
  unfoldable pub heap_push : Timer A → ℕ → Timer A × Bool
  heap_push t e =
      if t.n == 2 ^ 32 - 1
      then (t, false)
      else (shift_up (record (reserve t (t.n + 1)) { n = t.n + 1 }) t.n e, true)

  -- min_heap_erase_
  unfoldable pub heap_erase_at : Option ℕ → Timer A → ℕ → Timer A
  heap_erase_at none t e = t
  heap_erase_at (some i) t e =
      let last = t.p (t.n - 1) in
      let shorter = record t { n = t.n - 1 } in
      set_index
        (if ltb 0 i && elem_greater t.events (t.p (parent i)) last
          then shift_up_unconditional shorter i last
          else shift_down shorter i last)
        e none

  unfoldable pub heap_erase : Timer A → ℕ → Timer A
  heap_erase t e = heap_erase_at (t.events e).min_heap_idx t e

  -- min_heap_adjust_
  unfoldable pub heap_adjust_at : Option ℕ → Timer A → ℕ → Timer A
  heap_adjust_at none t e = (heap_push t e).0
  heap_adjust_at (some i) t e =
      if ltb 0 i && elem_greater t.events (t.p (parent i)) e
      then shift_up_unconditional t i e
      else shift_down t i e

  unfoldable pub heap_adjust : Timer A → ℕ → Timer A
  heap_adjust t e = heap_adjust_at (t.events e).min_heap_idx t e

  -- Timer::Empty, Timer::Size, Timer::EarliestTime
  abbrev pub is_empty : Timer A → Bool
  is_empty t = t.n == 0

  abbrev pub size : Timer A → ℕ
  size t = t.n

  abbrev pub earliest_time : Timer A → Timestamp
  earliest_time t = if is_empty t then invalid_time else (t.events (t.p 0)).ev_timeout

  -- Timer::TimerAdd: the new event's index in the heap becomes its id.
  unfoldable pub timer_add : Timer A → Timestamp → A → Timer A × Option ℕ
  timer_add t time contents =
      let ev = t.next in
      let allocated = record t {
        events =
            update t.events ev
              (record { min_heap_idx = none; ev_timeout = time; user_data = some contents });
        live = update t.live ev true;
        next = suc ev;
      } in
      let pushed = (heap_push allocated ev).0 in
      let id = (pushed.events ev).min_heap_idx in
      (record pushed { ref = update_ref pushed.ref id (some ev) }, id)

  -- Timer::Update
  unfoldable pub timer_update : Timer A → Option ℕ → Timestamp → Option (Timer A)
  timer_update t id time = elim (t.ref id) [
    | none ↦ some t
    | some ev ↦
        if t.live ev
        then some (
            heap_adjust
              (record t {
                events = update t.events ev (record (t.events ev) { ev_timeout = time });
              })
              ev)
        else none
  ]

  -- Timer::TimerCancel
  unfoldable pub timer_cancel : Timer A → Option ℕ → Option (Timer A × Bool)
  timer_cancel t id = elim (t.ref id) [
    | none ↦ some (t, false)
    | some ev ↦
        if t.live ev
        then (let erased = heap_erase t ev in
            some (
              record erased {
                live = update erased.live ev false;
                ref = update_ref erased.ref id none;
              },
              true,
            ))
        else none
  ]

  -- Timer::Pop. The hash map keeps its entry for the freed event.
  unfoldable pub timer_pop : Timer A → Timer A × Option A
  timer_pop t =
      if t.n == 0
      then (t, none)
      else (let e = t.p 0 in
          let shifted = shift_down (record t { n = t.n - 1 }) 0 (t.p (t.n - 1)) in
          let contents = (shifted.events e).user_data in
          (
            record shifted {
              events =
                  update shifted.events e
                    (record (shifted.events e) { min_heap_idx = none; user_data = none });
              live = update shifted.live e false;
            },
            contents,
          ))

  -- min_heap_ctor_
  unfoldable pub empty_timer : Event A → Timer A
  empty_timer junk = record {
    p = λ i. 0;
    n = 0;
    a = 0;
    ref = λ id. none;
    events = λ e. junk;
    live = λ e. false;
    next = 0;
  }

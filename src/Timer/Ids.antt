-- ===== src/Timer/Ids.antt =====
-- The ids that TimerAdd of app/util/hao_timer.cpp gives out.
use hao_server.Base.{ℕ, ◌≡◌, refl, some, none, true, ap, if◌then◌else◌}
use hao_server.Timestamp.{Timestamp, gt_time}
use hao_server.Timer.{
  Event, Timer, empty_timer, timer_add, heap_push, reserve, shift_up, shift_up_loop, place, update,
  update_ref, elem_greater,
}

-- One round of shift_up, to the root.
shift_up-one :
    {A : Type 0} (t : Timer A) (e : ℕ)
    → elem_greater t.events (t.p 0) e ≡ true
    → shift_up t 1 e ≡ place (place t 1 (t.p 0)) 0 e
unfolding shift_up shift_up_loop
shift_up-one t e h = ap (λ b. if b then place (place t 1 (t.p 0)) 0 e else place t 1 e) h

-- What heap_push is given for the second timer, after the room for it has been made.
abbrev ready : {A : Type 0} → Event A → Timestamp → Timestamp → A → A → Timer A
ready junk due earlier x y =
    let first = (timer_add (empty_timer junk) due x).0 in
    let event : Event _ = record {
      min_heap_idx = none;
      ev_timeout = earlier;
      user_data = some y;
    } in
    let allocated = record first {
      events = update first.events 1 event;
      live = update first.live 1 true;
      next = 2;
    } in
    record (reserve allocated 2) { n = 2 }

-- The first timer of an empty queue gets the id 0. A second one that is due earlier gets the id 0 as
-- well, and from then on that id stands for the second timer.
pub second_id :
    {A : Type 0} (junk : Event A) (due earlier : Timestamp) (x y : A)
    → gt_time due earlier ≡ true
    → let first = timer_add (empty_timer junk) due x in
      let second = timer_add first.0 earlier y in
      (first.1 ≡ some 0) × (second.1 ≡ some 0) × (second.0.ref (some 0) ≡ some 1)
unfolding timer_add heap_push reserve shift_up shift_up_loop empty_timer
second_id junk due earlier x y h =
    let pushed = shift_up (ready junk due earlier x y) 1 1 in
    let e : (pushed.events 1).min_heap_idx ≡ some 0 =
      ap (λ t. (t.events 1).min_heap_idx) (shift_up-one (ready junk due earlier x y) 1 h) in
    (refl, e, ap (λ k. update_ref pushed.ref k (some 1) (some 0)) e)

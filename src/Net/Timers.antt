-- ===== src/Net/Timers.antt =====
-- app/net/hao_socket_timer.cpp: the timer queue of the socket object. `none` is a fault, the use of a
-- freed timer event.
pub mod Taken
pub mod TakeOver
pub mod Idle
pub mod Wait
pub mod HeartBeat
use hao_server.Base.{
  ltb, ◌-◌, ◌^◌, ◌%◌, ℕ, zero, suc, Option, none, some, List, [], ◌∷◌, ◌>>=◌, if◌then◌else◌, ◌==◌,
}
use hao_server.Base.Int.{ℤ, pos, negsuc}
use hao_server.Timestamp.{Timestamp, add_seconds, lt_time, le_time, minus, milliseconds}
use hao_server.Timer.{timer_add, timer_update, timer_pop, earliest_time}
use hao_server.Net.State.{MsgHeader, Socket, Session, store}
use hao_server.Net.Close.{zd_close_socket_proc}

-- Socket::AddToTimerQueue
unfoldable pub add_to_timer_queue : Timestamp → Session → Session
add_to_timer_queue now s =
    let c = s.conn in
    let header : MsgHeader = record { conn = c.id; cur_sequence_num = c.sequence_num } in
    let added = timer_add s.socket.timer (add_seconds now s.socket.wait_time) header in
    record { socket = record s.socket { timer = added.0 }; conn = record c { timer_id = added.1 } }

-- Socket::UpdateTimer
unfoldable pub update_timer : Timestamp → Session → Option Session
update_timer now s = do
  timer ← timer_update s.socket.timer s.conn.timer_id (add_seconds now s.socket.wait_time)
  some (record s { socket = record s.socket { timer = timer } })

-- Socket::RemoveFirstTimer
unfoldable pub remove_first_timer : Socket → Socket × Option MsgHeader
remove_first_timer s =
    let popped = timer_pop s.timer in
    if s.timer.n == 0 then (s, none) else (record s { timer = popped.0 }, popped.1)

-- Socket::GetOverTimeTimer. A timer that has no header to give would be a fault.
unfoldable pub get_over_time_timer : Timestamp → Socket → Option (Socket × Option MsgHeader)
get_over_time_timer cur_time s =
    let removed = remove_first_timer s in
    if s.timer.n == 0
    then some (s, none)
    else if le_time (earliest_time s.timer) cur_time
    then elim (removed.1) [
      | none ↦ none
      | some h ↦
          let t = removed.0 in
          some (store t h.conn (record (t.conns h.conn) { timer_id = none }), some h)
    ]
    else some (s, none)

-- The first loop of TimerHeartBeatCheck, with the size of the timer queue as fuel: each round takes
-- a timer out of it.
pub take_over_time : ℕ → Timestamp → Socket → Option (Socket × List MsgHeader)
take_over_time zero cur_time s = some (s, [])
take_over_time (suc k) cur_time s = do
  (t, found) ← get_over_time_timer cur_time s
  elim found [
    | none ↦ some (t, [])
    | some h ↦ take_over_time k cur_time t >>= λ r. some (r.0, h ∷ r.1)
  ]

-- The second loop: every connection that was taken out is closed.
pub close_idle : Timestamp → List MsgHeader → Socket → Option Socket
close_idle now [] s = some s
close_idle now (h ∷ rest) s =
    zd_close_socket_proc now (record { socket = s; conn = s.conns h.conn }) >>= λ r.
    close_idle now rest (store r.socket h.conn r.conn)

-- The conversion of a count of milliseconds to int
abbrev pub of_uint32 : ℕ → ℤ
of_uint32 n = if ltb n (2 ^ 31) then pos n else negsuc (2 ^ 32 - 1 - n)

abbrev pub to_int : ℤ → ℤ
to_int (pos n) = of_uint32 (n % 2 ^ 32)
to_int (negsuc n) = of_uint32 (2 ^ 32 - 1 - n % 2 ^ 32)

-- Socket::TimerHeartBeatCheck, with the times of its two calls of now()
unfoldable pub timer_heart_beat_check : Timestamp → Timestamp → Socket → Option (Socket × ℤ)
timer_heart_beat_check now later s =
    let over = do
      taken ← take_over_time (suc s.timer.n) now s
      t ← close_idle now taken.1 taken.0
      some (t, to_int (milliseconds (minus (earliest_time t.timer) later)))
    in if lt_time (earliest_time s.timer) now
      then over
      else some (s, to_int (milliseconds (minus (earliest_time s.timer) now)))

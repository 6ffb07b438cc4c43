-- ===== src/Net/Send/Registered.antt =====
-- SendQueueThread of app/net/hao_socket.cpp and WriteRequestHandler of
-- app/net/hao_socket_request.cpp: a connection with a message on its way is registered for EPOLLOUT.
use hao_server.Base.{ℕ, ◌≡◌, Bool, List, []}
use Prim.Native.Nat.{bit_or}
use hao_server.Base.Int.{pos, ◌≤ℤ◌}
use hao_server.Net.State.{Connection, Socket, with_conn}
use hao_server.Net.Send.{SendOutcome, send_walk, write_request_handler}

-- At most one message is on its way, and while one is, the events are some with EPOLLOUT, which is 4.
pub record IsTold (c : Connection) : Type 0 where
  pub one_message : c.throw_send_count ≤ℤ pos 1
  pub has_epollout : pos 1 ≤ℤ c.throw_send_count → (e : ℕ) × (c.events ≡ bit_or e 4)

abbrev pub AreTold : Socket → Type 0
AreTold s = (i : ℕ) → IsTold (s.conns i)

-- A walk of SendQueueThread over its queue, and WriteRequestHandler on any connection
pub data SendStep (s : Socket) : Socket → Type 0 where
  walks :
      (answers : List (SendOutcome × Bool))
      → SendStep s (send_walk answers [] s.send_message_queue s)
  writes :
      (i : ℕ) (o : SendOutcome) (answer : Bool)
      → SendStep s (with_conn i (write_request_handler o answer) s)

pub data SendRuns (s : Socket) : Socket → Type 0 where
  here : SendRuns s s
  next : {t u : Socket} → SendRuns s t → SendStep t u → SendRuns s u

-- ===== src/Tests/Logic.antt =====
-- A client's register request, and a request with a code that the table does not have.
use hao_server.Base.{
  ◌∷◌, ℕ, ◌+◌, ◌≡◌, refl, List, [], none, some, arith, length, get_or, ◌==◌, if◌then◌else◌,
}
use hao_server.Net.State.{Message, Session}
use hao_server.Logic.{handle_message, reply}
use hao_server.Logic.Reply.{Carries, reply-Carries}
use hao_server.Logic.Requests.{HasRoom, queued, register, unknown_code_faults}
use hao_server.Logic.Served.{request_served}
use hao_server.Net.Receive.Holding.{Holds}
use hao_server.Net.Receive.Stream.{Reads, takes_in, message_of}
use hao_server.Tests.Fixtures.{connected, length-zeroed, zeroed, zero_time}

abbrev header : Message
header = record { conn = 3; cur_sequence_num = 1; packet = [] }

abbrev account : List ℕ
account = zeroed 100

-- The client makes its packets as the server does.
abbrev request : ℕ → Message
request code = reply header code account

known : Carries 5 account (request 5).packet
known = reply-Carries header 5 account (omega arith) (omega arith) (omega arith)

unknown : Carries 9 account (request 9).packet
unknown = reply-Carries header 9 account (omega arith) (omega arith) (omega arith)

connected-HasRoom : HasRoom connected
connected-HasRoom = record { queue = omega arith; sends = omega arith }

unknown_code_faults_example : handle_message zero_time (request 9) connected ≡ none
unfolding reply
unknown_code_faults_example =
    unknown_code_faults zero_time (request 9) connected unknown.intact refl
      (λ e. omega (arith, e, unknown.code)) (λ e. omega (arith, e, unknown.code))
      (λ e. omega (arith, e, unknown.code))

connected-Holds : Holds [] connected.conn
connected-Holds = record {
  room = refl;
  stage =
      (record { short = omega arith; cursor = refl; missing = omega arith; bytes = refl }, refl);
}

arrival : (u : Session) × Reads zeroed connected (request 5).packet u
arrival = takes_in zeroed length-zeroed connected [] (request 5).packet refl connected-Holds

request_served_example :
    let m = message_of 3 1 (request 5).packet in
    (arrival.0.socket.tasks ≡ m ∷ [])
    × (r : Message) × (echo : List ℕ) × (handle_message zero_time m connected
        ≡ some (queued r connected))
    × (r.conn ≡ 3)
    × (r.cur_sequence_num ≡ 1)
    × Carries 5 echo r.packet
    × (length echo ≡ 100)
    × ((j : ℕ)
        → get_or echo j 0
          ≡ (if j == 4 + 95 then 0 else if j == 4 + 55 then 0 else get_or account j 0))
request_served_example =
    request_served zeroed length-zeroed connected arrival.0 connected (request 5).packet account
      zero_time register refl known refl connected-Holds arrival.1 refl connected-HasRoom

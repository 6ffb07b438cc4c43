-- ===== src/Logic/Served.antt =====
-- A request on its whole way: from the bytes that arrive, through ReadRequestHandler of
-- app/net/hao_socket_request.cpp and the thread pool, to the answer that HandleMessage of
-- app/logic/hao_logic.cpp queues.
use hao_server.Base.{
  ℕ, ◌+◌, ◌≤◌, ◌≡◌, sym, false, List, [], ◌∷◌, ◌++◌, some, arith, length, get_or, append-nil, subst,
  ◌==◌, if◌then◌else◌,
}
use hao_server.Timestamp.{Timestamp}
use hao_server.Net.State.{Message, Session}
use hao_server.Net.Receive.Framing.{IsPacket, joined}
use hao_server.Net.Receive.Holding.{Holds}
use hao_server.Net.Receive.Stream.{Reads, packets_delivered, message_of}
use hao_server.Logic.{handle_message}
use hao_server.Logic.Reply.{Carries}
use hao_server.Logic.Requests.{Echoed, register, login, HasRoom, queued, request_answered}

request-IsPacket :
    {cmd : ℕ} {body : List ℕ} (packet : List ℕ)
    → length body ≤ 100
    → Carries cmd body packet
    → IsPacket packet
request-IsPacket packet short v = record {
  header = omega (arith, v.honest, v.size);
  limit = omega (arith, v.honest, v.size, short);
  honest = v.honest;
}

short_request :
    {cmd i size : ℕ} (body : List ℕ) → Echoed cmd i size → size ≡ length body → length body ≤ 100
short_request body register e = omega (arith, e)
short_request body login e = omega (arith, e)

-- A register or login request of the right size arrives at a connection that waits for a header,
-- cut into any calls of ReadRequestHandler, with the flood test switched off. Then the thread pool
-- gets one message more, and when a worker takes it up, if the connection still has the sequence
-- number and has room in the send queue, HandleMessage queues for that connection one intact packet
-- with the request's code and with its body, but for zeros in the last bytes of name and password.
pub request_served :
    {cmd i size : ℕ} (malloc : ℕ → List ℕ)
    → ((n : ℕ) → length (malloc n) ≡ n)
    → (s u t : Session) (packet body : List ℕ) (now : Timestamp) → Echoed cmd i size
    → size ≡ length body
    → Carries cmd body packet
    → s.socket.flood_ak_enable ≡ false
    → Holds [] s.conn
    → Reads malloc s packet u
    → t.conn.sequence_num ≡ s.conn.sequence_num
    → HasRoom t
    → let m = message_of s.conn.id s.conn.sequence_num packet in
      (u.socket.tasks ≡ s.socket.tasks ++ m ∷ [])
      × (r : Message) × (echo : List ℕ) × (handle_message now m t ≡ some (queued r t))
      × (r.conn ≡ s.conn.id)
      × (r.cur_sequence_num ≡ s.conn.sequence_num)
      × Carries cmd echo r.packet
      × (length echo ≡ length body)
      × ((j : ℕ)
          → get_or echo j 0
            ≡ (if j == i + 95 then 0 else if j == i + 55 then 0 else get_or body j 0))
unfolding joined
request_served malloc length-malloc s u t packet body now e size v calm h run current room =
    let good = request-IsPacket packet (short_request body e size) v in
    let whole = subst (λ l. Reads malloc s l u) (sym (append-nil packet)) run in
    let m = message_of s.conn.id s.conn.sequence_num packet in
    let (r, echo, queues, to, seq, carries, same, bytes) =
      request_answered now m body t e size v current room in
    (
      (packets_delivered malloc length-malloc s u (packet ∷ []) calm h (good, tt) whole).0,
      r,
      echo,
      queues,
      to,
      seq,
      carries,
      same,
      bytes,
    )

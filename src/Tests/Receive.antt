-- ===== src/Tests/Receive.antt =====
-- The receiver at work: a packet of ten bytes behind one of eight.
use hao_server.Base.{some, ◌≤◌, All, ℕ, ◌≡◌, refl, List, [], ◌∷◌, map, arith}
use hao_server.Net.State.{Session}
use hao_server.Net.Receive.{received, read_request_handler}
use hao_server.Net.Receive.Framing.{frames, joined, IsPacket}
use hao_server.Net.Receive.Holding.{Holds, Advanced}
use hao_server.Net.Receive.Stream.{
  Reads, Holds-recv_len, takes_in, Reads-Advanced, Reads-total, packets_delivered, message_of,
}
use hao_server.Net.Receive.Room.{InRoom, Reads-InRoom}
use hao_server.Tests.Fixtures.{zero_time, connected, zeroed, length-zeroed}

abbrev ping : List ℕ
ping = 0 ∷ 8 ∷ 0 ∷ 0 ∷ 0 ∷ 0 ∷ 0 ∷ 0 ∷ []

abbrev two_byte_packet : List ℕ
two_byte_packet = 0 ∷ 10 ∷ 0 ∷ 5 ∷ 1 ∷ 2 ∷ 3 ∷ 4 ∷ 65 ∷ 66 ∷ []

abbrev packets : List (List ℕ)
packets = ping ∷ two_byte_packet ∷ []

packets-IsPacket : All IsPacket packets
packets-IsPacket = (
  record { header = omega arith; limit = omega arith; honest = refl },
  (record { header = omega arith; limit = omega arith; honest = refl }, tt),
)

connected-Holds : Holds [] connected.conn
connected-Holds = record {
  room = refl;
  stage =
      (record { short = omega arith; cursor = refl; missing = omega arith; bytes = refl }, refl);
}

abbrev stream : List ℕ
stream = joined packets

run : (u : Session) × Reads zeroed connected stream u
run = takes_in zeroed length-zeroed connected [] stream refl connected-Holds

packets_delivered_example :
    (run.0.socket.tasks ≡ map (message_of 3 1) packets) × Holds [] run.0.conn
packets_delivered_example =
    packets_delivered zeroed length-zeroed connected run.0 packets refl connected-Holds
      packets-IsPacket run.1

Reads-Advanced_example : Advanced 3 1 connected.socket (frames [] stream) run.0
Reads-Advanced_example =
    Reads-Advanced zeroed length-zeroed connected run.0 [] stream refl connected-Holds run.1

Reads-total_example :
    (1 ≤ connected.conn.recv_len)
    × ((t : Session) × (read_request_handler zeroed zero_time (received (0 ∷ [])) run.0 ≡ some t)
        × (1 ≤ t.conn.recv_len)
        × ((v : Session) × Reads zeroed t ping v))
Reads-total_example =
    Reads-total zeroed length-zeroed connected run.0 [] stream zero_time (0 ∷ []) ping refl
      connected-Holds run.1 (omega arith)
      (omega (arith, Holds-recv_len [] run.0.conn packets_delivered_example.1))

Reads-InRoom_example : InRoom run.0.conn.precv_buf run.0.conn
Reads-InRoom_example =
    Reads-InRoom zeroed length-zeroed connected run.0 [] stream refl connected-Holds run.1

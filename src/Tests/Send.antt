-- ===== src/Tests/Send.antt =====
-- A packet of ten bytes, of which the first call sends four and the second the rest.
use hao_server.Base.{All, Bool, List, refl, true, [], ◌∷◌, ◌++◌, arith, drop}
use hao_server.Net.State.{Message, Session, Socket}
use hao_server.Net.Epoll.{epoll_oper_event}
use hao_server.Net.Send.Walk.{UpToDateAndHeld, send_walk-AllWait}
use hao_server.Net.Send.{
  SendOutcome, buffer_full, broken, send_walk, some_sent, start_send, write_request_handler,
}
use hao_server.Net.Send.Drain.{Drains, drained, drains, part, taken, Progress, message_sent}
use hao_server.Tests.Fixtures.{connected, client, fresh_socket}

abbrev ten_bytes : Message
ten_bytes = record {
  conn = 3;
  cur_sequence_num = 1;
  packet = 0 ∷ 10 ∷ 0 ∷ 5 ∷ 1 ∷ 2 ∷ 3 ∷ 4 ∷ 65 ∷ 66 ∷ [];
}

abbrev started : Session
started = start_send (some_sent 4) true ten_bytes connected

abbrev finished : Session
finished = write_request_handler (some_sent 6) true started

two_calls : Drains started (drop 4 ten_bytes.packet) finished
unfolding start_send epoll_oper_event
two_calls = drains ten_bytes (some_sent 6) true refl (part (omega arith)) drained refl

message_sent_example :
    Progress ten_bytes ten_bytes.packet
      (taken (some_sent 4) ten_bytes.packet ++ drop 4 ten_bytes.packet)
      finished.conn
message_sent_example =
    message_sent ten_bytes (some_sent 4) true connected finished (drop 4 ten_bytes.packet) refl refl
      (part (omega arith)) two_calls

-- Three messages: the second is out of date, and the third follows one that fills the kernel.
abbrev crowded : Socket
crowded = record fresh_socket {
  conns = λ i. client;
  send_message_queue = ten_bytes ∷ record ten_bytes { cur_sequence_num = 0 } ∷ ten_bytes ∷ [];
}

abbrev kernel : List (SendOutcome × Bool)
kernel = (buffer_full, true) ∷ (some_sent 10, true) ∷ (broken, true) ∷ []

send_walk-AllWait_example :
    let r = send_walk kernel [] crowded.send_message_queue crowded in
    All (UpToDateAndHeld r) r.send_message_queue
send_walk-AllWait_example = send_walk-AllWait kernel crowded (omega arith)

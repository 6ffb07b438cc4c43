-- ===== src/Logic/Requests.antt =====
-- What HandleMessage of app/logic/hao_logic.cpp does with a packet of each code.
use hao_server.Base.{
  ℕ, zero, suc, ◌+◌, ◌-◌, ◌≤◌, ◌<◌, ◌≡◌, ◌≢◌, refl, ap, ◌∙◌, true, false, List, [], ◌∷◌, ◌++◌, none,
  some, length, get_or, ◌==◌, ==_iff, ltb, if◌then◌else◌, arith,
}
use hao_server.Base.Int.{pos, ◌+ℤ◌, ◌≤ℤ◌, ltb_ℤ}
use hao_server.Timestamp.{Timestamp}
use hao_server.Net.State.{Message, Session, pkg_len, msg_code}
use hao_server.Net.Send.{msg_send}
use hao_server.Logic.{
  handle_message, call_handler, handle_register, handle_login, reply, terminate, status_handler,
  pkg_body, crc_matches, run_entry,
}
use hao_server.Logic.Reply.{Carries, reply-Carries, length-terminate, terminate_lem}

-- The session with a message more in the queue.
abbrev pub queued : Message → Session → Session
queued m s =
    let c = s.conn in
    record {
      conn = record c { send_count = c.send_count +ℤ pos 1 };
      socket = record s.socket { send_message_queue = s.socket.send_message_queue ++ m ∷ [] };
    }

-- MsgSend has room for a message of this connection.
pub record HasRoom (s : Session) : Type 0 where
  pub queue : length s.socket.send_message_queue ≤ 50000
  pub sends : s.conn.send_count ≤ℤ pos 400

msg_send-queued :
    (now : Timestamp) (m : Message) (s : Session) → HasRoom s → msg_send now m s ≡ some (queued m s)
unfolding msg_send
msg_send-queued now m s room =
    let q : ltb 50000 (length s.socket.send_message_queue) ≡ false = ground (arith, room.queue) in
    let c : ltb_ℤ (pos 400) s.conn.send_count ≡ false = ground (arith, room.sends) in rw (q, c) refl

-- A request of this code with a body of `size` bytes, in which the name starts at `i`, is echoed.
pub data Echoed : (cmd i size : ℕ) → Type 0 where
  register : Echoed 5 4 100
  login : Echoed 6 0 96

no_handler : (n : ℕ) → n ≢ 0 → n ≢ 5 → n ≢ 6 → get_or status_handler n none ≡ none
no_handler zero a b c = absurd (a refl)
no_handler (suc zero) a b c = refl
no_handler (suc (suc zero)) a b c = refl
no_handler (suc (suc (suc zero))) a b c = refl
no_handler (suc (suc (suc (suc zero)))) a b c = refl
no_handler (suc (suc (suc (suc (suc zero))))) a b c = absurd (b refl)
no_handler (suc (suc (suc (suc (suc (suc zero)))))) a b c = absurd (c refl)
no_handler (suc (suc (suc (suc (suc (suc (suc n))))))) a b c = refl

-- A message that passes the tests of HandleMessage goes to the handler of its code.
module _ (now : Timestamp) (m : Message) (s : Session) (intact : crc_matches m.packet ≡ true)
    (current : s.conn.sequence_num ≡ m.cur_sequence_num) where
  handle_message-called :
      handle_message now m s ≡ call_handler now m (pkg_body m.packet) (pkg_len m.packet - 8) s
  unfolding handle_message
  handle_message-called =
      let same = (==_iff s.conn.sequence_num m.cur_sequence_num).1 current in rw (intact, same) refl

  -- If a message passes the tests of HandleMessage and its code is none of the ping's, the
  -- register's and the login's, then the call faults: it goes through an entry of the table of
  -- handlers that is null or does not exist.
  pub unknown_code_faults :
      msg_code m.packet ≢ 0
      → msg_code m.packet ≢ 5
      → msg_code m.packet ≢ 6
      → handle_message now m s ≡ none
  unfolding call_handler run_entry
  unknown_code_faults a b c =
      handle_message-called
      ∙ ap (λ h. run_entry h now m (pkg_body m.packet) (pkg_len m.packet - 8) s)
          (no_handler (msg_code m.packet) a b c)

call_handler-entry :
    {cmd : ℕ} (now : Timestamp) (m : Message) (body : List ℕ) (s : Session)
    → Carries cmd body m.packet
    → call_handler now m (pkg_body m.packet) (pkg_len m.packet - 8) s
      ≡ run_entry (get_or status_handler cmd none) now m (some body) (length body) s
unfolding call_handler
call_handler-entry {cmd} now m body s v =
    let size : pkg_len m.packet - 8 ≡ length body = omega (arith, v.size) in
    ap
      (λ n.
        run_entry (get_or status_handler n none) now m (pkg_body m.packet) (pkg_len m.packet - 8) s)
      v.code
    ∙ ap (λ b. run_entry (get_or status_handler cmd none) now m b (pkg_len m.packet - 8) s) v.body
    ∙ ap (λ l. run_entry (get_or status_handler cmd none) now m (some body) l s) size

register_entry :
    (now : Timestamp) (m : Message) (body : List ℕ) (s : Session)
    → 100 ≡ length body
    → handle_register now m (some body) (length body) s
      ≡ msg_send now (reply m 5 (terminate 4 body)) s
unfolding handle_register
register_entry now m body s size = rw (← size) refl

login_entry :
    (now : Timestamp) (m : Message) (body : List ℕ) (s : Session)
    → 96 ≡ length body
    → handle_login now m (some body) (length body) s ≡ msg_send now (reply m 6 (terminate 0 body)) s
unfolding handle_login
login_entry now m body s size = rw (← size) refl

echo_entry :
    {cmd i size : ℕ} (now : Timestamp) (m : Message) (body : List ℕ) (s : Session)
    → Echoed cmd i size
    → size ≡ length body
    → run_entry (get_or status_handler cmd none) now m (some body) (length body) s
      ≡ msg_send now (reply m cmd (terminate i body)) s
unfolding run_entry
echo_entry now m body s register size = register_entry now m body s size
echo_entry now m body s login size = login_entry now m body s size

echo_fits :
    {cmd i size : ℕ} (body : List ℕ)
    → Echoed cmd i size
    → size ≡ length body
    → (i + 96 ≤ length body) × (0 < length body) × (length body < 65528) × (cmd < 65536)
echo_fits body register size =
    (omega (arith, size), omega (arith, size), omega (arith, size), omega arith)
echo_fits body login size =
    (omega (arith, size), omega (arith, size), omega (arith, size), omega arith)

-- An intact register or login request of the right size, whose sender's connection is current and
-- has room in the send queue, is echoed: HandleMessage queues for the same connection and sequence
-- number a packet that is read back intact, with the request's code and with its body, but for
-- zeros in the last bytes of the name and of the password.
pub request_answered :
    {cmd i size : ℕ} (now : Timestamp) (m : Message) (body : List ℕ) (s : Session)
    → Echoed cmd i size
    → size ≡ length body
    → Carries cmd body m.packet
    → s.conn.sequence_num ≡ m.cur_sequence_num
    → HasRoom s
    → (r : Message) × (echo : List ℕ) × (handle_message now m s ≡ some (queued r s))
      × (r.conn ≡ m.conn)
      × (r.cur_sequence_num ≡ m.cur_sequence_num)
      × Carries cmd echo r.packet
      × (length echo ≡ length body)
      × ((j : ℕ)
          → get_or echo j 0
            ≡ (if j == i + 95 then 0 else if j == i + 55 then 0 else get_or body j 0))
unfolding reply
request_answered {cmd} {i} now m body s e size v current room =
    let (fits, some_bytes, short, narrow) = echo_fits body e size in
    let r = reply m cmd (terminate i body) in
    let same = length-terminate i body fits in
    (
      r,
      terminate i body,
      handle_message-called now m s v.intact current
          ∙ call_handler-entry now m body s v
          ∙ echo_entry now m body s e size
          ∙ msg_send-queued now r s room,
      refl,
      refl,
      reply-Carries m cmd (terminate i body) (omega (arith, same, some_bytes))
          (omega (arith, same, short)) narrow,
      same,
      λ j. terminate_lem i j body fits,
    )

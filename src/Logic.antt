-- ===== src/Logic.antt =====
-- app/logic/hao_logic.cpp and _include/hao_logic_common.h: what a worker thread does with a packet.
-- A handler works on the connection that the message names. `none` is a fault: a call through an
-- entry of the table of handlers that is null or does not exist, or the use of a freed timer event.
pub mod Reply
pub mod Requests
pub mod Served
use hao_server.Base.{
  ℕ, ◌+◌, ◌-◌, ◌/◌, ◌%◌, List, [], ◌∷◌, ◌++◌, Option, none, some, length, take, drop, overwrite,
  get_or, Bool, true, false, not, ◌==◌, if◌then◌else◌, ◌>>=◌,
}
use hao_server.Timestamp.{Timestamp}
use hao_server.Crc.{get_crc}
use hao_server.Net.State.{Message, Session, Socket, pkg_header_len, pkg_len, msg_code, crc32, store}
use hao_server.Net.Send.{msg_send}
use hao_server.Net.Timers.{update_timer}

-- CMD_PING, CMD_REGISTER and CMD_LOGIN
abbrev pub cmd_ping : ℕ
cmd_ping = 0

abbrev pub cmd_register : ℕ
cmd_register = 5

abbrev pub cmd_login : ℕ
cmd_login = 6

-- The sizes of the names and passwords in a Register and a Login, and of the packed structs.
abbrev pub username_size : ℕ
username_size = 56

abbrev pub password_size : ℕ
password_size = 40

abbrev pub register_size : ℕ
register_size = 100

abbrev pub login_size : ℕ
login_size = 96

-- htons and htonl, as the bytes in memory
abbrev pub htons : ℕ → List ℕ
htons v = v / 256 % 256 ∷ v % 256 ∷ []

abbrev pub htonl : ℕ → List ℕ
htonl v = htons (v / 65536) ++ htons v

-- A name that starts at `i` and the password behind it get a zero as their last byte.
unfoldable pub terminate : ℕ → List ℕ → List ℕ
terminate i body =
    overwrite (overwrite body (i + username_size - 1) (0 ∷ []))
      (i + username_size + password_size - 1) (0 ∷ [])

-- The answer to a message: its header again, and a packet with this code and body.
unfoldable pub reply : Message → ℕ → List ℕ → Message
reply m code body = record m {
  packet = htons (pkg_header_len + length body) ++ htons code ++ htonl (get_crc body) ++ body;
}

-- LogicSocket::HandleRegister. The type is turned to the host's order and back: its bytes stay.
unfoldable pub handle_register :
    Timestamp → Message → Option (List ℕ) → ℕ → Session → Option Session
handle_register now m none body_length s = some s
handle_register now m (some body) body_length s =
    if register_size == body_length
    then msg_send now (reply m cmd_register (terminate 4 body)) s
    else some s

-- LogicSocket::HandleLogin
unfoldable pub handle_login : Timestamp → Message → Option (List ℕ) → ℕ → Session → Option Session
handle_login now m none body_length s = some s
handle_login now m (some body) body_length s =
    if login_size == body_length
    then msg_send now (reply m cmd_login (terminate 0 body)) s
    else some s

-- LogicSocket::HandlePing
unfoldable pub handle_ping : Timestamp → Message → Option (List ℕ) → ℕ → Session → Option Session
handle_ping now m body body_length s = if body_length == 0 then update_timer now s else some s

abbrev pub PacketHandler : Type 0
PacketHandler = Timestamp → Message → Option (List ℕ) → ℕ → Session → Option Session

-- status_handler, with `none` for a null entry
abbrev pub status_handler : List (Option PacketHandler)
status_handler =
    some handle_ping ∷ none ∷ none ∷ none ∷ none ∷ some handle_register ∷ some handle_login ∷ []

-- A call through an entry of the table
pub run_entry :
    Option PacketHandler → Timestamp → Message → Option (List ℕ) → ℕ → Session → Option Session
run_entry none now m body body_length s = none
run_entry (some handle) now m body body_length s = handle now m body body_length s

-- The call through the table: an index of kTotalCommands or more is only logged before it.
unfoldable pub call_handler : Timestamp → Message → Option (List ℕ) → ℕ → Session → Option Session
call_handler now m body body_length s =
    run_entry (get_or status_handler (msg_code m.packet) none) now m body body_length s

-- The packet's body, as far as its length field goes, and its null pointer if there is none.
abbrev pub pkg_body : List ℕ → Option (List ℕ)
pkg_body packet =
    if pkg_len packet == pkg_header_len
    then none
    else some (take (pkg_len packet - pkg_header_len) (drop pkg_header_len packet))

-- The test of the CRC: it is 0 in a packet without a body.
abbrev pub crc_matches : List ℕ → Bool
crc_matches packet = elim (pkg_body packet) [
  | none ↦ crc32 packet == 0
  | some body ↦ get_crc body == crc32 packet
]

-- LogicSocket::HandleMessage, on a packet that has at least a header
unfoldable pub handle_message : Timestamp → Message → Session → Option Session
handle_message now m s =
    if not (crc_matches m.packet)
    then some s
    else if not (s.conn.sequence_num == m.cur_sequence_num)
    then some s
    else call_handler now m (pkg_body m.packet) (pkg_len m.packet - pkg_header_len) s

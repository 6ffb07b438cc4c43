-- ===== src/Net/Listen.antt =====
-- OpenListeningSockets and CloseListeningSockets of app/net/hao_socket.cpp. What the configuration
-- says of a listening socket is read from its values; the answers of the system calls are arguments, and
-- so are the bytes of an address before it is made. `none` is a read out of bounds, or a call that has
-- not come back.
pub mod Owned
use hao_server.Base.{
  ℕ, zero, suc, ◌+◌, ◌-◌, ◌%◌, ◌^◌, Bool, true, false, List, [], ◌∷◌, ◌++◌, Option, none, some,
  ◌>>=◌, if◌then◌else◌,
}
use hao_server.Base.Int.{ℤ, pos, negsuc}
use hao_server.Config.{JsonValue, at_key, as_int, as_bool, at_index, size}
use hao_server.Address.{InternetAddress, IpType, ipv4, ipv6, AddressType, loopback, any, of_port}

-- Listening
pub record Listening : Type 0 where
  pub sockfd : ℕ
  pub listen_address : InternetAddress

-- The list of the socket object, and the descriptors closed, oldest first
pub record Listeners : Type 0 where
  pub listen_socket_list : List Listening
  pub closed : List ℕ

-- What socket, setsockopt, bind and listen answer for one listening socket
pub record Attempt : Type 0 where
  pub socket_fd : Option ℕ
  pub reuse_address_ok : Bool
  pub bind_ok : Bool
  pub listen_ok : Bool

abbrev pub net_key : List ℕ
net_key = b'N' ∷ b'e' ∷ b't' ∷ []

abbrev pub listen_key : List ℕ
listen_key = b'L' ∷ b'i' ∷ b's' ∷ b't' ∷ b'e' ∷ b'n' ∷ []

abbrev pub any_key : List ℕ
any_key = b'A' ∷ b'n' ∷ b'y' ∷ []

abbrev ipv4_key : List ℕ
ipv4_key = b'i' ∷ b'p' ∷ b'v' ∷ b'4' ∷ []

abbrev pub port_key : List ℕ
port_key = b'L' ∷ b'i' ∷ b's' ∷ b't' ∷ b'e' ∷ b'n' ∷ b'P' ∷ b'o' ∷ b'r' ∷ b't' ∷ []

-- static_cast<uint16_t>
abbrev pub to_uint16 : ℤ → ℕ
to_uint16 (pos n) = n % 2 ^ 16
to_uint16 (negsuc n) = 2 ^ 16 - 1 - n % 2 ^ 16

-- The address that an entry of the configuration asks for
unfoldable pub entry_address : InternetAddress → JsonValue → InternetAddress
entry_address before entry =
    of_port before (to_uint16 (as_int (at_key port_key entry)))
      (if as_bool (at_key any_key entry) then any else loopback)
      (if as_bool (at_key ipv4_key entry) then ipv4 else ipv6)

abbrev close_it : ℕ → Listeners → Listeners
close_it fd s = record s { closed = s.closed ++ fd ∷ [] }

-- One round of OpenListeningSockets; the result says whether it goes on. SO_REUSEPORT may fail.
unfoldable pub open_one : InternetAddress → Attempt → Listeners → Listeners × Bool
open_one address a s = elim a.socket_fd [
  | none ↦ (s, false)
  | some fd ↦
      if a.reuse_address_ok
      then (if a.bind_ok
          then (if a.listen_ok
              then (
                record s {
                  listen_socket_list =
                      s.listen_socket_list ++ record { sockfd = fd; listen_address = address } ∷ [];
                },
                true,
              )
              else (close_it fd s, false))
          else (close_it fd s, false))
      else (close_it fd s, false)
]

-- The loop of OpenListeningSockets from the entry `i` on, for the entries left
unfoldable pub open_from :
    InternetAddress → JsonValue → ℕ → ℕ → List Attempt → Listeners → Option (Listeners × Bool)
open_from before listen i zero attempts s = some (s, true)
open_from before listen i (suc k) [] s = none
open_from before listen i (suc k) (a ∷ attempts) s = do
  entry ← at_index i listen
  let tried = open_one (entry_address before entry) a s
  let rest = open_from before listen (suc i) k attempts (tried.0)
  if tried.1 then rest else some tried

-- Socket::OpenListeningSockets
unfoldable pub open_listening_sockets :
    InternetAddress → JsonValue → List Attempt → Listeners → Option (Listeners × Bool)
open_listening_sockets before config attempts s =
    let listen = at_key listen_key (at_key net_key config) in
    open_from before listen 0 (size listen) attempts s

abbrev pub sockfds : List Listening → List ℕ
sockfds [] = []
sockfds (l ∷ ls) = l.sockfd ∷ sockfds ls

-- Socket::CloseListeningSockets
unfoldable pub close_listening_sockets : Listeners → Listeners
close_listening_sockets s = record s { closed = s.closed ++ sockfds s.listen_socket_list }

-- ===== src/Net/EpollInit.antt =====
-- Epoll_init of app/net/hao_socket.cpp: the pool is filled, and each listening socket gets a connection
-- that is registered with epoll. The answers of epoll_create1 and, by descriptor, of epoll_ctl are
-- arguments; `none` is the exit of the process. A listening socket is its descriptor, and the result
-- names the connection of each.
pub mod Listens
use Prim.Native.Nat.{bit_or}
use hao_server.Base.{ℕ, Bool, List, [], ◌∷◌, Option, none, some, ◌>>=◌, if◌then◌else◌}
use hao_server.Timestamp.{Timestamp}
use hao_server.Net.State.{Connection, Socket, event_accept, store}
use hao_server.Net.Pool.{get_connection, init_connection_pool}
use hao_server.Net.Epoll.{ctl_add, epoll_in, epoll_rdhup, epoll_oper_event}

abbrev pub listen_events : ℕ
listen_events = bit_or epoll_in epoll_rdhup

module _ (blank : Connection) (now : Timestamp) (registered : ℕ → Bool) where
  -- The loop of Epoll_init
  unfoldable pub register_listening : List ℕ → Socket → Option (Socket × List ℕ)
  register_listening [] s = some (s, [])
  register_listening (fd ∷ fds) s =
      let got = get_connection blank now fd s in
      let c = record ((got.0).conns got.1) { read_handler = event_accept } in
      let r =
        epoll_oper_event ctl_add listen_events 0 (registered fd)
          (record { socket = got.0; conn = c }) in
      let rest = register_listening fds (store (r.0).socket got.1 (r.0).conn) in
      if r.1 then (rest >>= λ t. some (t.0, got.1 ∷ t.1)) else none

  -- Socket::Epoll_init
  unfoldable pub epoll_init : Bool → List ℕ → Socket → Option (Socket × List ℕ)
  epoll_init created fds s =
      if created then register_listening fds (init_connection_pool blank now s) else none

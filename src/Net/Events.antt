-- ===== src/Net/Events.antt =====
-- Epoll_Process_Events of app/net/hao_socket.cpp: what becomes of one event that epoll_wait returns.
-- The handlers that a connection names are an argument.
use Prim.Native.Nat.{bit_and, bit_or}
use hao_server.Base.{ℕ, ◌≡◌, refl, Bool, not, List, [], ◌∷◌, ◌==◌, if◌then◌else◌}
use hao_server.Base.Int.{pos, ◌-ℤ◌}
use hao_server.Net.State.{Handler, Session, Socket, with_conn}
use hao_server.Net.Epoll.{epoll_in, epoll_out, epoll_rdhup}

-- EPOLLPRI, EPOLLERR and EPOLLHUP of sys/epoll.h
abbrev epoll_pri : ℕ
epoll_pri = 2

abbrev epoll_err : ℕ
epoll_err = 8

abbrev epoll_hup : ℕ
epoll_hup = 0x10

abbrev has_any : ℕ → ℕ → Bool
has_any events mask = not (bit_and events mask == 0)

-- An error makes the event one of reading and writing.
unfoldable pub with_error : ℕ → ℕ
with_error revents =
    if has_any revents (bit_or epoll_err epoll_hup)
    then bit_or revents (bit_or epoll_in epoll_out)
    else revents

module _ (run : Handler → Session → Session) where
  unfoldable pub read_event : ℕ → Session → Session
  read_event revents s =
      if has_any revents (bit_or (bit_or epoll_in epoll_pri) epoll_rdhup)
      then run s.conn.read_handler s
      else s

  unfoldable pub write_event : ℕ → Session → Session
  write_event revents s =
      if has_any revents epoll_out
      then (if has_any revents (bit_or (bit_or epoll_err epoll_hup) epoll_rdhup)
          then record s {
            conn = record s.conn { throw_send_count = s.conn.throw_send_count -ℤ pos 1 };
          }
          else run s.conn.write_handler s)
      else s

  unfoldable pub process_event : ℕ → Session → Session
  process_event revents s = let all = with_error revents in write_event all (read_event all s)

  -- The events of one call of epoll_wait, each with its connection
  unfoldable pub process_events : List (ℕ × ℕ) → Socket → Socket
  process_events [] s = s
  process_events ((i, revents) ∷ rest) s =
      process_events rest (with_conn i (process_event revents) s)

  -- A connection that can be read from and one that can be written to run their handlers; after an
  -- error the read handler runs, and the write handler does not: a wait for writing ends instead.
  pub process_event-cases :
      (s : Session)
      → (process_event epoll_in s ≡ run s.conn.read_handler s)
        × (process_event epoll_out s ≡ run s.conn.write_handler s)
        × (let r = run s.conn.read_handler s in
            process_event epoll_err s ≡ record r {
              conn = record r.conn { throw_send_count = r.conn.throw_send_count -ℤ pos 1 };
            })
  unfolding process_event read_event write_event with_error
  process_event-cases s = (refl, refl, refl)

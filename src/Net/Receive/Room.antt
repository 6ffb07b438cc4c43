-- ===== src/Net/Receive/Room.antt =====
-- Where `recv` writes (RecvProc of app/net/hao_socket_request.cpp): never outside the header
-- buffer of the connection or the block of the packet.
use hao_server.Base.{ℕ, ◌+◌, ◌≤◌, ◌≡◌, false, List, some, arith, length, subst, sym}
use hao_server.Net.State.{
  Message, Connection, Cursor, in_head, in_packet, Session, PkgState, head_init, head_recving,
  body_init, body_recving,
}
use hao_server.Net.Receive.Framing.{frames}
use hao_server.Net.Receive.Holding.{Holds, HoldsIn, InHead, InBody}
use hao_server.Net.Receive.Stream.{Reads, Reads-Advanced}

-- The recv_len bytes from the cursor on lie inside the array that it points into.
abbrev pub InRoom : Cursor → Connection → Type 0
InRoom (in_head i) c = i + c.recv_len ≤ length c.head_info
InRoom (in_packet i) c =
    (m : Message) × (c.precv_mem_pointer ≡ some m) × (i + c.recv_len ≤ length m.packet)

InHead-InRoom :
    (q : List ℕ) (c : Connection) → length c.head_info ≡ 20 → InHead q c → InRoom c.precv_buf c
InHead-InRoom q c room v =
    subst (λ cur. InRoom cur c) (sym v.cursor) (omega (arith, room, v.missing, v.short))

InBody-InRoom : (q : List ℕ) (c : Connection) → InBody q c → InRoom c.precv_buf c
InBody-InRoom q c v =
    subst (λ cur. InRoom cur c) (sym v.cursor)
      (
        record { conn = c.id; cur_sequence_num = c.sequence_num; packet = v.block },
        v.owned,
        omega (arith, v.room, v.missing),
      )

HoldsIn-InRoom :
    (st : PkgState) (q : List ℕ) (c : Connection)
    → length c.head_info ≡ 20
    → HoldsIn st q c
    → InRoom c.precv_buf c
HoldsIn-InRoom head_init q c room (v, e) = InHead-InRoom q c room v
HoldsIn-InRoom head_recving q c room v = InHead-InRoom q c room v
HoldsIn-InRoom body_init q c room v = InBody-InRoom q c v
HoldsIn-InRoom body_recving q c room v = InBody-InRoom q c v

-- With the flood test off, after any calls that take in a stream of bytes, whatever the bytes are,
-- the place and the number of bytes that the next `recv` is given lie inside the header buffer or
-- the packet's block.
pub Reads-InRoom :
    (malloc : ℕ → List ℕ)
    → ((n : ℕ) → length (malloc n) ≡ n)
    → (s u : Session) (q stream : List ℕ) → s.socket.flood_ak_enable ≡ false
    → Holds q s.conn
    → Reads malloc s stream u
    → InRoom u.conn.precv_buf u.conn
Reads-InRoom malloc length-malloc s u q stream calm h run =
    let end = Reads-Advanced malloc length-malloc s u q stream calm h run in
    HoldsIn-InRoom u.conn.cur_stat (frames q stream).0 u.conn end.holds.room end.holds.stage

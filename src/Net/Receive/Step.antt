-- ===== src/Net/Receive/Step.antt =====
-- One call of ReadRequestHandler (app/net/hao_socket_request.cpp) that receives bytes, against the
-- byte-wise specification. The flood test is switched off.
use hao_server.Base.{
  ℕ, suc, ◌+◌, ◌≤◌, ◌<◌, ◌≡◌, refl, ap, ◌∙◌, false, List, [], ◌∷◌, ◌++◌, some, arith, ◌==◌, length,
  overwrite,
}
use hao_server.Timestamp.{Timestamp}
use hao_server.Net.State.{
  Message, Connection, Cursor, in_head, in_packet, Session, PkgState, head_init, head_recving,
  body_init, body_recving, pkg_header_len, data_bufsize,
}
use hao_server.Net.Receive.{
  received, write_at, write_packet, recv_proc, got_bytes, after_recv, read_request_handler,
}
use hao_server.Net.Receive.Framing.{settle, frames, target, frames_up_to}
use hao_server.Net.Receive.Holding.{Yields, yields, Yields-bind, HoldsIn, Holds, Advanced, Calm}
use hao_server.Net.Receive.Header.{head-Calm}
use hao_server.Net.Receive.Body.{body-Calm}

-- Where the bytes go, by precv_buf.
write_at-head :
    (c : Connection) (i : ℕ) (bytes : List ℕ)
    → c.precv_buf ≡ in_head i
    → write_at c.precv_buf bytes c ≡ record c { head_info = overwrite c.head_info i bytes }
unfolding write_at
write_at-head c i bytes e = ap (λ cur. write_at cur bytes c) e

write_at-packet :
    (c : Connection) (i : ℕ) (bytes : List ℕ) {m : Message}
    → c.precv_buf ≡ in_packet i
    → c.precv_mem_pointer ≡ some m
    → write_at c.precv_buf bytes c
      ≡ record c { precv_mem_pointer = some (record m { packet = overwrite m.packet i bytes }) }
unfolding write_at write_packet
write_at-packet c i bytes e owned =
    ap (λ cur. write_at cur bytes c) e
    ∙ ap (λ p. record c { precv_mem_pointer = write_packet p i bytes }) owned

cur_stat-write_at :
    (cur : Cursor) (bytes : List ℕ) (c : Connection) → (write_at cur bytes c).cur_stat ≡ c.cur_stat
unfolding write_at
cur_stat-write_at (in_head i) bytes c = refl
cur_stat-write_at (in_packet i) bytes c = refl

-- recv_len is what is missing up to the next target.
HoldsIn-target :
    (st : PkgState) (q : List ℕ) (c : Connection)
    → HoldsIn st q c
    → c.recv_len + length q ≡ target q
HoldsIn-target head_init q c (v, e) = ground arith
HoldsIn-target head_recving q c v = ground arith
HoldsIn-target body_init q c v = ground arith
HoldsIn-target body_recving q c v = ground arith

not_zero : (k : ℕ) → (suc k == 0) ≡ false
not_zero k = ground arith

module _ (malloc : ℕ → List ℕ) (length-malloc : (n : ℕ) → length (malloc n) ≡ n) where
  -- What ReadRequestHandler does after RecvProc, in each of the four states.
  got_bytes-Calm :
      (st : PkgState) (s : Session) (now : Timestamp) (q : List ℕ) (b : ℕ) (bs : List ℕ)
      → HoldsIn st q s.conn
      → s.socket.flood_ak_enable ≡ false
      → length s.conn.head_info ≡ data_bufsize
      → suc (length bs) ≤ s.conn.recv_len
      → Yields (Calm s.conn.id s.conn.sequence_num s.socket (settle (q ++ b ∷ bs))) (
          got_bytes malloc st now
            (suc (length bs))
            (record s { conn = write_at s.conn.precv_buf (b ∷ bs) s.conn }))
  unfolding got_bytes
  got_bytes-Calm head_init s now q b bs (v, e) calm room fits =
      rw (write_at-head s.conn (length q) (b ∷ bs) v.cursor) (
        head-Calm malloc length-malloc s now q b bs (suc (length bs) == pkg_header_len) calm room v
          fits (λ t. ground (arith, ap length e)) (λ t. ground (arith, ap length e)))
  got_bytes-Calm head_recving s now q b bs v calm room fits =
      rw (write_at-head s.conn (length q) (b ∷ bs) v.cursor) (
        head-Calm malloc length-malloc s now q b bs (s.conn.recv_len == suc (length bs)) calm room v
          fits (λ t. ground arith) (λ t. ground arith))
  got_bytes-Calm body_init s now q b bs v calm room fits =
      rw (write_at-packet s.conn (length q) (b ∷ bs) v.cursor v.owned) (
        body-Calm s now q b bs (suc (length bs) == s.conn.recv_len) v calm room fits
          (λ t. ground arith) (λ t. ground arith))
  got_bytes-Calm body_recving s now q b bs v calm room fits =
      rw (write_at-packet s.conn (length q) (b ∷ bs) v.cursor v.owned) (
        body-Calm s now q b bs (s.conn.recv_len == suc (length bs)) v calm room fits
          (λ t. ground arith) (λ t. ground arith))

  -- With the flood test off, a call of ReadRequestHandler that receives bytes, no more than it asked
  -- for, does not fault and has the effect of the byte-wise specification on these bytes behind
  -- those already held.
  pub read_request_handler-Advanced :
      (s : Session) (now : Timestamp) (q bytes : List ℕ)
      → s.socket.flood_ak_enable ≡ false
      → Holds q s.conn
      → 0 < length bytes
      → length bytes ≤ s.conn.recv_len
      → Yields
          (Advanced s.conn.id s.conn.sequence_num s.socket (frames q bytes))
          (read_request_handler malloc now (received bytes) s)
  unfolding read_request_handler after_recv recv_proc write_at
  read_request_handler-Advanced s now q [] calm h some_bytes fits = absurd (omega arith)
  read_request_handler-Advanced s now q (b ∷ bs) calm h some_bytes fits =
      rw
        (
          not_zero (length bs),
          cur_stat-write_at s.conn.precv_buf (b ∷ bs) s.conn,
          frames_up_to q b bs (omega (arith, HoldsIn-target s.conn.cur_stat q s.conn h.stage)),
        )
        (Yields-bind (got_bytes-Calm s.conn.cur_stat s now q b bs h.stage calm h.room fits)
          λ r done. rw done.1 (yields done.0))

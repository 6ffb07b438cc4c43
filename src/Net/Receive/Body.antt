-- ===== src/Net/Receive/Body.antt =====
-- Receiving the body of a packet: Body_Init and Body_Recving of ReadRequestHandler
-- (app/net/hao_socket_request.cpp), and WaitRequestHandlerProcPlast.
use hao_server.Base.{
  if◌then◌else◌, ℕ, suc, ◌+◌, ◌≤◌, ◌≡◌, refl, sym, ap, ◌∙◌, ◌≢◌, Bool, true, false, List, [], ◌∷◌,
  ◌++◌, none, some, arith, length, overwrite, length-append, length-overwrite, take_all,
}
use hao_server.Timestamp.{Timestamp}
use hao_server.Net.State.{Message, in_packet, Session, body_recving, data_bufsize, pkg_len}
use hao_server.Net.Receive.{finish_packet, wait_for_more, proc_plast}
use hao_server.Net.Receive.Framing.{settle_body, settle_body_open, settle, pkg_len-append}
use hao_server.Net.Receive.Holding.{
  Yields, yields, InBody, Calm, restart-Holds, no_tasks, bytes_joined,
}

module _ (s : Session) (now : Timestamp) (calm : s.socket.flood_ak_enable ≡ false) where
  -- A whole packet goes to the thread pool.
  pub finish-Calm :
      (w : List ℕ)
      → length s.conn.head_info ≡ data_bufsize
      → s.conn.precv_mem_pointer
        ≡ some (record { conn = s.conn.id; cur_sequence_num = s.conn.sequence_num; packet = w })
      → Yields (Calm s.conn.id s.conn.sequence_num s.socket ([], w ∷ [])) (finish_packet now s)
  unfolding proc_plast
  finish-Calm w room owned =
      rw (calm, owned)
        (yields (
          record {
            same_id = refl;
            same_seq = refl;
            holds = restart-Holds (record s.conn { precv_mem_pointer = none }) room;
            pushed = refl;
          },
          refl,
        ))

pub body-Calm :
    (s : Session) (now : Timestamp) (q : List ℕ) (b : ℕ) (bs : List ℕ) (done : Bool)
    (v : InBody q s.conn)
    → s.socket.flood_ak_enable ≡ false
    → length s.conn.head_info ≡ data_bufsize
    → suc (length bs) ≤ s.conn.recv_len
    → (done ≡ true → suc (length bs) ≡ s.conn.recv_len)
    → (done ≡ false → suc (length bs) ≢ s.conn.recv_len)
    → let t : Session = record s {
      conn = record s.conn {
        precv_mem_pointer = some (record {
          conn = s.conn.id;
          cur_sequence_num = s.conn.sequence_num;
          packet = overwrite v.block (length q) (b ∷ bs);
        });
      };
    } in
      Yields
        (Calm s.conn.id s.conn.sequence_num s.socket (settle (q ++ b ∷ bs)))
        (if done then finish_packet now t else wait_for_more body_recving (suc (length bs)) t)
body-Calm s now q b bs true v calm room fits yes_done no_done =
    rw (settle_body (q ++ b ∷ bs) (omega (arith, size)) (omega (arith, size, len, yes_done refl))) (
      finish-Calm (record s { conn = record s.conn { precv_mem_pointer = some (message block) } })
        now calm (q ++ b ∷ bs) room
        (ap (λ p. some (message p))
          (sym (
              take_all (length (q ++ b ∷ bs)) block
                (omega (arith, size, yes_done refl, v.room, kept)))
            ∙ bytes_joined v.block q (b ∷ bs) v.bytes (omega (arith, v.room)))))
  where
    block : List ℕ
    block = overwrite v.block (length q) (b ∷ bs)

    message : List ℕ → Message
    message p = record { conn = s.conn.id; cur_sequence_num = s.conn.sequence_num; packet = p }

    size : length (q ++ b ∷ bs) ≡ length q + suc (length bs)
    size = length-append q (b ∷ bs)

    len : pkg_len (q ++ b ∷ bs) ≡ pkg_len q
    len = pkg_len-append q (b ∷ bs) (omega (arith, v.header))

    kept : length block ≡ length v.block
    kept = length-overwrite v.block (length q) (b ∷ bs) (omega (arith, v.room, v.missing))
body-Calm s now q b bs false v calm room fits yes_done no_done =
    rw
      (settle_body_open (q ++ b ∷ bs) (omega (arith, size))
        (omega (arith, size, len, no_done refl)))
      (yields (
        record {
          same_id = refl;
          same_seq = refl;
          holds = record {
            room = room;
            stage = record {
              header = omega (arith, size);
              short = omega (arith, size, len, no_done refl);
              cursor = rw v.cursor (ap in_packet (sym size));
              missing = omega (arith, size, len);
              block = overwrite v.block (length q) (b ∷ bs);
              room =
                  length-overwrite v.block (length q) (b ∷ bs) (omega (arith, v.room))
                  ∙ v.room
                  ∙ sym len;
              bytes = bytes_joined v.block q (b ∷ bs) v.bytes (omega (arith, v.room));
              owned = refl;
            };
          };
          pushed = no_tasks s.socket;
        },
        refl,
      ))
  where
    size : length (q ++ b ∷ bs) ≡ length q + suc (length bs)
    size = length-append q (b ∷ bs)

    len : pkg_len (q ++ b ∷ bs) ≡ pkg_len q
    len = pkg_len-append q (b ∷ bs) (omega (arith, v.header))

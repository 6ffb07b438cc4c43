-- ===== src/Net/Receive/Header.antt =====
-- Receiving a header: Head_Init and Head_Recving of ReadRequestHandler
-- (app/net/hao_socket_request.cpp), and WaitRequestHandlerProcP1.
use hao_server.Base.{
  if◌then◌else◌, ℕ, suc, ◌+◌, ◌≤◌, ◌≡◌, refl, sym, ap, ◌∙◌, inl, inr, ◌≢◌, Bool, true, false, List,
  ◌∷◌, ◌++◌, some, arith, ◌==◌, length, take, overwrite, length-append, length-overwrite,
  take-overwrite, take_all, Bool-cases,
}
use hao_server.Timestamp.{Timestamp}
use hao_server.Net.State.{
  Message, in_head, in_packet, Session, head_recving, pkg_header_len, data_bufsize, pkg_len,
}
use hao_server.Net.Receive.{wait_for_more, proc_p1}
use hao_server.Net.Receive.Framing.{
  settle_short, settle_bad, settle_whole, settle_open, is_bad_length, settle, pkg_len-take,
}
use hao_server.Net.Receive.Holding.{
  Yields, yields, InHead, Calm, restart-Holds, no_tasks, bytes_joined,
}
use hao_server.Net.Receive.Body.{finish-Calm}

length-overwrite_front :
    (xs ys : List ℕ) → length ys ≤ length xs → length (overwrite xs 0 ys) ≡ length xs
length-overwrite_front xs ys h = length-overwrite xs 0 ys (omega arith)

-- The block of a fresh packet begins with its header.
header_block :
    (block w : List ℕ) → length w ≤ length block → take (length w) (overwrite block 0 w) ≡ w
header_block block w h =
    let e : 0 + length w ≡ length w = omega arith in
    rw (← e) (take-overwrite block 0 w (omega arith))

module _ (malloc : ℕ → List ℕ) (length-malloc : (n : ℕ) → length (malloc n) ≡ n) where
  -- A whole header is dropped, makes a packet by itself, or starts a body.
  pub p1-Calm :
      (s : Session) (now : Timestamp) (w : List ℕ)
      → s.socket.flood_ak_enable ≡ false
      → length s.conn.head_info ≡ data_bufsize
      → length w ≡ pkg_header_len
      → take pkg_header_len s.conn.head_info ≡ w
      → Yields (Calm s.conn.id s.conn.sequence_num s.socket (settle w)) (proc_p1 malloc now s)
  unfolding proc_p1
  p1-Calm s now w calm room size bytes = elim (Bool-cases (is_bad_length n)) [
    | inl bad ↦
        rw (bad, settle_bad w size (rw (← same) bad))
          (yields (
            record {
              same_id = refl;
              same_seq = refl;
              holds = restart-Holds s.conn room;
              pushed = no_tasks s.socket;
            },
            refl,
          ))
    | inr good ↦
        rw (good, bytes)
          (elim (Bool-cases (n == pkg_header_len)) [
            | inl e ↦
                rw (e, settle_whole w (omega arith) (ground (arith, same)) (rw (← same) good))
                  (finish-Calm
                    (record s {
                      conn = record s.conn {
                        precv_mem_pointer = some (message (overwrite (malloc n) 0 w));
                      };
                    })
                    now calm w room (ap (λ p. some (message p)) (whole good e)))
            | inr e ↦
                rw (e, settle_open w (ground (arith, same)) (rw (← same) good))
                  (yields (
                    record {
                      same_id = refl;
                      same_seq = refl;
                      holds = record {
                        room = room;
                        stage = record {
                          header = omega arith;
                          short = ground (arith, same);
                          cursor = ap in_packet (sym size);
                          missing = ground (arith, same);
                          block = overwrite (malloc n) 0 w;
                          room =
                              length-overwrite_front (malloc n) w (fits good)
                              ∙ length-malloc n
                              ∙ same;
                          bytes = header_block (malloc n) w (fits good);
                          owned = refl;
                        };
                      };
                      pushed = no_tasks s.socket;
                    },
                    refl,
                  ))
          ])
  ]
    where
      n : ℕ
      n = pkg_len s.conn.head_info

      message : List ℕ → Message
      message p = record { conn = s.conn.id; cur_sequence_num = s.conn.sequence_num; packet = p }

      same : n ≡ pkg_len w
      same = rw (← bytes) (sym (pkg_len-take pkg_header_len s.conn.head_info (omega arith)))

      fits : is_bad_length n ≡ false → length w ≤ length (malloc n)
      fits g = ground (arith, length-malloc n)

      whole : is_bad_length n ≡ false → (n == pkg_header_len) ≡ true → overwrite (malloc n) 0 w ≡ w
      whole g e =
          sym (
            take_all (length w) (overwrite (malloc n) 0 w)
              (ground (arith, length-overwrite_front (malloc n) w (fits g), length-malloc n)))
          ∙ header_block (malloc n) w (fits g)

  -- Bytes for the header, of which `done` says whether they complete it.
  pub head-Calm :
      (s : Session) (now : Timestamp) (q : List ℕ) (b : ℕ) (bs : List ℕ) (done : Bool)
      → s.socket.flood_ak_enable ≡ false
      → length s.conn.head_info ≡ data_bufsize
      → InHead q s.conn
      → suc (length bs) ≤ s.conn.recv_len
      → (done ≡ true → suc (length bs) ≡ s.conn.recv_len)
      → (done ≡ false → suc (length bs) ≢ s.conn.recv_len)
      → let t : Session = record s {
        conn = record s.conn { head_info = overwrite s.conn.head_info (length q) (b ∷ bs) };
      } in
        Yields
          (Calm s.conn.id s.conn.sequence_num s.socket (settle (q ++ b ∷ bs)))
          (if done then proc_p1 malloc now t else wait_for_more head_recving (suc (length bs)) t)
  head-Calm s now q b bs true calm room h fits yes_done no_done =
      p1-Calm
        (record s {
          conn = record s.conn { head_info = overwrite s.conn.head_info (length q) (b ∷ bs) };
        })
        now (q ++ b ∷ bs) calm
        (length-overwrite s.conn.head_info (length q) (b ∷ bs) (omega arith) ∙ room)
        (omega (arith, length-append q (b ∷ bs), yes_done refl))
        (ap (λ k. take k (overwrite s.conn.head_info (length q) (b ∷ bs))) {x = pkg_header_len}
            (omega (arith, length-append q (b ∷ bs), yes_done refl))
          ∙ bytes_joined s.conn.head_info q (b ∷ bs) h.bytes (omega arith))
  head-Calm s now q b bs false calm room h fits yes_done no_done =
      rw (settle_short (q ++ b ∷ bs) (omega (arith, length-append q (b ∷ bs), no_done refl))) (
        yields (
          record {
            same_id = refl;
            same_seq = refl;
            holds = record {
              room = length-overwrite s.conn.head_info (length q) (b ∷ bs) (omega arith) ∙ room;
              stage = record {
                short = omega (arith, length-append q (b ∷ bs), no_done refl);
                cursor = rw h.cursor (ap in_head (sym (length-append q (b ∷ bs))));
                missing = omega (arith, length-append q (b ∷ bs));
                bytes = bytes_joined s.conn.head_info q (b ∷ bs) h.bytes (omega arith);
              };
            };
            pushed = no_tasks s.socket;
          },
          refl,
        ))

-- ===== src/Tests/Buffer.antt =====
-- A buffer of 16 bytes that has to move its contents and to grow.
use hao_server.Base.{overwrite, some, ◌≡◌, List, [], ◌∷◌, ◌++◌, arith}
use hao_server.Buffer.{
  Buffer, new_buffer, read_int, big_endian, append, ensure_writable_bytes, write, copied,
}
use hao_server.Buffer.Contents.{Readable, append-Readable}
use hao_server.Buffer.Queue.{
  BufferOp, appends, reads_in, retrieves, ensures, shrinks, run, run_list, run-Readable,
  new_buffer-Readable,
}
use hao_server.Buffer.Integers.{read_int_lem}
use hao_server.Tests.Fixtures.{zeroed}

abbrev small : Buffer
small = new_buffer 16

abbrev busy_day : List BufferOp
busy_day =
    appends (zeroed 12)
    ∷ retrieves 10
    ∷ reads_in (zeroed 9)
    ∷ ensures 40
    ∷ appends (1 ∷ 2 ∷ 3 ∷ [])
    ∷ shrinks 4
    ∷ []

run-Readable_example :
    (t : Buffer) × (run busy_day small ≡ some t) × Readable (run_list busy_day []) t
run-Readable_example = run-Readable busy_day [] small (new_buffer-Readable 16)

-- The buffer with a number in network order
abbrev filled : Buffer
filled = record {
  buffer = overwrite small.buffer 8 (1 ∷ 2 ∷ 3 ∷ 4 ∷ []);
  reader_index = 8;
  writer_index = 12;
}

filled-Readable : Readable (big_endian 4 0x01020304 ++ []) filled
unfolding append ensure_writable_bytes write copied big_endian
filled-Readable = append-Readable [] (big_endian 4 0x01020304) small (new_buffer-Readable 16)

read_int_lem_example : ((read_int 4 filled).0 ≡ 0x01020304) × Readable [] (read_int 4 filled).1
read_int_lem_example = read_int_lem 4 0x01020304 [] filled (omega arith) filled-Readable

-- ===== src/Tests/Crc.antt =====
-- An entry in the middle of the table.
use hao_server.Base.{◌*◌, ◌^◌, ◌≡◌, get_or, arith}
use hao_server.Crc.{crc_table}
use hao_server.Crc.Table.{shift_bits, crc_table_lem}

crc_table_lem_example : get_or crc_table 128 0 ≡ shift_bits 8 (128 * 2 ^ 24)
crc_table_lem_example = crc_table_lem 128 (omega arith)

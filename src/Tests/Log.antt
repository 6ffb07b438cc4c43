-- ===== src/Tests/Log.antt =====
-- A line of the log, written in two parts with a failed call between them.
use hao_server.Base.{
  ℕ, ◌-◌, ◌+◌, ◌<◌, none, take, length, ◌^◌, ◌≡◌, refl, true, List, [], ◌∷◌, ◌++◌, some, arith,
}
use hao_server.Base.Int.{pos}
use hao_server.Base.Decimal.{decimal, decimal_up_to}
use hao_server.Log.{
  log_line_size, Log, LogItem, flag, char, number, text, null_text, BrokenTime, WriteAnswer, wrote,
  failed, log_item, log_items, write_line, format_decimal, stamp, format_time, digits2, digit_pairs,
  h_level_string, put_char,
}
use hao_server.Log.Stderr.{stderr_front, log_to_stderr, log_to_stderr_lem}
use hao_server.Log.Digits.{format_decimal_lem}
use hao_server.Log.Written.{line_written, line_text, logged}
use hao_server.Log.Room.{IsSized, log_items-IsSized}

-- 2024-02-09 08:07:06.000450
abbrev morning : BrokenTime
morning = record {
  tm_year = 124;
  tm_mon = 1;
  tm_mday = 9;
  tm_hour = 8;
  tm_min = 7;
  tm_sec = 6;
  usec = 450;
}

time_text : format_time 24 2 9 b'-' ≡ b'2' ∷ b'4' ∷ b'-' ∷ b'0' ∷ b'2' ∷ b'-' ∷ b'0' ∷ b'9' ∷ []
unfolding format_time
time_text = refl

abbrev some_items : List LogItem
some_items = text (b'f' ∷ b'd' ∷ b':' ∷ []) ∷ number (pos 17) ∷ flag true ∷ null_text ∷ []

abbrev in_parts : List WriteAnswer
in_parts = wrote 40 ∷ failed ∷ wrote 4096 ∷ []

line_written_example :
    logged morning 4711 7 (b'a' ∷ []) 120 some_items in_parts
    ≡ some (line_text morning 4711 7 (b'a' ∷ []) 120 some_items)
unfolding stamp format_time digits2 digit_pairs h_level_string decimal decimal_up_to write_line
line_written_example =
    line_written morning 4711 7 (b'a' ∷ []) 120 some_items in_parts
      (omega arith, omega arith, omega arith, omega arith, omega arith, omega arith) (omega arith)
      (omega arith) (omega arith) (tt, (omega arith, (tt, (tt, tt)))) (omega arith)
      ((λ e. absurd (cc e)), ((λ e. absurd (cc e)), ((λ e. absurd (cc e)), tt))) refl

format_decimal_lem_example : format_decimal 20 (2 ^ 64 - 1) [] ≡ decimal (2 ^ 64 - 1)
format_decimal_lem_example = format_decimal_lem (2 ^ 64 - 1) (omega arith)

-- Only the time so far
abbrev new_line : Log
new_line = record { buffer = stamp morning; free_space = 4069 }

log_items-IsSized_example :
    IsSized (record { buffer = stamp morning ++ (b'4' ∷ b'2' ∷ []); free_space = 4067 })
unfolding stamp format_time digits2 digit_pairs log_items log_item put_char
log_items-IsSized_example =
    log_items-IsSized (char b'4' ∷ char b'2' ∷ []) new_line
      (record { buffer = stamp morning ++ (b'4' ∷ b'2' ∷ []); free_space = 4067 }) (tt, (tt, tt))
      refl refl

log_to_stderr_lem_example :
    let front = stderr_front morning 2 (b'n' ∷ b'o' ∷ []) in
    let printed : List ℕ = b'h' ∷ b'i' ∷ [] in
    let run = log_to_stderr morning 2 (b'n' ∷ b'o' ∷ []) printed in
    let size = length front + length printed in
    (size < log_line_size → run ≡ some (front ++ printed))
    × (size ≡ log_line_size
        → 0 < length printed
        → run ≡ some (front ++ (take (length printed - 1) printed ++ 0 ∷ [])))
    × (log_line_size < size → run ≡ none)
log_to_stderr_lem_example = log_to_stderr_lem morning 2 (b'n' ∷ b'o' ∷ []) (b'h' ∷ b'i' ∷ [])

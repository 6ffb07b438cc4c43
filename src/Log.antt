-- ===== src/Log.antt =====
-- _include/hao_log.h and app/log/hao_log.cpp: a line of the log. The buffer is the list of the bytes
-- in front of cur_. What would write outside of a buffer gives `none`. The texts that snprintf and
-- strerror make are arguments.
pub mod Digits
pub mod Clock
pub mod Line
pub mod Written
pub mod Room
pub mod Stderr
pub mod Errors
use Prim.Native.Nat.{bit_and, bit_or}
use hao_server.Base.{
  ℕ, zero, suc, ◌+◌, ◌-◌, ◌*◌, ◌/◌, ◌%◌, ◌^◌, Bool, true, false, List, [], ◌∷◌, ◌++◌, Option, none,
  some, ◌>>=◌, ltb, leb, ◌==◌, if◌then◌else◌, take, drop, length,
}
use hao_server.Base.Int.{ℤ, pos, negsuc}

-- kLogLineSize, kMaxNumericSize, and the size that FormatInteger gives to format_decimal
abbrev pub log_line_size : ℕ
log_line_size = 4096

abbrev pub max_numeric_size : ℕ
max_numeric_size = 48

abbrev pub number_size : ℕ
number_size = 19

pub record Log : Type 0 where
  pub buffer : List ℕ
  pub free_space : ℕ

-- The table of digits2
unfoldable pub digit_pairs : List ℕ
digit_pairs =
    b'0' ∷ b'0' ∷ b'0' ∷ b'1' ∷ b'0' ∷ b'2' ∷ b'0' ∷ b'3' ∷ b'0' ∷ b'4' ∷ b'0' ∷ b'5' ∷ b'0' ∷ b'6'
    ∷ b'0' ∷ b'7' ∷ b'0' ∷ b'8' ∷ b'0' ∷ b'9' ∷ b'1' ∷ b'0' ∷ b'1' ∷ b'1' ∷ b'1' ∷ b'2' ∷ b'1'
    ∷ b'3' ∷ b'1' ∷ b'4' ∷ b'1' ∷ b'5' ∷ b'1' ∷ b'6' ∷ b'1' ∷ b'7' ∷ b'1' ∷ b'8' ∷ b'1' ∷ b'9'
    ∷ b'2' ∷ b'0' ∷ b'2' ∷ b'1' ∷ b'2' ∷ b'2' ∷ b'2' ∷ b'3' ∷ b'2' ∷ b'4' ∷ b'2' ∷ b'5' ∷ b'2'
    ∷ b'6' ∷ b'2' ∷ b'7' ∷ b'2' ∷ b'8' ∷ b'2' ∷ b'9' ∷ b'3' ∷ b'0' ∷ b'3' ∷ b'1' ∷ b'3' ∷ b'2'
    ∷ b'3' ∷ b'3' ∷ b'3' ∷ b'4' ∷ b'3' ∷ b'5' ∷ b'3' ∷ b'6' ∷ b'3' ∷ b'7' ∷ b'3' ∷ b'8' ∷ b'3'
    ∷ b'9' ∷ b'4' ∷ b'0' ∷ b'4' ∷ b'1' ∷ b'4' ∷ b'2' ∷ b'4' ∷ b'3' ∷ b'4' ∷ b'4' ∷ b'4' ∷ b'5'
    ∷ b'4' ∷ b'6' ∷ b'4' ∷ b'7' ∷ b'4' ∷ b'8' ∷ b'4' ∷ b'9' ∷ b'5' ∷ b'0' ∷ b'5' ∷ b'1' ∷ b'5'
    ∷ b'2' ∷ b'5' ∷ b'3' ∷ b'5' ∷ b'4' ∷ b'5' ∷ b'5' ∷ b'5' ∷ b'6' ∷ b'5' ∷ b'7' ∷ b'5' ∷ b'8'
    ∷ b'5' ∷ b'9' ∷ b'6' ∷ b'0' ∷ b'6' ∷ b'1' ∷ b'6' ∷ b'2' ∷ b'6' ∷ b'3' ∷ b'6' ∷ b'4' ∷ b'6'
    ∷ b'5' ∷ b'6' ∷ b'6' ∷ b'6' ∷ b'7' ∷ b'6' ∷ b'8' ∷ b'6' ∷ b'9' ∷ b'7' ∷ b'0' ∷ b'7' ∷ b'1'
    ∷ b'7' ∷ b'2' ∷ b'7' ∷ b'3' ∷ b'7' ∷ b'4' ∷ b'7' ∷ b'5' ∷ b'7' ∷ b'6' ∷ b'7' ∷ b'7' ∷ b'7'
    ∷ b'8' ∷ b'7' ∷ b'9' ∷ b'8' ∷ b'0' ∷ b'8' ∷ b'1' ∷ b'8' ∷ b'2' ∷ b'8' ∷ b'3' ∷ b'8' ∷ b'4'
    ∷ b'8' ∷ b'5' ∷ b'8' ∷ b'6' ∷ b'8' ∷ b'7' ∷ b'8' ∷ b'8' ∷ b'8' ∷ b'9' ∷ b'9' ∷ b'0' ∷ b'9'
    ∷ b'1' ∷ b'9' ∷ b'2' ∷ b'9' ∷ b'3' ∷ b'9' ∷ b'4' ∷ b'9' ∷ b'5' ∷ b'9' ∷ b'6' ∷ b'9' ∷ b'7'
    ∷ b'9' ∷ b'8' ∷ b'9' ∷ b'9' ∷ []

unfoldable pub digits2 : ℕ → List ℕ
digits2 value = take 2 (drop (value * 2) digit_pairs)

-- The table of h_level_string
abbrev pub levels : List ℕ
levels =
    b'[' ∷ b' ' ∷ b' ' ∷ b' ' ∷ b' ' ∷ b' ' ∷ b' ' ∷ b']' ∷ b'[' ∷ b'e' ∷ b'm' ∷ b'e' ∷ b'r' ∷ b'g'
    ∷ b' ' ∷ b']' ∷ b'[' ∷ b'a' ∷ b'l' ∷ b'e' ∷ b'r' ∷ b't' ∷ b' ' ∷ b']' ∷ b'[' ∷ b'c' ∷ b'r'
    ∷ b'i' ∷ b't' ∷ b' ' ∷ b' ' ∷ b']' ∷ b'[' ∷ b'e' ∷ b'r' ∷ b'r' ∷ b'o' ∷ b'r' ∷ b' ' ∷ b']'
    ∷ b'[' ∷ b'w' ∷ b'a' ∷ b'r' ∷ b'n' ∷ b' ' ∷ b' ' ∷ b']' ∷ b'[' ∷ b'n' ∷ b'o' ∷ b't' ∷ b'i'
    ∷ b'c' ∷ b'e' ∷ b']' ∷ b'[' ∷ b'i' ∷ b'n' ∷ b'f' ∷ b'o' ∷ b' ' ∷ b' ' ∷ b']' ∷ b'[' ∷ b'd'
    ∷ b'e' ∷ b'b' ∷ b'u' ∷ b'g' ∷ b' ' ∷ b']' ∷ []

unfoldable pub h_level_string : ℕ → List ℕ
h_level_string level = take 8 (drop (level * 8) levels)

-- format_decimal, in front of the bytes behind it, on fuel: a round divides by 100.
unfoldable pub format_decimal : ℕ → ℕ → List ℕ → List ℕ
format_decimal zero value out = out
format_decimal (suc f) value out =
    let rest = format_decimal f (value / 100) (digits2 (value % 100) ++ out) in
    if leb 100 value
    then rest
    else if ltb value 10
    then (48 + value) ∷ out
    else digits2 value ++ out

-- The bytes of a uint64_t in memory
abbrev pub memory_bytes : ℕ → ℕ → List ℕ
memory_bytes zero n = []
memory_bytes (suc k) n = n % 2 ^ 8 ∷ memory_bytes k (n / 2 ^ 8)

unfoldable pub format_time : ℕ → ℕ → ℕ → ℕ → List ℕ
format_time a b c sep =
    let packed = bit_or (bit_or a (b * 2 ^ 24 % 2 ^ 32)) (c * 2 ^ 48 % 2 ^ 64) in
    let tens = bit_and (packed * 205 % 2 ^ 64 / 2 ^ 11) 0x000f00000f00000f in
    let carried = (packed + tens * 6) % 2 ^ 64 in
    let digits =
      bit_or (bit_and carried 0x00f00000f00000f0 / 2 ^ 4)
        (bit_and carried 0x000f00000f00000f * 2 ^ 8) in
    memory_bytes 8
      (bit_or digits (bit_or 0x3030003030003030 (bit_or (sep * 2 ^ 16) (sep * 2 ^ 40))))

-- struct tm, and the microseconds
pub record BrokenTime : Type 0 where
  pub tm_year : ℕ
  pub tm_mon : ℕ
  pub tm_mday : ℕ
  pub tm_hour : ℕ
  pub tm_min : ℕ
  pub tm_sec : ℕ
  pub usec : ℕ

-- The time at the start of a line
unfoldable pub stamp : BrokenTime → List ℕ
stamp t =
    digits2 ((1900 + t.tm_year) / 100)
    ++ (format_time (t.tm_year % 100) (t.tm_mon + 1) t.tm_mday b'-'
        ++ (b' '
            ∷ (format_time t.tm_hour t.tm_min t.tm_sec b':'
                ++ (b'.'
                    ∷ (digits2 (t.usec / 10000 % 100)
                        ++ (digits2 (t.usec / 100 % 100)
                            ++ (digits2 (t.usec % 100) ++ b' ' ∷ [])))))))

abbrev pub smaller : ℕ → ℕ → ℕ
smaller a b = if leb a b then a else b

abbrev pub copy_in : Log → List ℕ → Log
copy_in l src =
    let real = smaller (length src) l.free_space in
    record { buffer = l.buffer ++ take real src; free_space = l.free_space - real }

-- Log::Append
unfoldable pub append : Log → List ℕ → Log
append l src = if l.free_space == 0 then l else copy_in l src

-- operator<< of a character and of a bool
unfoldable pub put_char : Log → ℕ → Log
put_char l c =
    if l.free_space == 0
    then l
    else record { buffer = l.buffer ++ c ∷ []; free_space = l.free_space - 1 }

unfoldable pub put_flag : Log → Bool → Log
put_flag l b = put_char l (if b then b'1' else b'0')

-- operator<< of a text; the null pointer takes six bytes whether they are there or not.
unfoldable pub put_text : Log → List ℕ → Log
put_text l src = copy_in l src

unfoldable pub put_null : Log → Option Log
put_null l =
    if leb 6 l.free_space
    then some (record {
      buffer = l.buffer ++ b'(' ∷ b'n' ∷ b'u' ∷ b'l' ∷ b'l' ∷ b')' ∷ [];
      free_space = l.free_space - 6;
    })
    else none

-- The digits that FormatInteger makes of a number: it gives format_decimal the number and not its
-- absolute value.
unfoldable pub integer_text : ℤ → List ℕ
integer_text (pos n) = format_decimal 20 n []
integer_text (negsuc k) = b'-' ∷ (303 - k % 2 ^ 8) % 2 ^ 8 ∷ []

-- FormatInteger: digits in front of its buffer are a fault.
unfoldable pub format_integer : Log → ℤ → Option Log
format_integer l n =
    if leb (length (integer_text n)) number_size
    then some (if leb max_numeric_size l.free_space then append l (integer_text n) else l)
    else none

-- operator<< of a pointer and of a double, with the text that snprintf makes
unfoldable pub put_printed : Log → List ℕ → Log
put_printed l text =
    if leb max_numeric_size l.free_space
    then record { buffer = l.buffer ++ text; free_space = l.free_space - length text }
    else l

pub data LogItem : Type 0 where
  flag : Bool → LogItem
  char : ℕ → LogItem
  number : ℤ → LogItem
  text : List ℕ → LogItem
  null_text : LogItem
  printed : List ℕ → LogItem

unfoldable pub log_item : LogItem → Log → Option Log
log_item (flag b) l = some (put_flag l b)
log_item (char c) l = some (put_char l c)
log_item (number n) l = format_integer l n
log_item (text s) l = some (put_text l s)
log_item null_text l = put_null l
log_item (printed s) l = some (put_printed l s)

unfoldable pub log_items : List LogItem → Log → Option Log
log_items [] l = some l
log_items (i ∷ is) l = log_item i l >>= λ m. log_items is m

-- Log::Log, with the text of strerror
unfoldable pub new_log : BrokenTime → ℤ → ℕ → List ℕ → ℕ → ℤ → List ℕ → Option Log
new_log time pid level filename line err error_text =
    let start : Log = record { buffer = stamp time; free_space = log_line_size - 27 } in
    let place = char b'[' ∷ text filename ∷ char b' ' ∷ number (pos line) ∷ char b']' ∷ [] in
    log_items (number pid ∷ char b' ' ∷ []) start >>= λ l.
    log_items place (append l (h_level_string level)) >>= λ l. after_place err l
  where
    after_place : ℤ → Log → Option Log
    after_place (pos zero) l = some l
    after_place e l =
        log_items
          (text (b'e' ∷ b'r' ∷ b'r' ∷ b':' ∷ [])
            ∷ number e
            ∷ char b' '
            ∷ text error_text
            ∷ char b' '
            ∷ [])
          l

-- Log::~Log: the newline, and what the calls of write answer; a failed call is made again, and a full
-- disk is the end. When the answers run out a call has not returned, which is `false`.
unfoldable pub end_line : Log → List ℕ
end_line l = if length l.buffer == log_line_size then l.buffer else l.buffer ++ 10 ∷ []

pub data WriteAnswer : Type 0 where
  wrote : ℕ → WriteAnswer
  no_space : WriteAnswer
  failed : WriteAnswer

unfoldable pub write_line : List WriteAnswer → List ℕ → List ℕ × Bool
write_line answers [] = ([], true)
write_line [] (c ∷ cs) = ([], false)
write_line (wrote n ∷ answers) (c ∷ cs) =
    let rest = write_line answers (drop n (c ∷ cs)) in (take n (c ∷ cs) ++ rest.0, rest.1)
write_line (no_space ∷ answers) (c ∷ cs) = ([], true)
write_line (failed ∷ answers) (c ∷ cs) = write_line answers (c ∷ cs)

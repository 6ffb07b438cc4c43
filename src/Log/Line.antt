-- ===== src/Log/Line.antt =====
-- What the operators of Log, app/log/hao_log.cpp, add to a line while there is room.
use hao_server.Base.{
  ℕ, suc, ◌+◌, ◌-◌, ◌^◌, ◌≤◌, ◌<◌, ◌≡◌, refl, sym, ap, ◌∙◌, true, false, List, [], ◌∷◌, ◌++◌, some,
  arith, leb, ◌==◌, if◌then◌else◌, All, append_assoc, append-nil, length, length-append, take_all,
}
use hao_server.Base.Int.{pos, negsuc}
use hao_server.Base.Decimal.{decimal, length-decimal}
use hao_server.Log.{
  Log, LogItem, flag, char, number, text, null_text, printed, log_item, log_items, copy_in, append,
  put_char, put_flag, put_text, put_null, put_printed, format_integer, integer_text,
}
use hao_server.Log.Digits.{format_decimal_lem}

-- What an item should look like
abbrev pub shown : LogItem → List ℕ
shown (flag b) = (if b then b'1' else b'0') ∷ []
shown (char c) = c ∷ []
shown (number (pos n)) = decimal n
shown (number (negsuc n)) = b'-' ∷ decimal (suc n)
shown (text s) = s
shown null_text = b'(' ∷ b'n' ∷ b'u' ∷ b'l' ∷ b'l' ∷ b')' ∷ []
shown (printed s) = s

abbrev pub shown_all : List LogItem → List ℕ
shown_all [] = []
shown_all (i ∷ is) = shown i ++ shown_all is

-- A number that is not negative and has 19 digits at most
abbrev pub IsLogged : LogItem → Type 0
IsLogged (number (pos n)) = n < 10 ^ 19
IsLogged (number (negsuc n)) = ⊥
IsLogged i = Unit

abbrev pub extended : Log → List ℕ → Log
extended l s = record { buffer = l.buffer ++ s; free_space = l.free_space - length s }

extended-nil : (l : Log) → extended l [] ≡ l
extended-nil l =
    rw (append-nil l.buffer) (ap (λ n. record { buffer = l.buffer; free_space = n }) (omega arith))

pub extended-append : (l : Log) (s t : List ℕ) → extended (extended l s) t ≡ extended l (s ++ t)
extended-append l s t = rw (append_assoc l.buffer s t) (
    ap (λ n. record { buffer = l.buffer ++ (s ++ t); free_space = n })
      (omega (arith, length-append s t)))

pub copy_in-Fits : (l : Log) (s : List ℕ) → length s ≤ l.free_space → copy_in l s ≡ extended l s
copy_in-Fits l s h =
    let e : leb (length s) l.free_space ≡ true = ground (arith, h) in
    rw (e, take_all (length s) s (omega arith)) refl

pub append-Fits : (l : Log) (s : List ℕ) → length s < l.free_space → append l s ≡ extended l s
unfolding append
append-Fits l s h =
    let e : (l.free_space == 0) ≡ false = ground (arith, h) in
    rw e (copy_in-Fits l s (omega (arith, h)))

put_char-Fits : (l : Log) (c : ℕ) → 0 < l.free_space → put_char l c ≡ extended l (c ∷ [])
unfolding put_char
put_char-Fits l c h = let e : (l.free_space == 0) ≡ false = ground (arith, h) in rw e refl

pub integer_text_lem : (n : ℕ) → n < 10 ^ 19 → integer_text (pos n) ≡ decimal n
unfolding integer_text
integer_text_lem n h = format_decimal_lem n (omega (arith, h))

format_integer-Fits :
    (l : Log) (n : ℕ)
    → n < 10 ^ 19
    → length (decimal n) + 48 ≤ l.free_space
    → format_integer l (pos n) ≡ some (extended l (decimal n))
unfolding format_integer
format_integer-Fits l n h room =
    let short : leb (length (decimal n)) 19 ≡ true = ground (arith, length-decimal 18 n h) in
    let free : leb 48 l.free_space ≡ true = ground (arith, room) in
    rw (integer_text_lem n h, short, free)
      (ap some (append-Fits l (decimal n) (omega (arith, room))))

pub log_item-Fits :
    (i : LogItem) (l : Log)
    → IsLogged i
    → length (shown i) + 48 ≤ l.free_space
    → log_item i l ≡ some (extended l (shown i))
unfolding log_item put_flag put_text put_null put_printed
log_item-Fits (flag b) l h room =
    ap some (put_char-Fits l (if b then b'1' else b'0') (omega (arith, room)))
log_item-Fits (char c) l h room = ap some (put_char-Fits l c (omega (arith, room)))
log_item-Fits (number (pos n)) l h room = format_integer-Fits l n h room
log_item-Fits (number (negsuc n)) l h room = absurd h
log_item-Fits (text s) l h room = ap some (copy_in-Fits l s (omega (arith, room)))
log_item-Fits null_text l h room =
    let free : leb 6 l.free_space ≡ true = ground (arith, room) in rw free refl
log_item-Fits (printed s) l h room =
    let free : leb 48 l.free_space ≡ true = ground (arith, room) in rw free refl

pub log_items-Fits :
    (is : List LogItem) (l : Log)
    → All IsLogged is
    → length (shown_all is) + 48 ≤ l.free_space
    → log_items is l ≡ some (extended l (shown_all is))
unfolding log_items
log_items-Fits [] l h room = ap some (sym (extended-nil l))
log_items-Fits (i ∷ is) l h room =
    let size = length-append (shown i) (shown_all is) in
    rw (log_item-Fits i l h.0 (omega (arith, room, size))) (
      log_items-Fits is (extended l (shown i)) h.1 (omega (arith, room, size))
      ∙ ap some (extended-append l (shown i) (shown_all is)))

-- ===== src/Log/Room.antt =====
-- No operator of Log, app/log/hao_log.cpp, puts more into the buffer than it holds.
use hao_server.Base.{
  ℕ, ◌+◌, ◌≤◌, ◌<◌, ◌≡◌, sym, ap, ◌∙◌, subst, true, false, List, [], ◌∷◌, some, ◌>>=◌, arith, leb,
  ◌==◌, if◌then◌else◌, Bool-cases, Option-cases, inl, inr, All, length, length-append, length-take,
  take,
}
use hao_server.Base.Int.{ℤ}
use mathlib.Core.Option.{some-injective}
use hao_server.Log.{
  Log, LogItem, flag, char, number, text, null_text, printed, log_item, log_items, log_line_size,
  max_numeric_size, number_size, copy_in, append, put_char, put_flag, put_text, put_null,
  put_printed, format_integer, integer_text, smaller,
}

-- The bytes and the room left make up the buffer.
abbrev pub IsSized : Log → Type 0
IsSized l = length l.buffer + l.free_space ≡ log_line_size

-- What snprintf prints of a pointer or of a double is shorter than kMaxNumericSize.
abbrev pub IsShort : LogItem → Type 0
IsShort (printed s) = length s < max_numeric_size
IsShort i = Unit

copy_in-IsSized : (l : Log) (s : List ℕ) → IsSized l → IsSized (copy_in l s)
copy_in-IsSized l s h =
    let real = smaller (length s) l.free_space in
    let inside : real ≤ length s = ground arith in
    let free : real ≤ l.free_space = ground arith in
    omega (arith, h, length-append l.buffer (take real s), length-take real s inside, free)

put_char-IsSized : (l : Log) (c : ℕ) → IsSized l → IsSized (put_char l c)
unfolding put_char
put_char-IsSized l c h = elim (Bool-cases (l.free_space == 0)) [
  | inl full ↦ rw full h
  | inr room ↦ rw room (
      let some_left : 0 < l.free_space = ground (arith, room) in
      omega (arith, h, length-append l.buffer (c ∷ []), some_left))
]

append-IsSized : (l : Log) (s : List ℕ) → IsSized l → IsSized (append l s)
unfolding append
append-IsSized l s h = elim (Bool-cases (l.free_space == 0)) [
  | inl full ↦ rw full h
  | inr room ↦ rw room (copy_in-IsSized l s h)
]

put_printed-IsSized : (l : Log) (s : List ℕ) → length s < 48 → IsSized l → IsSized (put_printed l s)
unfolding put_printed
put_printed-IsSized l s short h = elim (Bool-cases (leb 48 l.free_space)) [
  | inl room ↦ rw room (
      let some_left : 48 ≤ l.free_space = ground (arith, room) in
      omega (arith, h, length-append l.buffer s, some_left, short))
  | inr full ↦ rw full h
]

put_null-IsSized : (l m : Log) → IsSized l → put_null l ≡ some m → IsSized m
unfolding put_null
put_null-IsSized l m h = elim (Bool-cases (leb 6 l.free_space)) [
  | inl room ↦
      rw (put_null, room)
        (λ e. subst IsSized (some-injective _ _ e) (
          let six : 6 ≤ l.free_space = ground (arith, room) in
          omega
            (arith, h, six, length-append l.buffer (b'(' ∷ b'n' ∷ b'u' ∷ b'l' ∷ b'l' ∷ b')' ∷ []))))
  | inr full ↦ rw (put_null, full) (λ e. absurd (cc e))
]

format_integer-IsSized : (l m : Log) (n : ℤ) → IsSized l → format_integer l n ≡ some m → IsSized m
unfolding format_integer
format_integer-IsSized l m n h = elim (Bool-cases (leb (length (integer_text n)) number_size)) [
  | inr long ↦ rw (format_integer, long) (λ e. absurd (cc e))
  | inl short ↦ rw (format_integer, short) (λ e. subst IsSized (some-injective _ _ e) sized)
]
  where
    sized : IsSized (if leb max_numeric_size l.free_space then append l (integer_text n) else l)
    sized =
        elim (leb max_numeric_size l.free_space)
          as (λ b. IsSized (if b then append l (integer_text n) else l)) [
            | true ↦ append-IsSized l (integer_text n) h
            | false ↦ h
          ]

log_item-IsSized :
    (i : LogItem) (l m : Log) → IsShort i → IsSized l → log_item i l ≡ some m → IsSized m
unfolding log_item put_flag put_text
log_item-IsSized (flag b) l m s h e =
    subst IsSized (some-injective _ _ e) (put_char-IsSized l (if b then b'1' else b'0') h)
log_item-IsSized (char c) l m s h e = subst IsSized (some-injective _ _ e) (put_char-IsSized l c h)
log_item-IsSized (number n) l m s h e = format_integer-IsSized l m n h e
log_item-IsSized (text t) l m s h e = subst IsSized (some-injective _ _ e) (copy_in-IsSized l t h)
log_item-IsSized null_text l m s h e = put_null-IsSized l m h e
log_item-IsSized (printed t) l m s h e =
    subst IsSized (some-injective _ _ e) (put_printed-IsSized l t s h)

-- The bytes in the buffer and the room that is left make up the buffer's size after any operators that
-- go through, if what snprintf prints is shorter than its limit.
pub log_items-IsSized :
    (is : List LogItem) (l m : Log)
    → All IsShort is
    → IsSized l
    → log_items is l ≡ some m
    → IsSized m
unfolding log_items
log_items-IsSized [] l m s h e = subst IsSized (some-injective _ _ e) h
log_items-IsSized (i ∷ is) l m s h e = elim (Option-cases (log_item i l)) [
  | inl fault ↦ absurd (cc (sym (ap (λ r. r >>= λ w. log_items is w) fault) ∙ e))
  | inr (w, at) ↦
      log_items-IsSized is w m s.1 (log_item-IsSized i l w s.0 h at)
        (sym (ap (λ r. r >>= λ w. log_items is w) at) ∙ e)
]

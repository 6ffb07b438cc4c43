-- ===== src/Config/Numbers.antt =====
-- Numbers in the text of _include/hao_config.h: ParserNum of app/hao_config.cpp reads back what
-- operator<< writes.
use hao_server.Base.{
  ℕ, suc, ◌^◌, ◌<◌, ◌≡◌, refl, ap, ◌∙◌, Bool, true, false, ◌||◌, List, [], ◌∷◌, ◌++◌, Option, some,
  arith, ◌==◌, All, length, append-nil,
}
use hao_server.Base.Int.{ℤ, pos, negsuc}
use hao_server.Base.Decimal.{
  is_digit, decimal, Digits, decimal-Digits, length-decimal_pos, value_of, value_of-decimal,
}
use hao_server.Config.{int, show_int}
use hao_server.Config.Outcome.{ok}
use hao_server.Config.Parser.{
  span, one_of, stoi, stoi_digits, in_range, num_byte, parser_num, parser_val,
}
use hao_server.Config.Printable.{InRange, Stops}

-- A span takes all bytes that pass the test, up to one that fails it.
pub span-All :
    (test : ℕ → Bool) (s : List ℕ) (c : ℕ) (rest : List ℕ)
    → All (λ d. test d ≡ true) s
    → test c ≡ false
    → span test (s ++ c ∷ rest) ≡ (s, c ∷ rest)
unfolding span
span-All test [] c rest h e = rw e
span-All test (x ∷ s) c rest h e = rw (h.0, span-All test s c rest h.1 e)

span-All_end : (test : ℕ → Bool) (s : List ℕ) → All (λ d. test d ≡ true) s → span test s ≡ (s, [])
unfolding span
span-All_end test [] h = refl
span-All_end test (x ∷ s) h = rw (h.0, span-All_end test s h.1)

num_bytes : (ds : List ℕ) → Digits ds → All (λ d. num_byte d ≡ true) ds
num_bytes [] h = tt
num_bytes (d ∷ ds) h = (rw h.0, num_bytes ds h.1)

without_exponent : (ds : List ℕ) (c : ℕ) → Digits ds → is_digit c ≡ false → one_of ds c ≡ false
unfolding one_of
without_exponent [] c h e = refl
without_exponent (d ∷ ds) c h e = ground (arith, without_exponent ds c h.1 e)

span_num :
    (s rest : List ℕ)
    → All (λ d. num_byte d ≡ true) s
    → Stops rest
    → span num_byte (s ++ rest) ≡ (s, rest)
span_num s [] h stop = rw (append-nil s) (span-All_end num_byte s h)
span_num s (c ∷ rest) h stop = span-All num_byte s c rest h stop

-- The digits of a number and what stops it
span_behind : (ds : List ℕ) → Digits ds → span is_digit ds ≡ (ds, [])
span_behind ds h = span-All_end is_digit ds h

stoi_digits_some :
    (negative : Bool) (ds : List ℕ)
    → 0 < length ds
    → stoi_digits negative ds ≡ in_range negative (value_of 0 ds)
unfolding stoi_digits
stoi_digits_some negative [] h = absurd (omega arith)
stoi_digits_some negative (d ∷ ds) h = refl

stoi_digits-decimal :
    (negative : Bool) (n : ℕ) → stoi_digits negative (decimal n) ≡ in_range negative n
stoi_digits-decimal negative n =
    stoi_digits_some negative (decimal n) (length-decimal_pos n)
    ∙ ap (in_range negative) (value_of-decimal n)

-- A digit is no sign.
unsigned : (d : ℕ) → is_digit d ≡ true → ((d == b'-') ≡ false) × ((d == b'+') ≡ false)
unsigned d h = (ground (arith, h), ground (arith, h))

stoi_unsigned : (ds : List ℕ) → Digits ds → 0 < length ds → stoi ds ≡ stoi_digits false ds
unfolding stoi
stoi_unsigned [] h some_digits = absurd (omega arith)
stoi_unsigned (d ∷ ds) h some_digits =
    let (a, b) = unsigned d h.0 in
    rw (a, b) (ap (λ r. stoi_digits false (r.0)) (span_behind (d ∷ ds) h))

stoi-decimal : (n : ℕ) → n < 2 ^ 31 → stoi (decimal n) ≡ some (pos n)
unfolding in_range
stoi-decimal n h =
    stoi_unsigned (decimal n) (decimal-Digits n) (length-decimal_pos n)
    ∙ stoi_digits-decimal false n
    ∙ ground arith

stoi-negative : (n : ℕ) → n < 2 ^ 31 → stoi (b'-' ∷ decimal (suc n)) ≡ some (negsuc n)
unfolding stoi in_range
stoi-negative n h =
    ap (λ r. stoi_digits true (r.0)) (span_behind (decimal (suc n)) (decimal-Digits (suc n)))
    ∙ stoi_digits-decimal true (suc n)
    ∙ ground arith

-- What `show_int` writes is a number for ParserNum, and for nothing else.
pub record IsNumber (s : List ℕ) : Type 0 where
  pub bytes : All (λ d. num_byte d ≡ true) s
  pub no_point : one_of s b'.' ≡ false
  pub no_exponent : one_of s b'e' ≡ false

decimal-IsNumber : (n : ℕ) → IsNumber (decimal n)
decimal-IsNumber n = record {
  bytes = num_bytes (decimal n) (decimal-Digits n);
  no_point = without_exponent (decimal n) b'.' (decimal-Digits n) refl;
  no_exponent = without_exponent (decimal n) b'e' (decimal-Digits n) refl;
}

show_int-IsNumber : (n : ℤ) → IsNumber (show_int n)
unfolding show_int one_of
show_int-IsNumber (pos n) = decimal-IsNumber n
show_int-IsNumber (negsuc n) =
    let v = decimal-IsNumber (suc n) in
    record { bytes = (refl, v.bytes); no_point = v.no_point; no_exponent = v.no_exponent }

stoi-show_int : (n : ℤ) → InRange n → stoi (show_int n) ≡ some n
unfolding show_int
stoi-show_int (pos n) h = stoi-decimal n h
stoi-show_int (negsuc n) h = stoi-negative n h

-- ParserNum reads a number back, up to what is no byte of a number.
pub parser_num-show_int :
    (stof : List ℕ → Option ℕ) (n : ℤ) (rest : List ℕ)
    → InRange n
    → Stops rest
    → parser_num stof (show_int n ++ rest) ≡ ok (int n, rest)
unfolding parser_num
parser_num-show_int stof n rest h stop =
    let v = show_int-IsNumber n in
    rw (span_num (show_int n) rest v.bytes stop, v.no_point, v.no_exponent, stoi-show_int n h) refl

-- A text for a number starts with a digit or a sign, which ParserVal takes for a number.
abbrev pub starts_number : ℕ → Bool
starts_number c = is_digit c || c == b'-'

pub show_int-starts :
    (n : ℤ) → (c : ℕ) × (cs : List ℕ) × (show_int n ≡ c ∷ cs) × (starts_number c ≡ true)
unfolding show_int
show_int-starts (pos n) = first_digit (decimal n) (decimal-Digits n) (length-decimal_pos n)
  where
    first_digit :
        (ds : List ℕ)
        → Digits ds
        → 0 < length ds
        → (c : ℕ) × (cs : List ℕ) × (ds ≡ c ∷ cs) × (starts_number c ≡ true)
    first_digit [] h p = absurd (omega arith)
    first_digit (d ∷ ds) h p = (d, ds, refl, rw h.0)
show_int-starts (negsuc n) = (b'-', decimal (suc n), refl, refl)

pub parser_val-number :
    (stof : List ℕ → Option ℕ) (f c : ℕ) (cs : List ℕ)
    → starts_number c ≡ true
    → parser_val stof (suc f) (c ∷ cs) ≡ parser_num stof (c ∷ cs)
unfolding parser_val
parser_val-number stof f c cs h = ground (arith, h)

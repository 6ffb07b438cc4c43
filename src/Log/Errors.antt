-- ===== src/Log/Errors.antt =====
-- Numbers that Log of app/log/hao_log.cpp does not write as they are.
use hao_server.Base.{
  ℕ, suc, ◌+◌, ◌-◌, ◌%◌, ◌^◌, ◌≤◌, ◌<◌, ◌≡◌, ◌≢◌, refl, ap, ◌∙◌, false, [], ◌∷◌, none, arith, ltb,
  leb, Bool-cases, inl, inr, length,
}
use hao_server.Base.Int.{pos, negsuc}
use hao_server.Base.Decimal.{decimal, decimal-digit, length-decimal_least}
use hao_server.Log.{Log, format_integer, integer_text, number_size}
use hao_server.Log.Digits.{format_decimal_lem}

-- No negative number is written as its sign and its digits.
pub negative_text : (k : ℕ) → integer_text (negsuc k) ≢ b'-' ∷ decimal (suc k)
unfolding integer_text
negative_text k same =
    let tail : (303 - k % 2 ^ 8) % 2 ^ 8 ∷ [] ≡ decimal (suc k) = cc same in
    elim (Bool-cases (ltb (suc k) 10)) [
      | inl one ↦
          let few : suc k < 10 = ground (arith, one) in
          let byte : (303 - k % 2 ^ 8) % 2 ^ 8 ≡ 48 + suc k =
            cc (tail ∙ decimal-digit (suc k) few) in
          absurd (omega (arith, byte, few))
      | inr more ↦
          let long : 10 ≤ suc k = ground (arith, more) in
          absurd (omega (arith, ap length tail, length-decimal_least 1 (suc k) long))
    ]

-- A number of 64 bits with 20 digits makes FormatInteger write in front of its array.
pub long_number : (l : Log) (n : ℕ) → 10 ^ 19 ≤ n → n < 2 ^ 64 → format_integer l (pos n) ≡ none
unfolding format_integer integer_text
long_number l n high low =
    let text : integer_text (pos n) ≡ decimal n = format_decimal_lem n low in
    let digits : 19 < length (decimal n) = length-decimal_least 19 n (omega (arith, high)) in
    let out : leb (length (decimal n)) number_size ≡ false = ground (arith, digits) in
    rw (text, out) refl

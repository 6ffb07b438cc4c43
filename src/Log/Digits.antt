-- ===== src/Log/Digits.antt =====
-- The digits that format_decimal of app/log/hao_log.cpp makes.
use hao_server.Base.{
  ℕ, zero, suc, ◌+◌, ◌*◌, ◌/◌, ◌%◌, ◌^◌, ◌≤◌, ◌<◌, ◌≡◌, refl, sym, ap, ◌∙◌, Bool, true, false, ◌&&◌,
  List, [], ◌∷◌, ◌++◌, arith, ltb, leb, ◌==◌, Bool-cases, inl, inr, append_assoc, append-nil,
  eq_cases,
}
use hao_server.Base.Decimal.{decimal, decimal-digit, decimal-last}
use hao_server.Log.{digits2, digit_pairs, format_decimal}

pub both : (a b : Bool) → (a && b) ≡ true → (a ≡ true) × (b ≡ true)
both true b h = (refl, h)
both false b h = absurd (cc h)

-- The table of pairs, entry for entry
unfoldable pub same_bytes : List ℕ → List ℕ → Bool
same_bytes [] [] = true
same_bytes [] (y ∷ ys) = false
same_bytes (x ∷ xs) [] = false
same_bytes (x ∷ xs) (y ∷ ys) = x == y && same_bytes xs ys

pub same_bytes-eq : (xs ys : List ℕ) → same_bytes xs ys ≡ true → xs ≡ ys
unfolding same_bytes
same_bytes-eq [] [] h = refl
same_bytes-eq [] (y ∷ ys) h = absurd (cc h)
same_bytes-eq (x ∷ xs) [] h = absurd (cc h)
same_bytes-eq (x ∷ xs) (y ∷ ys) h =
    let (a, b) = both (x == y) (same_bytes xs ys) h in
    let e : x ≡ y = ground (arith, a) in cc (e, same_bytes-eq xs ys b)

pairs_below : ℕ → Bool
pairs_below zero = true
pairs_below (suc n) = pairs_below n && same_bytes (digits2 n) ((48 + n / 10) ∷ (48 + n % 10) ∷ [])

pairs_below-at :
    (k n : ℕ) → pairs_below k ≡ true → n < k → digits2 n ≡ (48 + n / 10) ∷ (48 + n % 10) ∷ []
unfolding pairs_below
pairs_below-at zero n h lt = absurd (omega (arith, lt))
pairs_below-at (suc k) n h lt =
    let (a, b) =
      both (pairs_below k) (same_bytes (digits2 k) ((48 + k / 10) ∷ (48 + k % 10) ∷ [])) h in
    elim (eq_cases n k) [
      | inl is ↦ rw is (same_bytes-eq _ _ b)
      | inr other ↦ pairs_below-at k n a (omega (arith, lt, other))
    ]

all_pairs : pairs_below 100 ≡ true
unfolding pairs_below same_bytes digits2 digit_pairs
all_pairs = refl

pub digits2_lem : (n : ℕ) → n < 100 → digits2 n ≡ (48 + n / 10) ∷ (48 + n % 10) ∷ []
digits2_lem n h = pairs_below-at 100 n all_pairs h

two_digits : (n : ℕ) → 10 ≤ n → n < 100 → decimal n ≡ digits2 n
two_digits n low high =
    decimal-last n low ∙ rw (decimal-digit (n / 10) (omega (arith, high)), digits2_lem n high) refl

two_more : (n : ℕ) → 100 ≤ n → decimal n ≡ decimal (n / 100) ++ digits2 (n % 100)
two_more n long =
    let front : n / 10 / 10 ≡ n / 100 = omega arith in
    let tens : n / 10 % 10 ≡ n % 100 / 10 = omega arith in
    let ones : n % 10 ≡ n % 100 % 10 = omega arith in
    decimal-last n (omega (arith, long))
    ∙ rw
        (
          decimal-last (n / 10) (omega (arith, long)),
          digits2_lem (n % 100) (omega arith),
          append_assoc (decimal (n / 10 / 10)) ((48 + n / 10 % 10) ∷ []) ((48 + n % 10) ∷ []),
        )
        (rw (front, tens, ones) refl)

-- The fuel is more than the number of rounds, each of which takes two digits.
abbrev hundred_power : ℕ → ℕ
hundred_power zero = 1
hundred_power (suc f) = 100 * hundred_power f

round_left : (f n : ℕ) → n < hundred_power (suc f) → 100 ≤ n → 0 < f
round_left zero n h long = absurd (omega (arith, h, long))
round_left (suc f) n h long = omega arith

format_decimal-front :
    (f n : ℕ) (out : List ℕ)
    → 0 < f
    → n < hundred_power f
    → format_decimal f n out ≡ decimal n ++ out
unfolding format_decimal
format_decimal-front zero n out pos h = absurd (omega (arith, pos))
format_decimal-front (suc f) n out pos h = elim (Bool-cases (leb 100 n)) [
  | inl long ↦ rw long (
      format_decimal-front f (n / 100) (digits2 (n % 100) ++ out)
        (round_left f n h (ground (arith, long))) (omega (arith, h))
      ∙ sym (append_assoc (decimal (n / 100)) (digits2 (n % 100)) out)
      ∙ ap (λ l. l ++ out) (sym (two_more n (ground (arith, long)))))
  | inr short ↦ rw short (elim (Bool-cases (ltb n 10)) [
    | inl one ↦ rw (one, decimal-digit n (ground (arith, one))) refl
    | inr two ↦ rw (two, two_digits n (ground (arith, two)) (ground (arith, short))) refl
  ])
]

-- A number of 64 bits: the pairs of digits are its decimal digits.
pub format_decimal_lem : (n : ℕ) → n < 2 ^ 64 → format_decimal 20 n [] ≡ decimal n
format_decimal_lem n h =
    format_decimal-front 20 n [] (omega arith) (omega (arith, h)) ∙ append-nil (decimal n)

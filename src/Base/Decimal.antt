-- ===== src/Base/Decimal.antt =====
-- Numbers in decimal, as bytes.
use hao_server.Base.{
  ℕ, zero, suc, ◌+◌, ◌-◌, ◌*◌, ◌/◌, ◌%◌, ◌≤◌, ◌<◌, ◌≡◌, refl, ap, Bool, true, false, ◌&&◌, List, [],
  ◌∷◌, ◌++◌, arith, ltb, leb, if◌then◌else◌, Bool-cases, inl, inr, All, All-append, length,
  length-append,
}

abbrev pub is_digit : ℕ → Bool
is_digit c = leb 48 c && leb c 57

-- The last `f` digits of a number at most, without zeros in front.
unfoldable pub decimal_up_to : ℕ → ℕ → List ℕ
decimal_up_to zero n = []
decimal_up_to (suc f) n =
    let front = decimal_up_to f (n / 10) in
    if ltb n 10 then (48 + n) ∷ [] else front ++ (48 + n % 10) ∷ []

-- A number has fewer digits than its successor counts.
unfoldable pub decimal : ℕ → List ℕ
decimal n = decimal_up_to (suc n) n

-- The value of digits, behind those whose value is `high`
unfoldable pub value_of : ℕ → List ℕ → ℕ
value_of high [] = high
value_of high (d ∷ ds) = value_of (high * 10 + (d - 48)) ds

value_of-append :
    (high d : ℕ) (ds : List ℕ) → value_of high (ds ++ d ∷ []) ≡ value_of high ds * 10 + (d - 48)
unfolding value_of
value_of-append high d [] = refl
value_of-append high d (x ∷ ds) = value_of-append (high * 10 + (x - 48)) d ds

value_of-decimal_up_to : (f n : ℕ) → n < f → value_of 0 (decimal_up_to f n) ≡ n
unfolding decimal_up_to value_of
value_of-decimal_up_to zero n h = absurd (omega arith)
value_of-decimal_up_to (suc f) n h = elim (Bool-cases (ltb n 10)) [
  | inl e ↦ rw e (omega arith)
  | inr e ↦ rw e (
      let long : 10 ≤ n = ground (arith, e) in
      omega (
        arith,
        value_of-append 0 (48 + n % 10) (decimal_up_to f (n / 10)),
        value_of-decimal_up_to f (n / 10) (omega (arith, h, long)),
      ))
]

pub value_of-decimal : (n : ℕ) → value_of 0 (decimal n) ≡ n
unfolding decimal
value_of-decimal n = value_of-decimal_up_to (suc n) n (omega arith)

abbrev pub Digits : List ℕ → Type 0
Digits ds = All (λ d. is_digit d ≡ true) ds

decimal_up_to-Digits : (f n : ℕ) → Digits (decimal_up_to f n)
unfolding decimal_up_to
decimal_up_to-Digits zero n = tt
decimal_up_to-Digits (suc f) n = elim (Bool-cases (ltb n 10)) [
  | inl e ↦ rw e (ground (arith, e), tt)
  | inr e ↦ rw e (
      (All-append (λ d. is_digit d ≡ true) (decimal_up_to f (n / 10)) _).0
        (decimal_up_to-Digits f (n / 10), (ground arith, tt)))
]

pub decimal-Digits : (n : ℕ) → Digits (decimal n)
unfolding decimal
decimal-Digits n = decimal_up_to-Digits (suc n) n

-- There is a digit.
pub length-decimal_pos : (n : ℕ) → 0 < length (decimal n)
unfolding decimal decimal_up_to
length-decimal_pos n = ground (arith, length-append (decimal_up_to n (n / 10)) ((48 + n % 10) ∷ []))

decimal_up_to-enough : (f g n : ℕ) → n < f → n < g → decimal_up_to f n ≡ decimal_up_to g n
unfolding decimal_up_to
decimal_up_to-enough zero g n h k = absurd (omega (arith, h))
decimal_up_to-enough (suc f) zero n h k = absurd (omega (arith, k))
decimal_up_to-enough (suc f) (suc g) n h k = elim (Bool-cases (ltb n 10)) [
  | inl e ↦ rw e refl
  | inr e ↦
      let long : 10 ≤ n = ground (arith, e) in
      rw e (
        ap (λ front. front ++ (48 + n % 10) ∷ [])
          (decimal_up_to-enough f g (n / 10) (omega (arith, h, long)) (omega (arith, k, long))))
]

pub decimal-digit : (n : ℕ) → n < 10 → decimal n ≡ (48 + n) ∷ []
unfolding decimal decimal_up_to
decimal-digit n h = let e : ltb n 10 ≡ true = ground (arith, h) in rw e refl

-- The last digit of a longer number
pub decimal-last : (n : ℕ) → 10 ≤ n → decimal n ≡ decimal (n / 10) ++ (48 + n % 10) ∷ []
unfolding decimal decimal_up_to
decimal-last n h =
    let e : ltb n 10 ≡ false = ground (arith, h) in
    rw e (
      ap (λ front. front ++ (48 + n % 10) ∷ [])
        (decimal_up_to-enough n (suc (n / 10)) (n / 10) (omega (arith, h)) (omega arith)))

abbrev pub ten_power : ℕ → ℕ
ten_power zero = 1
ten_power (suc k) = 10 * ten_power k

pub length-decimal : (k n : ℕ) → n < ten_power (suc k) → length (decimal n) ≤ suc k
length-decimal zero n h = rw (decimal-digit n (omega (arith, h))) (omega arith)
length-decimal (suc k) n h = elim (Bool-cases (ltb n 10)) [
  | inl e ↦ rw (decimal-digit n (ground (arith, e))) (omega arith)
  | inr e ↦ rw (decimal-last n (ground (arith, e))) (
      omega (
        arith,
        length-append (decimal (n / 10)) ((48 + n % 10) ∷ []),
        length-decimal k (n / 10) (omega (arith, h)),
      ))
]

pub length-decimal_least : (k n : ℕ) → ten_power k ≤ n → k < length (decimal n)
length-decimal_least zero n h = length-decimal_pos n
length-decimal_least (suc k) n h = elim (Bool-cases (ltb n 10)) [
  | inl e ↦ absurd (no_more k (omega (arith, h)) (ground (arith, e)))
  | inr e ↦ rw (decimal-last n (ground (arith, e))) (
      omega (
        arith,
        length-append (decimal (n / 10)) ((48 + n % 10) ∷ []),
        length-decimal_least k (n / 10) (omega (arith, h)),
      ))
]
  where
    no_more : (k : ℕ) → 10 * ten_power k ≤ n → n < 10 → ⊥
    no_more zero h small = omega (arith, h, small)
    no_more (suc k) h small = no_more k (omega (arith, h)) small

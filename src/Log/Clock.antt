-- ===== src/Log/Clock.antt =====
-- format_time of app/log/hao_log.cpp: three numbers of digit_pair digits at once, in the bytes of a uint64_t.
use hao_server.Base.{
  ℕ, zero, suc, ◌+◌, ◌/◌, ◌%◌, ◌<◌, ◌≡◌, refl, ap, ◌∙◌, Bool, true, ◌&&◌, List, [], ◌∷◌, ◌++◌,
  arith, eq_cases, inl, inr,
}
use hao_server.Log.{format_time, BrokenTime, stamp}
use hao_server.Log.Digits.{digits2_lem, same_bytes, same_bytes-eq, both}

all_below : ℕ → (ℕ → Bool) → Bool
all_below zero test = true
all_below (suc n) test = all_below n test && test n

-- Two decimal digits
abbrev pub digit_pair : ℕ → List ℕ
digit_pair n = (48 + n / 10) ∷ (48 + n % 10) ∷ []

right_at : ℕ → ℕ → ℕ → ℕ → Bool
right_at sep a b c =
    same_bytes (format_time a b c sep)
      (digit_pair a ++ (sep ∷ (digit_pair b ++ (sep ∷ digit_pair c))))

dates_right : all_below 100 (λ a. all_below 13 (λ b. all_below 32 (right_at b'-' a b))) ≡ true
unfolding all_below right_at same_bytes format_time
dates_right = refl

times_right : all_below 24 (λ a. all_below 60 (λ b. all_below 61 (right_at b':' a b))) ≡ true
unfolding all_below right_at same_bytes format_time
times_right = refl

all_below-at : (n k : ℕ) (test : ℕ → Bool) → all_below n test ≡ true → k < n → test k ≡ true
unfolding all_below
all_below-at zero k test h lt = absurd (omega (arith, lt))
all_below-at (suc n) k test h lt =
    let (front, last) = both (all_below n test) (test n) h in
    elim (eq_cases k n) [
      | inl is ↦ ap test is ∙ last
      | inr other ↦ all_below-at n k test front (omega (arith, lt, other))
    ]

three_below :
    (sep n m k a b c : ℕ)
    → all_below n (λ a. all_below m (λ b. all_below k (right_at sep a b))) ≡ true
    → a < n
    → b < m
    → c < k
    → format_time a b c sep ≡ digit_pair a ++ (sep ∷ (digit_pair b ++ (sep ∷ digit_pair c)))
unfolding right_at
three_below sep n m k a b c all ha hb hc = same_bytes-eq _ _ (
    all_below-at k c (right_at sep a b)
      (all_below-at m b (λ b. all_below k (right_at sep a b))
        (all_below-at n a (λ a. all_below m (λ b. all_below k (right_at sep a b))) all ha) hb)
      hc)

pub date_lem :
    (a b c : ℕ)
    → a < 100
    → b < 13
    → c < 32
    → format_time a b c b'-' ≡ digit_pair a ++ (b'-' ∷ (digit_pair b ++ (b'-' ∷ digit_pair c)))
date_lem a b c = three_below b'-' 100 13 32 a b c dates_right

pub clock_lem :
    (a b c : ℕ)
    → a < 24
    → b < 60
    → c < 61
    → format_time a b c b':' ≡ digit_pair a ++ (b':' ∷ (digit_pair b ++ (b':' ∷ digit_pair c)))
clock_lem a b c = three_below b':' 24 60 61 a b c times_right

-- A time of day in a year before 10000
abbrev pub IsTime : BrokenTime → Type 0
IsTime t =
    (t.tm_year < 8100)
    × (t.tm_mon < 12)
    × (t.tm_mday < 32)
    × (t.tm_hour < 24)
    × (t.tm_min < 60)
    × (t.tm_sec < 61)

-- Year, month, day, hour, minute, second and microseconds in decimal
abbrev pub time_text : BrokenTime → List ℕ
time_text t =
    digit_pair ((1900 + t.tm_year) / 100)
    ++ (digit_pair ((1900 + t.tm_year) % 100)
        ++ (b'-'
            ∷ (digit_pair (t.tm_mon + 1)
                ++ (b'-'
                    ∷ (digit_pair t.tm_mday
                        ++ (b' '
                            ∷ (digit_pair t.tm_hour
                                ++ (b':'
                                    ∷ (digit_pair t.tm_min
                                        ++ (b':'
                                            ∷ (digit_pair t.tm_sec
                                                ++ (b'.'
                                                    ∷ (digit_pair (t.usec / 10000 % 100)
                                                        ++ (digit_pair (t.usec / 100 % 100)
                                                            ++ (digit_pair (t.usec % 100)
                                                            ++ b' ' ∷ [])))))))))))))))

pub stamp_lem : (t : BrokenTime) → IsTime t → stamp t ≡ time_text t
unfolding stamp
stamp_lem t (year, month, day, hour, minute, second) =
    let low : t.tm_year % 100 ≡ (1900 + t.tm_year) % 100 = omega arith in
    rw
      (
        low,
        date_lem ((1900 + t.tm_year) % 100) (t.tm_mon + 1) t.tm_mday (omega arith)
            (omega (arith, month)) day,
        clock_lem t.tm_hour t.tm_min t.tm_sec hour minute second,
        digits2_lem ((1900 + t.tm_year) / 100) (omega (arith, year)),
        digits2_lem (t.usec / 10000 % 100) (omega arith),
        digits2_lem (t.usec / 100 % 100) (omega arith),
        digits2_lem (t.usec % 100) (omega arith),
      )
      refl

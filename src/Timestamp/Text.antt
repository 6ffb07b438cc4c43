-- ===== src/Timestamp/Text.antt =====
-- Timestamp::ToFormattedString of app/util/hao_timestamp.cpp, whose digits2 and format_time are those of
-- app/log/hao_log.cpp. localtime_r is an argument; a time before the epoch, whose microseconds would be
-- negative, gives `none`.
use hao_server.Base.{
  ℕ, ◌+◌, ◌/◌, ◌%◌, ◌≡◌, refl, Bool, true, List, ◌∷◌, ◌++◌, Option, none, some, if◌then◌else◌,
  arith,
}
use hao_server.Base.Int.{pos, negsuc}
use hao_server.Timestamp.{Timestamp}
use hao_server.Log.{BrokenTime, digits2, format_time}
use hao_server.Log.Digits.{digits2_lem}
use hao_server.Log.Clock.{IsTime, digit_pair, date_lem, clock_lem}

unfoldable pub formatted_date : BrokenTime → List ℕ
formatted_date t =
    digits2 ((1900 + t.tm_year) / 100)
    ++ (format_time (t.tm_year % 100) (t.tm_mon + 1) t.tm_mday b'-'
        ++ (b' ' ∷ format_time t.tm_hour t.tm_min t.tm_sec b':'))

unfoldable pub formatted_usec : ℕ → List ℕ
formatted_usec usec =
    b'.' ∷ (digits2 (usec / 10000 % 100) ++ (digits2 (usec / 100 % 100) ++ digits2 (usec % 100)))

unfoldable pub to_formatted_string : (ℕ → BrokenTime) → Bool → Timestamp → Option (List ℕ)
to_formatted_string localtime show_microseconds a = elim a.micro_seconds_since_epoch [
  | negsuc n ↦ none
  | pos n ↦ some (
      if show_microseconds
      then formatted_date (localtime (n / 1000000)) ++ formatted_usec (n % 1000000)
      else formatted_date (localtime (n / 1000000)))
]

-- The date and the time of day in decimal
abbrev date_text : BrokenTime → List ℕ
date_text t =
    digit_pair ((1900 + t.tm_year) / 100)
    ++ (digit_pair ((1900 + t.tm_year) % 100)
        ++ (b'-'
            ∷ (digit_pair (t.tm_mon + 1)
                ++ (b'-'
                    ∷ (digit_pair t.tm_mday
                        ++ (b' '
                            ∷ (digit_pair t.tm_hour
                                ++ (b':'
                                    ∷ (digit_pair t.tm_min ++ (b':' ∷ digit_pair t.tm_sec))))))))))

formatted_date_lem : (t : BrokenTime) → IsTime t → formatted_date t ≡ date_text t
unfolding formatted_date
formatted_date_lem t (year, month, day, hour, minute, second) =
    let low : t.tm_year % 100 ≡ (1900 + t.tm_year) % 100 = omega arith in
    rw
      (
        low,
        date_lem ((1900 + t.tm_year) % 100) (t.tm_mon + 1) t.tm_mday (omega arith)
            (omega (arith, month)) day,
        clock_lem t.tm_hour t.tm_min t.tm_sec hour minute second,
        digits2_lem ((1900 + t.tm_year) / 100) (omega (arith, year)),
      )
      refl

formatted_usec_lem :
    (usec : ℕ)
    → formatted_usec usec
      ≡ b'.'
        ∷ (digit_pair (usec / 10000 % 100)
            ++ (digit_pair (usec / 100 % 100) ++ digit_pair (usec % 100)))
unfolding formatted_usec
formatted_usec_lem usec =
    rw
      (
        digits2_lem (usec / 10000 % 100) (omega arith),
        digits2_lem (usec / 100 % 100) (omega arith),
        digits2_lem (usec % 100) (omega arith),
      )
      refl

-- At a time of day in a year before 10000, the text is the date, the time and the microseconds in decimal.
pub to_formatted_string_lem :
    (localtime : ℕ → BrokenTime) (n : ℕ)
    → IsTime (localtime (n / 1000000))
    → let usec = n % 1000000 in
      to_formatted_string localtime true (record { micro_seconds_since_epoch = pos n })
      ≡ some (
          date_text (localtime (n / 1000000))
          ++ b'.'
            ∷ (digit_pair (usec / 10000 % 100)
                ++ (digit_pair (usec / 100 % 100) ++ digit_pair (usec % 100))))
unfolding to_formatted_string
to_formatted_string_lem localtime n valid =
    rw (formatted_date_lem (localtime (n / 1000000)) valid, formatted_usec_lem (n % 1000000)) refl

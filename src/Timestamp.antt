-- ===== src/Timestamp.antt =====
-- _include/hao_timestamp.h and app/util/hao_timestamp.cpp: points in time, in microseconds. The
-- 64-bit count is a mathematical integer here: its overflow is undefined in the source.
pub mod Text
pub mod Plain
use hao_server.Base.{ℕ, ◌+◌, ◌*◌, ◌/◌, Bool, not, ◌==◌, ◌&&◌}
use hao_server.Base.Int.{ℤ, pos, negsuc, ◌+ℤ◌, ◌-ℤ◌, ltb_ℤ, pos_part, neg_part}

pub record Timestamp : Type 0 where
  pub micro_seconds_since_epoch : ℤ

-- `Timestamp::InvalidTime`, as the implicit conversion makes it a time.
abbrev pub invalid_time : Timestamp
invalid_time = record { micro_seconds_since_epoch = negsuc 0 }

-- The sum of a time and a duration, given in microseconds.
abbrev pub add_microseconds : Timestamp → ℕ → Timestamp
add_microseconds a n = record { micro_seconds_since_epoch = a.micro_seconds_since_epoch +ℤ pos n }

abbrev pub add_milliseconds : Timestamp → ℕ → Timestamp
add_milliseconds a n = add_microseconds a (n * 1000)

abbrev pub add_seconds : Timestamp → ℕ → Timestamp
add_seconds a n = add_microseconds a (n * 1000000)

abbrev pub add_minutes : Timestamp → ℕ → Timestamp
add_minutes a n = add_microseconds a (n * 60000000)

abbrev pub add_hours : Timestamp → ℕ → Timestamp
add_hours a n = add_microseconds a (n * 3600000000)

-- operator+=, which changes its first argument
abbrev pub add_time : Timestamp → Timestamp → Timestamp
add_time a b = record {
  micro_seconds_since_epoch = a.micro_seconds_since_epoch +ℤ b.micro_seconds_since_epoch;
}

-- Timestamp::now, of what gettimeofday gives
abbrev pub now_from : ℕ → ℕ → Timestamp
now_from sec usec = record { micro_seconds_since_epoch = pos (sec * 1000000 + usec) }

abbrev pub minus : Timestamp → Timestamp → Timestamp
minus a b = record {
  micro_seconds_since_epoch = a.micro_seconds_since_epoch -ℤ b.micro_seconds_since_epoch;
}

abbrev pub lt_time : Timestamp → Timestamp → Bool
lt_time a b = ltb_ℤ a.micro_seconds_since_epoch b.micro_seconds_since_epoch

abbrev pub gt_time : Timestamp → Timestamp → Bool
gt_time a b = lt_time b a

abbrev pub le_time : Timestamp → Timestamp → Bool
le_time a b = not (gt_time a b)

abbrev pub ge_time : Timestamp → Timestamp → Bool
ge_time a b = not (lt_time a b)

abbrev pub eq_time : Timestamp → Timestamp → Bool
eq_time a b =
    (pos_part a.micro_seconds_since_epoch == pos_part b.micro_seconds_since_epoch)
    && (neg_part a.micro_seconds_since_epoch == neg_part b.micro_seconds_since_epoch)

abbrev pub ne_time : Timestamp → Timestamp → Bool
ne_time a b = not (eq_time a b)

-- `a < b` for a count of milliseconds `b`.
abbrev pub lt_milliseconds : Timestamp → ℕ → Bool
lt_milliseconds a b = ltb_ℤ a.micro_seconds_since_epoch (pos (b * 1000))

-- Division truncates towards zero.
abbrev pub milliseconds : Timestamp → ℤ
milliseconds a = truncated a.micro_seconds_since_epoch
  where
    truncated : ℤ → ℤ
    truncated m = pos (pos_part m / 1000) -ℤ pos (neg_part m / 1000)

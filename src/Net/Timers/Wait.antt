-- ===== src/Net/Timers/Wait.antt =====
-- TimerHeartBeatCheck, app/net/hao_socket_timer.cpp: the time that it gives back.
use hao_server.Base.{
  ℕ, zero, suc, ◌+◌, ◌/◌, ◌^◌, ◌<◌, ◌≡◌, refl, sym, ap, ◌∙◌, true, false, arith, ◌==◌,
  if◌then◌else◌,
}
use hao_server.Base.Int.{
  ℤ, pos, negsuc, ◌+ℤ◌, ◌-ℤ◌, pos_part, neg_part, +ℤ_parts, -ℤ_parts, eq_of_parts,
}
use hao_server.Timestamp.{invalid_time, Timestamp, minus, milliseconds}
use hao_server.Timer.{Timer, earliest_time}
use hao_server.Timer.Order.{NoLater, due_of}
use hao_server.Timer.Added.{IsTimer}
use hao_server.Timer.Popped.{first_due}
use hao_server.Net.State.{MsgHeader}
use hao_server.Net.Timers.{to_int}

-- What a check gives back when it read `clock` and left the timers `t`
pub record WaitTime (t : Timer MsgHeader) (clock : Timestamp) (ms : ℤ) : Type 0 where
  -- A timer that is due first, in `d` microseconds: the whole milliseconds until then, as far as an
  -- int holds them
  pub ahead :
      (x d : ℕ)
      → t.live x ≡ true
      → ((y : ℕ) → t.live y ≡ true → NoLater (due_of t) x y)
      → (due_of t x).micro_seconds_since_epoch ≡ clock.micro_seconds_since_epoch +ℤ pos d
      → d / 1000 < 2 ^ 31
      → ms ≡ pos (d / 1000)
  -- The first timer was due `d` microseconds ago: as many whole milliseconds below 0
  pub passed :
      (x d : ℕ)
      → t.live x ≡ true
      → ((y : ℕ) → t.live y ≡ true → NoLater (due_of t) x y)
      → (due_of t x).micro_seconds_since_epoch +ℤ pos d ≡ clock.micro_seconds_since_epoch
      → d / 1000 < 2 ^ 31
      → ms ≡ pos 0 -ℤ pos (d / 1000)
  -- No timer: the milliseconds since the epoch, negative, as an int has them
  pub no_timer :
      (k : ℕ)
      → t.n ≡ 0
      → clock.micro_seconds_since_epoch ≡ pos k
      → ms ≡ to_int (pos 0 -ℤ pos ((k + 1) / 1000))

-- -n
abbrev negative : ℕ → ℤ
negative zero = pos 0
negative (suc k) = negsuc k

negative_lem : (n : ℕ) → pos 0 -ℤ pos n ≡ negative n
unfolding ◌-ℤ◌
negative_lem zero = refl
negative_lem (suc k) = ground arith

minus_zero : (n : ℕ) → pos n -ℤ pos 0 ≡ pos n
unfolding ◌-ℤ◌
minus_zero n = ground arith

abbrev at : ℤ → Timestamp
at z = record { micro_seconds_since_epoch = z }

milliseconds-negative : (d : ℕ) → milliseconds (at (negative d)) ≡ pos 0 -ℤ pos (d / 1000)
milliseconds-negative zero = refl
milliseconds-negative (suc k) = refl

milliseconds-ahead :
    (a b : ℤ) (d : ℕ) → a ≡ b +ℤ pos d → milliseconds (minus (at a) (at b)) ≡ pos (d / 1000)
milliseconds-ahead a b d e =
    let gap : a -ℤ b ≡ pos d =
      eq_of_parts _ _
        (omega (arith, -ℤ_parts a b, +ℤ_parts b (pos d), ap pos_part e, ap neg_part e)) in
    ap (λ z. milliseconds (at z)) gap ∙ minus_zero (d / 1000)

milliseconds-passed :
    (a b : ℤ) (d : ℕ)
    → a +ℤ pos d ≡ b
    → milliseconds (minus (at a) (at b)) ≡ pos 0 -ℤ pos (d / 1000)
milliseconds-passed a b d e =
    let gap : a -ℤ b ≡ pos 0 -ℤ pos d = eq_of_parts _ _ (
      omega (
        arith,
        -ℤ_parts a b,
        -ℤ_parts (pos 0) (pos d),
        +ℤ_parts a (pos d),
        ap pos_part e,
        ap neg_part e,
      )) in
    ap (λ z. milliseconds (at z)) (gap ∙ negative_lem d) ∙ milliseconds-negative d

to_int-pos : (n : ℕ) → n < 2 ^ 31 → to_int (pos n) ≡ pos n
to_int-pos n h = ground (arith, h)

to_int-negative : (n : ℕ) → n < 2 ^ 31 → to_int (negative n) ≡ negative n
to_int-negative zero h = refl
to_int-negative (suc k) h = ground (arith, h)

-- All timers are due no earlier than the first of the heap, which is the one that EarliestTime tells.
module _ (t : Timer MsgHeader) (v : IsTimer t) where
  told :
      (x : ℕ)
      → t.live x ≡ true
      → ((y : ℕ) → t.live y ≡ true → NoLater (due_of t) x y)
      → earliest_time t ≡ due_of t x
  told x lives before =
      let (i, lt, is) = (v.holds x).1 lives in
      let some_left : (t.n == 0) ≡ false = ground (arith, lt) in
      let pos : 0 < t.n = omega (arith, lt) in
      let root = (v.holds (t.p 0)).0 (0, pos, refl) in
      let same : (due_of t (t.p 0)).micro_seconds_since_epoch
          ≡ (due_of t x).micro_seconds_since_epoch =
        eq_of_parts _ _ (omega (arith, first_due t v x lives, before (t.p 0) root)) in
      ap (λ b. if b then invalid_time else due_of t (t.p 0)) some_left ∙ ap at same

  pub wait_time :
      (clock : Timestamp) → WaitTime t clock (to_int (milliseconds (minus (earliest_time t) clock)))
  wait_time clock = record {
    ahead = λ x d lives before e fits.
        ap (λ a. to_int (milliseconds (minus a clock))) (told x lives before)
        ∙ ap to_int (milliseconds-ahead _ clock.micro_seconds_since_epoch d e)
        ∙ to_int-pos (d / 1000) fits;
    passed = λ x d lives before e fits.
        ap (λ a. to_int (milliseconds (minus a clock))) (told x lives before)
        ∙ ap to_int
            (milliseconds-passed _ clock.micro_seconds_since_epoch d e ∙ negative_lem (d / 1000))
        ∙ to_int-negative (d / 1000) fits
        ∙ sym (negative_lem (d / 1000));
    no_timer = λ k none_left e.
        let empty : (t.n == 0) ≡ true = ground (arith, none_left) in
        ap (λ b. to_int (milliseconds (minus (if b then invalid_time else due_of t (t.p 0)) clock)))
          empty
        ∙ ap to_int (
            milliseconds-passed (negsuc 0) clock.micro_seconds_since_epoch (k + 1)
              (one_more k ∙ sym e));
  }
    where
      one_more : (k : ℕ) → negsuc 0 +ℤ pos (k + 1) ≡ pos k
      one_more k = eq_of_parts _ _ (omega (arith, +ℤ_parts (negsuc 0) (pos (k + 1))))

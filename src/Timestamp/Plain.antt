-- ===== src/Timestamp/Plain.antt =====
-- Timestamp::ToString of app/util/hao_timestamp.cpp: seconds and microseconds in decimal.
use hao_server.Base.{
  ℕ, zero, suc, ◌+◌, ◌-◌, ◌*◌, ◌/◌, ◌%◌, ◌^◌, ◌≤◌, ◌<◌, ◌≡◌, refl, Bool, true, false, ◌&&◌, not,
  List, ◌∷◌, ◌++◌, ◌==◌, if◌then◌else◌, take, length, replicate, take_all, length-append,
  length-replicate, arith,
}
use hao_server.Base.Int.{pos, negsuc}
use hao_server.Base.Decimal.{decimal, value_of, value_of-decimal, length-decimal}
use hao_server.Timestamp.{Timestamp}

-- A number of at least `w` digits, with zeros in front
abbrev pub padded : ℕ → ℕ → List ℕ
padded w m = replicate (w - length (decimal m)) b'0' ++ decimal m

-- PRId64 with this width, for a number of this sign
unfoldable pub shown_int : Bool → ℕ → ℕ → List ℕ
shown_int negative w m = if negative && not (m == 0) then b'-' ∷ padded (w - 1) m else padded w m

-- snprintf into a buffer of 32 bytes. The remainder of a negative number is negative.
unfoldable pub to_string : Timestamp → List ℕ
to_string a = elim a.micro_seconds_since_epoch [
  | pos n ↦ take 31 (shown_int false 0 (n / 1000000) ++ b'.' ∷ shown_int false 6 (n % 1000000))
  | negsuc n ↦
      take 31 (shown_int true 0 (suc n / 1000000) ++ b'.' ∷ shown_int true 6 (suc n % 1000000))
]

value_of-zeros : (k : ℕ) (ds : List ℕ) → value_of 0 (replicate k b'0' ++ ds) ≡ value_of 0 ds
unfolding value_of
value_of-zeros zero ds = refl
value_of-zeros (suc k) ds = value_of-zeros k ds

length-padded : (w m : ℕ) → length (decimal m) ≤ w → length (padded w m) ≡ w
length-padded w m h = omega (
  arith,
  h,
  length-append (replicate (w - length (decimal m)) b'0') (decimal m),
  length-replicate {A = ℕ} (w - length (decimal m)) b'0',
)

padded-none : (m : ℕ) → padded 0 m ≡ decimal m
padded-none m = let none_more : 0 - length (decimal m) ≡ 0 = omega arith in rw none_more refl

-- A time from the epoch on, in an int64_t, is shown whole: its seconds, a point, and six digits of
-- its microseconds, from which the time is read back.
pub to_string_lem :
    (n : ℕ)
    → n < 2 ^ 63
    → (micro : List ℕ) × (to_string (record { micro_seconds_since_epoch = pos n })
        ≡ decimal (n / 1000000) ++ b'.' ∷ micro)
      × (length micro ≡ 6)
      × (value_of 0 (decimal (n / 1000000)) * 1000000 + value_of 0 micro ≡ n)
unfolding to_string shown_int
to_string_lem n h =
    let front = decimal (n / 1000000) in
    let micro = padded 6 (n % 1000000) in
    let six : length micro ≡ 6 =
      length-padded 6 (n % 1000000) (length-decimal 5 (n % 1000000) (omega arith)) in
    let short : length front ≤ 13 = length-decimal 12 (n / 1000000) (omega (arith, h)) in
    let whole : take 31 (front ++ b'.' ∷ micro) ≡ front ++ b'.' ∷ micro =
      take_all 31 (front ++ b'.' ∷ micro)
        (omega (arith, length-append front (b'.' ∷ micro), six, short)) in
    (
      micro,
      rw (padded-none (n / 1000000)) whole,
      six,
      omega (
        arith,
        value_of-decimal (n / 1000000),
        value_of-zeros (6 - length (decimal (n % 1000000))) (decimal (n % 1000000)),
        value_of-decimal (n % 1000000),
      ),
    )

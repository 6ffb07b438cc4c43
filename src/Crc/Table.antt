-- ===== src/Crc/Table.antt =====
-- CRC_TABLE (app/util/hao_algorithm.cpp) against the polynomial that it stands for.
use Prim.Native.Nat.{bit_xor}
use hao_server.Base.{
  ℕ, zero, suc, ◌+◌, ap, ◌∙◌, length, ◌*◌, ◌%◌, ◌^◌, ◌<◌, ◌≡◌, refl, Bool, true, ◌&&◌, List, [],
  ◌∷◌, arith, leb, ◌==◌, if◌then◌else◌, get_or, ==_iff,
}
use hao_server.Crc.{crc_table, crc_round, crc_loop, get_crc}

-- A shift to the left, with the polynomial of CRC-32 taken off when a bit falls out.
pub shift_bit : ℕ → ℕ
shift_bit crc = if leb (2 ^ 31) crc then bit_xor (crc * 2 % 2 ^ 32) 0x04c11db7 else crc * 2 % 2 ^ 32

pub shift_bits : ℕ → ℕ → ℕ
shift_bits zero crc = crc
shift_bits (suc k) crc = shift_bits k (shift_bit crc)

-- The entries from index `i` on are the shifts of their indices.
entries_match : ℕ → List ℕ → Bool
entries_match i [] = true
entries_match i (e ∷ es) = (e == shift_bits 8 (i * 2 ^ 24)) && entries_match (i + 1) es

split_and : (a b : Bool) → (a && b) ≡ true → (a ≡ true) × (b ≡ true)
split_and a b h = ground arith

entries_match_lem :
    (i k j : ℕ) (es : List ℕ)
    → entries_match i es ≡ true
    → k < length es
    → j ≡ i + k
    → get_or es k 0 ≡ shift_bits 8 (j * 2 ^ 24)
unfolding entries_match
entries_match_lem i k j [] h short at = absurd (omega arith)
entries_match_lem i zero j (e ∷ es) h short at =
    (==_iff e (shift_bits 8 (i * 2 ^ 24))).0 (split_and _ _ h).0
    ∙ ap (λ n. shift_bits 8 (n * 2 ^ 24)) (omega (arith, at))
entries_match_lem i (suc k) j (e ∷ es) h short at =
    entries_match_lem (i + 1) k j es (split_and _ _ h).1 (omega (arith, short)) (omega (arith, at))

table_checked : entries_match 0 crc_table ≡ true
unfolding entries_match crc_table shift_bits shift_bit
table_checked = refl

table_length : length crc_table ≡ 256
unfolding crc_table
table_length = refl

-- Each entry of CRC_TABLE is what eight shifts make of its index in the top byte, with the
-- polynomial 0x04c11db7.
pub crc_table_lem : (i : ℕ) → i < 256 → get_or crc_table i 0 ≡ shift_bits 8 (i * 2 ^ 24)
crc_table_lem i h =
    entries_match_lem 0 i i crc_table table_checked (omega (arith, h, table_length)) (omega arith)

crc_loop-lt : (crc : ℕ) (bytes : List ℕ) → crc < 2 ^ 32 → crc_loop crc bytes < 2 ^ 32
unfolding crc_loop crc_round
crc_loop-lt crc [] h = h
crc_loop-lt crc (b ∷ bs) h = crc_loop-lt (crc_round crc b) bs (omega arith)

pub get_crc-lt : (bytes : List ℕ) → get_crc bytes < 2 ^ 32
unfolding get_crc
get_crc-lt bytes = crc_loop-lt 0xffffffff bytes (omega arith)

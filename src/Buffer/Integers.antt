-- ===== src/Buffer/Integers.antt =====
-- Integers in a buffer of app/util/hao_buffer.cpp, in network order.
use hao_server.Base.{
  leb, true, ℕ, zero, suc, ◌+◌, ◌-◌, ◌*◌, ◌/◌, ◌%◌, ◌^◌, ◌≤◌, ◌<◌, ◌≡◌, refl, sym, ap, subst, ◌∙◌,
  List, [], ◌∷◌, ◌++◌, arith, length, take, drop, length-append, length-overwrite,
  take-append_length, take-append_right, drop-overwrite, drop-append_length,
}
use native.Mathlib.Nat.{pow-suc}
use hao_server.Buffer.{
  Buffer, readable_bytes, to_string_view, prepend, big_endian, value_after, from_bytes, peek_int,
  peek_int64, read_int, retrieve,
}
use hao_server.Buffer.Contents.{Readable, Gives, copied_inside}
use hao_server.Buffer.Queue.{retrieve-Readable, Readable-length}

length-big_endian : (w v : ℕ) → length (big_endian w v) ≡ w
unfolding big_endian
length-big_endian zero v = refl
length-big_endian (suc w) v =
    omega
      (arith, length-append (big_endian w (v / 256)) (v % 256 ∷ []), length-big_endian w (v / 256))

value_after-append :
    (high : ℕ) (xs : List ℕ) (b : ℕ)
    → value_after high (xs ++ b ∷ []) ≡ value_after high xs * 256 + b
unfolding value_after
value_after-append high [] b = refl
value_after-append high (x ∷ xs) b = value_after-append (high * 256 + x) xs b

from_bytes-big_endian : (w v : ℕ) → v < 256 ^ w → from_bytes (big_endian w v) ≡ v
unfolding big_endian value_after
from_bytes-big_endian zero v h = omega arith
from_bytes-big_endian (suc w) v h = omega (
  arith,
  value_after-append 0 (big_endian w (v / 256)) (v % 256),
  from_bytes-big_endian w (v / 256) (omega (arith, h, pow-suc 256 w)),
)

take-take_shorter : (k n : ℕ) (xs : List ℕ) → k ≤ n → take k (take n xs) ≡ take k xs
take-take_shorter zero n xs h = refl
take-take_shorter (suc k) zero xs h = absurd (omega arith)
take-take_shorter (suc k) (suc n) [] h = refl
take-take_shorter (suc k) (suc n) (x ∷ xs) h = ap (◌∷◌ x) (take-take_shorter k n xs (omega arith))

-- The first bytes behind the reader index are those that can be read.
front_bytes :
    (k : ℕ) (bytes : List ℕ) (b : Buffer)
    → Readable bytes b
    → k ≤ length bytes
    → take k (drop b.reader_index b.buffer) ≡ take k bytes
unfolding to_string_view
front_bytes k bytes b v h =
    sym (
      take-take_shorter k (readable_bytes b) (drop b.reader_index b.buffer)
        (omega (arith, h, Readable-length b v)))
    ∙ ap (take k) v.contents

-- If the bytes that can be read start with a number of `w` bytes in network order, then ReadInt8,
-- ReadInt16 and ReadInt32 return it and leave the bytes behind it.
pub read_int_lem :
    (w v : ℕ) (rest : List ℕ) (b : Buffer)
    → v < 256 ^ w
    → Readable (big_endian w v ++ rest) b
    → ((read_int w b).0 ≡ v) × Readable rest (read_int w b).1
unfolding read_int peek_int
read_int_lem w v rest b h r =
    let n = length-big_endian w v in
    let m = length-append (big_endian w v) rest in
    (
      ap from_bytes (
            front_bytes w (big_endian w v ++ rest) b r (omega (arith, n, m))
            ∙ take-append_length w (big_endian w v) rest (sym n))
          ∙ from_bytes-big_endian w v h,
      subst (λ l. Readable l (retrieve w b)) (drop-append_length w (big_endian w v) rest (sym n))
          (retrieve-Readable w (big_endian w v ++ rest) b r),
    )

upper_half : (v : ℕ) → v < 2 ^ 64 → from_bytes (take 4 (big_endian 8 v)) ≡ v / 2 ^ 32
unfolding big_endian value_after
upper_half v h = omega arith

-- What PeekInt64 returns for a number of 64 bits in network order is its upper half.
pub peek_int64_lem :
    (v : ℕ) (rest : List ℕ) (b : Buffer)
    → v < 2 ^ 64
    → Readable (big_endian 8 v ++ rest) b
    → peek_int64 b ≡ v / 2 ^ 32
unfolding peek_int64
peek_int64_lem v rest b h r =
    let n = length-big_endian 8 v in
    let m = length-append (big_endian 8 v) rest in
    ap (λ l. from_bytes (take 4 l))
      (front_bytes 8 (big_endian 8 v ++ rest) b r (omega (arith, n, m))
        ∙ take-append_length 8 (big_endian 8 v) rest (sym n))
    ∙ upper_half v h

-- Prepend puts bytes in front of those that can be read, if the room in front is enough.
pub prepend-Readable :
    (bytes added : List ℕ) (b : Buffer)
    → Readable bytes b
    → length added ≤ b.reader_index
    → Gives (Readable (added ++ bytes)) (prepend added b)
unfolding prepend to_string_view
prepend-Readable bytes added b v h =
    let i = b.reader_index - length added in
    let inside : i + length added ≤ length b.buffer =
      omega (arith, h, v.in_order.order, v.in_order.inside) in
    let enough : leb (length added) b.reader_index ≡ true = ground (arith, h) in
    let n = length-overwrite b.buffer i added inside in
    let at : i + length added ≡ b.reader_index = omega (arith, h) in
    let left : b.writer_index - i - length added ≡ readable_bytes b = omega (arith, h) in
    rw (enough, copied_inside b.buffer i added inside)
      (record {
        in_order = record {
          order = omega (arith, v.in_order.order);
          inside = omega (arith, n, v.in_order.inside);
          front = omega (arith, n, v.in_order.front);
        };
        contents =
            ap (take (b.writer_index - i)) (drop-overwrite b.buffer i added inside)
            ∙ take-append_right (b.writer_index - i) added _ (omega (arith, h, v.in_order.order))
            ∙ ap (λ k. added ++ take k (drop (i + length added) b.buffer)) left
            ∙ ap (λ k. added ++ take (readable_bytes b) (drop k b.buffer)) at
            ∙ ap (λ l. added ++ l) v.contents;
      })

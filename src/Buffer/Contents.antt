-- ===== src/Buffer/Contents.antt =====
-- A buffer of app/util/hao_buffer.cpp stands for the bytes that can be read from it: what its
-- operations do to them.
use hao_server.Base.{
  Option, none, some, ◌>>=◌, leb, true, ℕ, zero, suc, ◌+◌, ◌-◌, ◌≤◌, ◌<◌, ◌≡◌, refl, sym, ap, ◌∙◌,
  List, [], ◌∷◌, ◌++◌, inl, inr, arith, length, take, drop, replicate, overwrite, length-append,
  length-take, length-drop, length-overwrite, take_all, drop-append_left, drop-append_length,
  take-append_left, take-overwrite, length-replicate, ltb, Bool-cases,
}
use hao_server.Buffer.{
  Buffer, readable_bytes, writeable_bytes, to_string_view, resize, copied, make_space,
  ensure_writable_bytes, write, append,
}

-- The indices are in order and there is room for the part in front.
pub record InOrder (b : Buffer) : Type 0 where
  pub order : b.reader_index ≤ b.writer_index
  pub inside : b.writer_index ≤ length b.buffer
  pub front : 8 ≤ length b.buffer

-- `b` is in order and `bytes` can be read from it.
pub record Readable (bytes : List ℕ) (b : Buffer) : Type 0 where
  pub in_order : InOrder b
  pub contents : to_string_view b ≡ bytes

-- The operation does not fault, and what it makes has the property.
abbrev pub Gives : (Buffer → Type 0) → Option Buffer → Type 0
Gives P none = ⊥
Gives P (some b) = P b

pub Gives-bind :
    {P : Buffer → Type 0} (Q : Buffer → Type 0) (f : Buffer → Option Buffer) (o : Option Buffer)
    → Gives P o
    → ((b : Buffer) → P b → Gives Q (f b))
    → Gives Q (o >>= f)
Gives-bind Q f none p k = absurd p
Gives-bind Q f (some b) p k = k b p

pub Gives-inv :
    {P : Buffer → Type 0} (o : Option Buffer) → Gives P o → (b : Buffer) × (o ≡ some b) × P b
Gives-inv none p = absurd p
Gives-inv (some b) p = (b, refl, p)

pub copied_inside :
    (xs : List ℕ) (i : ℕ) (ys : List ℕ)
    → i + length ys ≤ length xs
    → copied xs i ys ≡ some (overwrite xs i ys)
unfolding copied
copied_inside xs i ys h =
    let fits : leb (i + length ys) (length xs) ≡ true = ground (arith, h) in rw fits refl

take_empty : (k : ℕ) → take {A = ℕ} k [] ≡ []
take_empty zero = refl
take_empty (suc k) = refl

drop-take : (r w : ℕ) (xs : List ℕ) → take (w - r) (drop r xs) ≡ drop r (take w xs)
drop-take zero w xs = let e : w - 0 ≡ w = omega arith in ap (λ k. take k xs) e
drop-take (suc r) zero xs =
    let e : 0 - suc r ≡ 0 = omega arith in ap (λ k. take k (drop (suc r) xs)) e
drop-take (suc r) (suc w) [] = take_empty (suc w - suc r)
drop-take (suc r) (suc w) (x ∷ xs) =
    let e : suc w - suc r ≡ w - r = omega arith in ap (λ k. take k (drop r xs)) e ∙ drop-take r w xs

-- The readable part as what lies behind the reader index of the written part.
pub view : (b : Buffer) → to_string_view b ≡ drop b.reader_index (take b.writer_index b.buffer)
unfolding to_string_view
view b = drop-take b.reader_index b.writer_index b.buffer

pub view-length :
    (b : Buffer) → InOrder b → length (to_string_view b) ≡ b.writer_index - b.reader_index
view-length b v = rw (view b) (
    omega (
      arith,
      length-drop b.reader_index (take b.writer_index b.buffer),
      length-take b.writer_index b.buffer v.inside,
    ))

pub write-Readable :
    (bytes added : List ℕ) (b : Buffer)
    → Readable bytes b
    → b.writer_index + length added ≤ length b.buffer
    → Gives (Readable (bytes ++ added)) (write added b)
unfolding write
write-Readable bytes added b v fits =
    let w = b.writer_index in
    let n = length-overwrite b.buffer w added fits in
    let t = length-take w b.buffer v.in_order.inside in
    rw (copied_inside b.buffer w added fits) (record {
      in_order = record {
        order = omega (arith, v.in_order.order);
        inside = omega (arith, n, fits);
        front = omega (arith, n, v.in_order.front);
      };
      contents =
          view (record b { buffer = overwrite b.buffer w added; writer_index = w + length added })
          ∙ ap (drop b.reader_index) (take-overwrite b.buffer w added fits)
          ∙ drop-append_left b.reader_index (take w b.buffer) added
              (omega (arith, t, v.in_order.order))
          ∙ ap (λ l. l ++ added) (sym (view b) ∙ v.contents);
    })

-- Room for `len` more bytes behind the readable ones, which stay what they are.
pub record Roomy (len : ℕ) (bytes : List ℕ) (b : Buffer) : Type 0 where
  pub readable : Readable bytes b
  pub room : b.writer_index + len ≤ length b.buffer

resized :
    (len : ℕ) (bytes : List ℕ) (b : Buffer)
    → Readable bytes b
    → length b.buffer < b.writer_index + len
    → Roomy len bytes (record b { buffer = resize (b.writer_index + len) b.buffer })
unfolding resize
resized len bytes b v short =
    let n = b.writer_index + len in
    let all = take_all n b.buffer (omega (arith, short)) in
    let size : length (resize n b.buffer) ≡ n = omega (
      arith,
      length-append (take n b.buffer) (replicate (n - length b.buffer) 0),
      length-replicate {A = ℕ} (n - length b.buffer) 0,
      ap length all,
      short,
    ) in
    record {
      readable = record {
        in_order = record {
          order = v.in_order.order;
          inside = omega (arith, size);
          front = omega (arith, size, v.in_order.front, short);
        };
        contents =
            view (record b { buffer = resize n b.buffer })
            ∙ ap (drop b.reader_index) (
                take-append_left b.writer_index (take n b.buffer) _
                  (omega (arith, ap length all, v.in_order.inside))
                ∙ ap (take b.writer_index) all)
            ∙ sym (view b)
            ∙ v.contents;
      };
      room = omega (arith, size);
    }

move_inside :
    (len : ℕ) (bytes : List ℕ) (b : Buffer)
    → Readable bytes b
    → len + 8 ≤ length b.buffer - b.writer_index + b.reader_index
    → 8 + length (to_string_view b) ≤ length b.buffer
move_inside len bytes b v fits =
    omega (arith, view-length b v.in_order, fits, v.in_order.inside, v.in_order.order)

moved :
    (len : ℕ) (bytes : List ℕ) (b : Buffer)
    → Readable bytes b
    → len + 8 ≤ length b.buffer - b.writer_index + b.reader_index
    → Roomy len bytes (record {
      buffer = overwrite b.buffer 8 (to_string_view b);
      reader_index = 8;
      writer_index = 8 + readable_bytes b;
    })
moved len bytes b v fits =
    let m = view-length b v.in_order in
    let inside = move_inside len bytes b v fits in
    let size = length-overwrite b.buffer 8 (to_string_view b) inside in
    record {
      readable = record {
        in_order = record {
          order = omega arith;
          inside = omega (arith, size, inside, m);
          front = omega (arith, size, v.in_order.front);
        };
        contents =
            view _
            ∙ ap (λ k. drop 8 (take (8 + k) (overwrite b.buffer 8 (to_string_view b)))) (sym m)
            ∙ ap (drop 8) (take-overwrite b.buffer 8 (to_string_view b) inside)
            ∙ drop-append_length 8 (take 8 b.buffer) (to_string_view b)
                (sym (length-take 8 b.buffer v.in_order.front))
            ∙ v.contents;
      };
      room = omega (arith, size, fits, m, v.in_order.inside, v.in_order.order);
    }

make_space-Roomy :
    (len : ℕ) (bytes : List ℕ) (b : Buffer)
    → Readable bytes b
    → writeable_bytes b < len
    → Gives (Roomy len bytes) (make_space len b)
unfolding make_space
make_space-Roomy len bytes b v short =
    elim (Bool-cases (ltb (writeable_bytes b + b.reader_index) (len + 8))) [
      | inl e ↦ rw e (resized len bytes b v (omega (arith, short, v.in_order.inside)))
      | inr e ↦
          let fits : len + 8 ≤ length b.buffer - b.writer_index + b.reader_index =
            ground (arith, e) in
          rw (e, copied_inside b.buffer 8 (to_string_view b) (move_inside len bytes b v fits))
            (moved len bytes b v fits)
    ]

pub ensure_writable_bytes-Roomy :
    (len : ℕ) (bytes : List ℕ) (b : Buffer)
    → Readable bytes b
    → Gives (Roomy len bytes) (ensure_writable_bytes len b)
unfolding ensure_writable_bytes
ensure_writable_bytes-Roomy len bytes b v = elim (Bool-cases (ltb (writeable_bytes b) len)) [
  | inl e ↦ rw e (make_space-Roomy len bytes b v (ground (arith, e)))
  | inr e ↦ rw e (record { readable = v; room = ground (arith, e, v.in_order.inside) })
]

-- Append adds the bytes behind those that can be read, whether it finds room, moves the contents to
-- the front or makes the buffer grow.
pub append-Readable :
    (bytes added : List ℕ) (b : Buffer)
    → Readable bytes b
    → Gives (Readable (bytes ++ added)) (append added b)
unfolding append
append-Readable bytes added b v =
    Gives-bind _ _ (ensure_writable_bytes (length added) b)
      (ensure_writable_bytes-Roomy (length added) bytes b v)
      (λ r roomy. write-Readable bytes added r roomy.readable roomy.room)

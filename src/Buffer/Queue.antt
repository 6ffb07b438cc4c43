-- ===== src/Buffer/Queue.antt =====
-- A buffer of app/util/hao_buffer.cpp is a queue of bytes: any operations on it against the same
-- operations on a list.
use hao_server.Base.{
  Option, some, ◌>>=◌, ℕ, zero, suc, ◌+◌, ◌≤◌, ◌<◌, ◌≡◌, refl, sym, ap, subst, ◌∙◌, List, [], ◌∷◌,
  ◌++◌, inl, inr, arith, length, take, drop, length-take, take-append-drop, drop-drop, append_assoc,
  length-replicate, ltb, leb, Bool-cases,
}
use hao_server.Buffer.{
  Buffer, readable_bytes, writeable_bytes, to_string_view, ensure_writable_bytes, write, append,
  retrieve, retrieve_all, shrink, read_fd, new_buffer,
}
use hao_server.Buffer.Contents.{
  InOrder, Readable, Gives, Gives-bind, Gives-inv, view, view-length, write-Readable,
  append-Readable, ensure_writable_bytes-Roomy,
}

pub new_buffer-Readable : (size : ℕ) → Readable [] (new_buffer size)
unfolding to_string_view
new_buffer-Readable size =
    let n = length-replicate (8 + size) (the_zero) in
    record {
      in_order = record {
        order = omega arith;
        inside = omega (arith, n);
        front = omega (arith, n);
      };
      contents = refl;
    }
  where
    the_zero : ℕ
    the_zero = 0

drop_long : (n : ℕ) (xs : List ℕ) → length xs ≤ n → drop n xs ≡ []
drop_long zero [] h = refl
drop_long (suc n) [] h = refl
drop_long zero (x ∷ xs) h = absurd (omega arith)
drop_long (suc n) (x ∷ xs) h = drop_long n xs (omega arith)

pub Readable-length :
    {bytes : List ℕ} (b : Buffer) → Readable bytes b → length bytes ≡ readable_bytes b
Readable-length b v = ap length (sym v.contents) ∙ view-length b v.in_order

retrieve_all-Readable : (b : Buffer) → InOrder b → Readable [] (retrieve_all b)
retrieve_all-Readable b v = record {
  in_order = record { order = omega arith; inside = v.front; front = v.front };
  contents =
      view (retrieve_all b)
      ∙ drop_long 8 (take 8 b.buffer) (omega (arith, length-take 8 b.buffer v.front));
}

advanced :
    (n : ℕ) (bytes : List ℕ) (b : Buffer)
    → Readable bytes b
    → n < readable_bytes b
    → Readable (drop n bytes) (record b { reader_index = b.reader_index + n })
advanced n bytes b v h = record {
  in_order = record {
    order = omega (arith, h);
    inside = v.in_order.inside;
    front = v.in_order.front;
  };
  contents =
      view (record b { reader_index = b.reader_index + n })
      ∙ sym (drop-drop n b.reader_index (take b.writer_index b.buffer))
      ∙ ap (drop n) (sym (view b) ∙ v.contents);
}

pub retrieve-Readable :
    (n : ℕ) (bytes : List ℕ) (b : Buffer)
    → Readable bytes b
    → Readable (drop n bytes) (retrieve n b)
unfolding retrieve
retrieve-Readable n bytes b v = elim (Bool-cases (ltb n (readable_bytes b))) [
  | inl e ↦ rw e (advanced n bytes b v (ground (arith, e)))
  | inr e ↦
      rw (e, drop_long n bytes (ground (arith, e, Readable-length b v)))
        (retrieve_all-Readable b v.in_order)
]

-- Bytes that do not fit are taken from the second array.
read_fd-Readable :
    (bytes added : List ℕ) (b : Buffer)
    → Readable bytes b
    → Gives (Readable (bytes ++ added)) (read_fd added b)
unfolding read_fd
read_fd-Readable bytes added b v =
    let n = writeable_bytes b in
    elim (Bool-cases (leb (length added) n)) [
      | inl e ↦ rw e (write-Readable bytes added b v (ground (arith, e, v.in_order.inside)))
      | inr e ↦ rw e (
          let k = length-take n added (ground (arith, e)) in
          subst (λ l. Gives (Readable l) (write (take n added) b >>= λ c. append (drop n added) c))
            (append_assoc bytes (take n added) (drop n added)
              ∙ ap (λ l. bytes ++ l) (take-append-drop n added))
            (Gives-bind _ _ (write (take n added) b)
              (write-Readable bytes (take n added) b v (omega (arith, k, v.in_order.inside)))
              (λ c w. append-Readable (bytes ++ take n added) (drop n added) c w)))
    ]

shrink-Readable :
    (reserve : ℕ) (bytes : List ℕ) (b : Buffer)
    → Readable bytes b
    → Gives (Readable bytes) (shrink reserve b)
unfolding shrink
shrink-Readable reserve bytes b v =
    let room =
      ensure_writable_bytes-Roomy (readable_bytes b + reserve) [] (new_buffer 1024)
        (new_buffer-Readable 1024) in
    subst (λ l. Gives (Readable l) (shrink reserve b)) v.contents
      (Gives-bind _ _ (ensure_writable_bytes (readable_bytes b + reserve) (new_buffer 1024)) room
        (λ r roomy. append-Readable [] (to_string_view b) r roomy.readable))

-- What is done with a buffer from outside.
pub data BufferOp : Type 0 where
  appends reads_in : List ℕ → BufferOp
  retrieves ensures shrinks : ℕ → BufferOp

-- The operations in turn, up to the first fault
pub run : List BufferOp → Buffer → Option Buffer
run [] b = some b
run (appends bytes ∷ ops) b = append bytes b >>= λ c. run ops c
run (reads_in bytes ∷ ops) b = read_fd bytes b >>= λ c. run ops c
run (retrieves n ∷ ops) b = run ops (retrieve n b)
run (ensures n ∷ ops) b = ensure_writable_bytes n b >>= λ c. run ops c
run (shrinks n ∷ ops) b = shrink n b >>= λ c. run ops c

-- The same on a list of bytes
pub run_list : List BufferOp → List ℕ → List ℕ
run_list [] bytes = bytes
run_list (appends more ∷ ops) bytes = run_list ops (bytes ++ more)
run_list (reads_in more ∷ ops) bytes = run_list ops (bytes ++ more)
run_list (retrieves n ∷ ops) bytes = run_list ops (drop n bytes)
run_list (ensures n ∷ ops) bytes = run_list ops bytes
run_list (shrinks n ∷ ops) bytes = run_list ops bytes

run-Gives :
    (ops : List BufferOp) (bytes : List ℕ) (b : Buffer)
    → Readable bytes b
    → Gives (Readable (run_list ops bytes)) (run ops b)
unfolding run run_list
run-Gives [] bytes b v = v
run-Gives (appends more ∷ ops) bytes b v =
    Gives-bind _ _ (append more b) (append-Readable bytes more b v) (run-Gives ops (bytes ++ more))
run-Gives (reads_in more ∷ ops) bytes b v =
    Gives-bind _ _ (read_fd more b) (read_fd-Readable bytes more b v)
      (run-Gives ops (bytes ++ more))
run-Gives (retrieves n ∷ ops) bytes b v =
    run-Gives ops (drop n bytes) (retrieve n b) (retrieve-Readable n bytes b v)
run-Gives (ensures n ∷ ops) bytes b v =
    Gives-bind _ _ (ensure_writable_bytes n b) (ensure_writable_bytes-Roomy n bytes b v)
      (λ c roomy. run-Gives ops bytes c roomy.readable)
run-Gives (shrinks n ∷ ops) bytes b v =
    Gives-bind _ _ (shrink n b) (shrink-Readable n bytes b v) (run-Gives ops bytes)

-- Any sequence of Append, ReadFd, Retrieve, EnsureWritableBytes and Shrink on a buffer that is in
-- order copies nothing to a place outside the array, and leaves the buffer in order, with the bytes to
-- read that the sequence leaves of a plain list: what is added comes last, what is retrieved goes
-- first, and moving or growing the array changes nothing.
pub run-Readable :
    (ops : List BufferOp) (bytes : List ℕ) (b : Buffer)
    → Readable bytes b
    → (t : Buffer) × (run ops b ≡ some t) × Readable (run_list ops bytes) t
run-Readable ops bytes b v = Gives-inv (run ops b) (run-Gives ops bytes b v)

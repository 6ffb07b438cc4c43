-- ===== src/Net/Receive/Framing.antt =====
-- What the packets of a byte stream are, one byte at a time: the specification of the receiver in
-- app/net/hao_socket_request.cpp.
use hao_server.Base.{
  All, sym, drop, inl, inr, Bool-cases, length-take, length-drop, take-append-drop, ℕ, zero, suc,
  ◌+◌, ◌-◌, ◌≤◌, ◌<◌, ◌≡◌, refl, ap, ◌∙◌, ◌≢◌, Bool, true, false, ◌&&◌, ◌||◌, List, [], ◌∷◌, ◌++◌,
  arith, ltb, ◌==◌, if◌then◌else◌, length, take, length-append, append-nil, append_assoc,
}
use hao_server.Net.State.{pkg_len, pkg_header_len, pkg_max_length}

-- A length field that WaitRequestHandlerProcP1 refuses.
abbrev pub is_bad_length : ℕ → Bool
is_bad_length n = ltb n pkg_header_len || ltb (pkg_max_length - pkg_header_len) n

-- The bytes of an unfinished packet, and the packets that are whole.
abbrev pub Parsed : Type 0
Parsed = List ℕ × List (List ℕ)

-- A header with a bad length is dropped; a packet is whole once it has the length that it states.
unfoldable pub settle : List ℕ → Parsed
settle w =
    if ltb (length w) pkg_header_len
    then (w, [])
    else if (length w == pkg_header_len) && is_bad_length (pkg_len w)
    then ([], [])
    else if length w == pkg_len w
    then ([], w ∷ [])
    else (w, [])

-- The bytes `pending`, then those of the list, one by one.
unfoldable pub frames : List ℕ → List ℕ → Parsed
frames pending [] = (pending, [])
frames pending (b ∷ bs) =
    let now = settle (pending ++ b ∷ []) in
    let later = frames now.0 bs in (later.0, now.1 ++ later.1)

-- The number of bytes at which the header or the packet that begins with `q` is complete.
abbrev pub target : List ℕ → ℕ
target q = if ltb (length q) pkg_header_len then pkg_header_len else pkg_len q

-- An unfinished header, or an unfinished packet with a good length.
pub record IsPending (q : List ℕ) : Type 0 where
  pub unfinished : length q < target q

pub pkg_len-append : (q xs : List ℕ) → 2 ≤ length q → pkg_len (q ++ xs) ≡ pkg_len q
pkg_len-append [] xs h = absurd (omega arith)
pkg_len-append (a ∷ []) xs h = absurd (omega arith)
pkg_len-append (a ∷ b ∷ q) xs h = refl

pub pkg_len-take : (n : ℕ) (xs : List ℕ) → 2 ≤ n → pkg_len (take n xs) ≡ pkg_len xs
pkg_len-take zero xs h = absurd (omega arith)
pkg_len-take (suc zero) xs h = absurd (omega arith)
pkg_len-take (suc (suc n)) [] h = refl
pkg_len-take (suc (suc n)) (a ∷ []) h = refl
pkg_len-take (suc (suc n)) (a ∷ b ∷ xs) h = refl

target-snoc : (q : List ℕ) (b : ℕ) → length q + 1 < target q → target (q ++ b ∷ []) ≡ target q
target-snoc q b h = ground (arith, length-append q (b ∷ []), pkg_len-append q (b ∷ []))

settle_unfinished :
    (q : List ℕ) (b : ℕ) → length q + 1 < target q → settle (q ++ b ∷ []) ≡ (q ++ b ∷ [], [])
unfolding settle
settle_unfinished q b h = ground (arith, length-append q (b ∷ []), pkg_len-append q (b ∷ []))

-- As long as the bytes reach no further than the target, only the last one can finish anything.
pub frames_up_to :
    (q : List ℕ) (b : ℕ) (bs : List ℕ)
    → length q + suc (length bs) ≤ target q
    → frames q (b ∷ bs) ≡ settle (q ++ b ∷ bs)
unfolding frames
frames_up_to q b [] h = simp append-nil
frames_up_to q b (c ∷ bs) h = rw (settle_unfinished q b (omega arith)) (
    frames_up_to (q ++ b ∷ []) c bs
      (omega (arith, length-append q (b ∷ []), target-snoc q b (omega arith)))
    ∙ ap settle (append_assoc q (b ∷ []) (c ∷ bs)))

-- The stream can be cut anywhere.
pub frames-append :
    (q xs ys : List ℕ)
    → frames q (xs ++ ys)
      ≡ ((frames (frames q xs).0 ys).0, (frames q xs).1 ++ (frames (frames q xs).0 ys).1)
unfolding frames
frames-append q [] ys = refl
frames-append q (x ∷ xs) ys = simp (frames-append (settle (q ++ x ∷ [])).0 xs ys, append_assoc)

pub settle_bad :
    (w : List ℕ)
    → length w ≡ pkg_header_len
    → is_bad_length (pkg_len w) ≡ true
    → settle w ≡ ([], [])
unfolding settle
settle_bad w e h = rw (e, h)

pub settle_whole :
    (w : List ℕ)
    → pkg_header_len ≤ length w
    → length w ≡ pkg_len w
    → is_bad_length (pkg_len w) ≡ false
    → settle w ≡ ([], w ∷ [])
unfolding settle
settle_whole w h e good = ground arith

pub settle_open :
    (w : List ℕ) → length w ≢ pkg_len w → is_bad_length (pkg_len w) ≡ false → settle w ≡ (w, [])
unfolding settle
settle_open w e good = ground arith

pub settle_short : (w : List ℕ) → length w < pkg_header_len → settle w ≡ (w, [])
unfolding settle
settle_short w h = ground arith

pub settle_body :
    (w : List ℕ) → pkg_header_len < length w → length w ≡ pkg_len w → settle w ≡ ([], w ∷ [])
unfolding settle
settle_body w h e = ground arith

pub settle_body_open :
    (w : List ℕ) → pkg_header_len < length w → length w ≢ pkg_len w → settle w ≡ (w, [])
unfolding settle
settle_body_open w h e = ground arith

-- A packet with a true length field.
pub record IsPacket (w : List ℕ) : Type 0 where
  pub header : pkg_header_len ≤ length w
  pub limit : length w ≤ pkg_max_length - pkg_header_len
  pub honest : pkg_len w ≡ length w

-- A stream of packets.
unfoldable pub joined : List (List ℕ) → List ℕ
joined [] = []
joined (w ∷ ws) = w ++ joined ws

frames_once :
    (q xs : List ℕ)
    → 0 < length xs
    → length q + length xs ≤ target q
    → frames q xs ≡ settle (q ++ xs)
frames_once q [] some_bytes h = absurd (omega arith)
frames_once q (b ∷ bs) some_bytes h = frames_up_to q b bs h

frames_long_packet :
    (w : List ℕ) → IsPacket w → pkg_header_len < length w → frames [] w ≡ ([], w ∷ [])
frames_long_packet w g long =
    ap (frames []) (sym (take-append-drop pkg_header_len w))
    ∙ (frames-append [] header body
        ∙ rw (frames_once [] header (omega (arith, size)) (omega (arith, size)), is_open)
            (frames_once header body (omega (arith, rest))
                (ground (arith, size, rest, same, g.honest))
              ∙ ap settle (take-append-drop pkg_header_len w)
              ∙ settle_body w long (sym g.honest)))
  where
    header : List ℕ
    header = take pkg_header_len w

    body : List ℕ
    body = drop pkg_header_len w

    size : length header ≡ pkg_header_len
    size = length-take pkg_header_len w g.header

    rest : length body ≡ length w - pkg_header_len
    rest = length-drop pkg_header_len w

    same : pkg_len header ≡ pkg_len w
    same = pkg_len-take pkg_header_len w (omega arith)

    is_open : settle header ≡ (header, [])
    is_open =
        settle_open header (omega (arith, size, same, g.honest))
          (ground (arith, same, g.honest, g.limit))

pub frames_packet : (w : List ℕ) → IsPacket w → frames [] w ≡ ([], w ∷ [])
frames_packet w g = elim (Bool-cases (length w == pkg_header_len)) [
  | inl e ↦
      frames_once [] w (omega (arith, g.header)) (ground arith)
      ∙ settle_whole w g.header (sym g.honest) (ground (arith, g.honest, g.limit, g.header))
  | inr e ↦ frames_long_packet w g (ground (arith, g.header))
]

pub frames-joined : (ws : List (List ℕ)) → All IsPacket ws → frames [] (joined ws) ≡ ([], ws)
unfolding joined frames
frames-joined [] g = refl
frames-joined (w ∷ ws) g =
    frames-append [] w (joined ws) ∙ rw (frames_packet w g.0, frames-joined ws g.1)

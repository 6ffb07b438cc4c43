-- ===== src/Net/Receive/Stream.antt =====
-- A whole stream through ReadRequestHandler (app/net/hao_socket_request.cpp), cut into pieces in
-- any way that the kernel likes.
use hao_server.Base.{
  All, ℕ, ◌≤◌, ◌<◌, ◌≡◌, refl, sym, ap, ◌∙◌, false, List, [], ◌∷◌, ◌++◌, map, Option, some, arith,
  length, append_assoc, subst,
}
use mathlib.Core.List.{map-append}
use mathlib.Core.Option.{some-injective}
use hao_server.Base.Int.{pos}
use hao_server.Timestamp.{Timestamp}
use hao_server.Net.State.{
  Message, Connection, Session, Socket, PkgState, head_init, head_recving, body_init, body_recving,
}
use hao_server.Net.Receive.{received, read_request_handler}
use hao_server.Net.Receive.Framing.{Parsed, frames-joined, joined, frames, frames-append, IsPacket}
use hao_server.Net.Receive.Holding.{Yields, yields, Advanced, Holds, HoldsIn, no_tasks}
use hao_server.Net.Receive.Step.{read_request_handler-Advanced}

-- The calls of ReadRequestHandler by which a connection takes in a stream: each gets at least one
-- byte, and no more than recv_len of them.
pub data Reads (malloc : ℕ → List ℕ) : Session → List ℕ → Session → Type 0 where
  done : {s : Session} → Reads malloc s [] s
  more :
      {s t u : Session} {stream : List ℕ} (now : Timestamp) (bytes rest : List ℕ)
      → 0 < length bytes
      → length bytes ≤ s.conn.recv_len
      → read_request_handler malloc now (received bytes) s ≡ some t
      → Reads malloc t rest u
      → stream ≡ bytes ++ rest
      → Reads malloc s stream u

abbrev pub message_of : ℕ → ℕ → List ℕ → Message
message_of id seq w = record { conn = id; cur_sequence_num = seq; packet = w }

Yields-inv {ℓ κ} :
    {A : Type ℓ} {P : A → Type κ} {r : Option A} → Yields P r → (a : A) × (r ≡ some a) × P a
Yields-inv (yields {a = a} p) = (a, refl, p)

-- What a call yields, if its result is known.
Yields-result {ℓ κ} :
    {A : Type ℓ} {P : A → Type κ} {r : Option A} → Yields P r → {a : A} → r ≡ some a → P a
Yields-result {P} y {a} e =
    let (b, f, p) = Yields-inv y in subst P (some-injective b a (sym f ∙ e)) p

Advanced-refl :
    (s : Session) (q : List ℕ)
    → Holds q s.conn
    → Advanced s.conn.id s.conn.sequence_num s.socket (q, []) s
Advanced-refl s q h = record {
  same_id = refl;
  same_seq = refl;
  holds = h;
  pushed = no_tasks s.socket;
}

pushed_twice :
    (socket socket' : Socket) (id seq id' seq' : ℕ) (xs ys : List (List ℕ))
    → id' ≡ id
    → seq' ≡ seq
    → socket' ≡ record socket { tasks = socket.tasks ++ map (message_of id seq) xs }
    → record socket' { tasks = socket'.tasks ++ map (message_of id' seq') ys }
      ≡ record socket { tasks = socket.tasks ++ map (message_of id seq) (xs ++ ys) }
pushed_twice socket socket' id seq id' seq' xs ys e f g =
    rw (e, f, g)
      (ap (λ l. record socket { tasks = l })
        (append_assoc socket.tasks (map (message_of id seq) xs) (map (message_of id seq) ys)
          ∙ ap (◌++◌ socket.tasks) (sym (map-append (message_of id seq) xs ys))))

Advanced-trans :
    (id seq : ℕ) (socket : Socket) (r r' : Parsed) (t u : Session)
    → Advanced id seq socket r t
    → Advanced t.conn.id t.conn.sequence_num t.socket r' u
    → Advanced id seq socket (r'.0, r.1 ++ r'.1) u
Advanced-trans id seq socket r r' t u a b = record {
  same_id = b.same_id ∙ a.same_id;
  same_seq = b.same_seq ∙ a.same_seq;
  holds = b.holds;
  pushed =
      b.pushed ∙ pushed_twice socket t.socket id seq _ _ r.1 r'.1 a.same_id a.same_seq a.pushed;
}

HoldsIn-recv_len : (st : PkgState) (q : List ℕ) (c : Connection) → HoldsIn st q c → 1 ≤ c.recv_len
HoldsIn-recv_len head_init q c (v, e) = omega (arith, v.short, v.missing)
HoldsIn-recv_len head_recving q c v = omega (arith, v.short, v.missing)
HoldsIn-recv_len body_init q c v = omega (arith, v.short, v.missing)
HoldsIn-recv_len body_recving q c v = omega (arith, v.short, v.missing)

pub Holds-recv_len : (q : List ℕ) (c : Connection) → Holds q c → 1 ≤ c.recv_len
Holds-recv_len q c h = HoldsIn-recv_len c.cur_stat q c h.stage

abbrev start : Timestamp
start = record { micro_seconds_since_epoch = pos 0 }

module _ (malloc : ℕ → List ℕ) (length-malloc : (n : ℕ) → length (malloc n) ≡ n) where
  -- With the flood test off, and blocks of the size that was asked for: however a stream is cut into
  -- calls that each receive at least one byte and at most recv_len, the packets given to the thread
  -- pool are those that the byte-wise specification finds in the bytes `q` already held and the
  -- stream, in order and once each; the rest is held, and nothing else of the socket object changes.
  pub Reads-Advanced :
      (s u : Session) (q stream : List ℕ)
      → s.socket.flood_ak_enable ≡ false
      → Holds q s.conn
      → Reads malloc s stream u
      → Advanced s.conn.id s.conn.sequence_num s.socket (frames q stream) u
  unfolding frames
  Reads-Advanced s u q stream calm h done = Advanced-refl s q h
  Reads-Advanced s u q stream calm h (more {t = t} now bytes rest some_bytes fits run later cut) =
      let step =
        Yields-result
          (read_request_handler-Advanced malloc length-malloc s now q bytes calm h some_bytes fits)
          run in
      let calm' : t.socket.flood_ak_enable ≡ false =
        ap (λ (k : Socket). k.flood_ak_enable) step.pushed ∙ calm in
      rw (cut, frames-append q bytes rest)
        (Advanced-trans s.conn.id s.conn.sequence_num s.socket (frames q bytes) _ t u step
          (Reads-Advanced t u (frames q bytes).0 rest calm' step.holds later))

  -- There are calls that take a stream in.
  pub takes_in :
      (s : Session) (q stream : List ℕ)
      → s.socket.flood_ak_enable ≡ false
      → Holds q s.conn
      → (u : Session) × Reads malloc s stream u
  takes_in s q [] calm h = (s, done)
  takes_in s q (b ∷ bs) calm h =
      let (t, run, step) = Yields-inv (
        read_request_handler-Advanced malloc length-malloc s start q (b ∷ []) calm h (omega arith)
          (Holds-recv_len q s.conn h)) in
      let calm' : t.socket.flood_ak_enable ≡ false =
        ap (λ (k : Socket). k.flood_ak_enable) step.pushed ∙ calm in
      let (u, later) = takes_in t (frames q (b ∷ [])).0 bs calm' step.holds in
      (u, more start (b ∷ []) bs (omega arith) (Holds-recv_len q s.conn h) run later refl)

  -- With the flood test off, after any calls that took in a stream, cut in any way: a further call
  -- that gets at least one byte and at most recv_len does not fault, it asks for at least one byte
  -- next, as the connection does at the beginning, and whatever comes after that can be taken in too.
  pub Reads-total :
      (s u : Session) (q stream : List ℕ) (now : Timestamp) (bytes rest : List ℕ)
      → s.socket.flood_ak_enable ≡ false
      → Holds q s.conn
      → Reads malloc s stream u
      → 0 < length bytes
      → length bytes ≤ u.conn.recv_len
      → (1 ≤ s.conn.recv_len)
        × ((t : Session) × (read_request_handler malloc now (received bytes) u ≡ some t)
            × (1 ≤ t.conn.recv_len)
            × ((v : Session) × Reads malloc t rest v))
  Reads-total s u q stream now bytes rest calm h run some_bytes fits =
      let end = Reads-Advanced s u q stream calm h run in
      let calm' : u.socket.flood_ak_enable ≡ false =
        ap (λ (k : Socket). k.flood_ak_enable) end.pushed ∙ calm in
      let (t, ran, step) = Yields-inv (
        read_request_handler-Advanced malloc length-malloc u now _ bytes calm' end.holds some_bytes
          fits) in
      let calm'' : t.socket.flood_ak_enable ≡ false =
        ap (λ (k : Socket). k.flood_ak_enable) step.pushed ∙ calm' in
      (
        Holds-recv_len q s.conn h,
        (t, ran, Holds-recv_len _ t.conn step.holds, takes_in t _ rest calm'' step.holds),
      )

module _ (malloc : ℕ → List ℕ) (length-malloc : (n : ℕ) → length (malloc n) ≡ n) where
  -- Packets that are sent one after another, each with a true length field of 8 to 29992, to a
  -- connection that waits for a header, with the flood test off, arrive at the thread pool
  -- unchanged, in order and once each, however the stream is cut into calls, and afterwards the
  -- connection waits for a fresh header.
  pub packets_delivered :
      (s u : Session) (ws : List (List ℕ))
      → s.socket.flood_ak_enable ≡ false
      → Holds [] s.conn
      → All IsPacket ws
      → Reads malloc s (joined ws) u
      → (u.socket.tasks ≡ s.socket.tasks ++ map (message_of s.conn.id s.conn.sequence_num) ws)
        × Holds [] u.conn
  packets_delivered s u ws calm h good run =
      let end = Reads-Advanced malloc length-malloc s u [] (joined ws) calm h run in
      let parsed = frames-joined ws good in
      (
        ap (λ (k : Socket). k.tasks) end.pushed
            ∙ ap
                (λ (r : Parsed).
                  s.socket.tasks ++ map (message_of s.conn.id s.conn.sequence_num) r.1)
                parsed,
        subst (λ (r : Parsed). Holds r.0 u.conn) parsed end.holds,
      )

-- ===== src/Net/Receive/Holding.antt =====
-- What a connection holds of an unfinished packet between two calls of ReadRequestHandler
-- (app/net/hao_socket_request.cpp), and what a call has done.
use hao_server.Base.{
  ℕ, ◌+◌, ◌≤◌, ◌<◌, ◌≡◌, refl, sym, ap, ◌∙◌, Bool, false, List, [], ◌++◌, map, Option, some, arith,
  length, take, overwrite, length-append, append-nil, take-overwrite, ◌>>=◌,
}
use hao_server.Net.State.{
  Connection, Socket, in_head, in_packet, Session, PkgState, head_init, head_recving, body_init,
  body_recving, pkg_header_len, data_bufsize, pkg_len,
}
use hao_server.Net.Receive.{restart}
use hao_server.Net.Receive.Framing.{Parsed}

-- The run does not fault, and its result satisfies `P`.
pub data Yields {ℓ κ} {A : Type ℓ} (P : A → Type κ) : Option A → Type (ℓ ⊔ κ) where
  yields : {a : A} → P a → Yields P (some a)

pub Yields-bind {ℓ κ ℓ' κ'} :
    {A : Type ℓ} {P : A → Type κ} {B : Type ℓ'} {Q : B → Type κ'} {r : Option A} {f : A → Option B}
    → Yields P r
    → ((a : A) → P a → Yields Q (f a))
    → Yields Q (r >>= f)
Yields-bind (yields p) k = k _ p

-- The bytes of a header in head_info, with room for the rest of it.
pub record InHead (q : List ℕ) (c : Connection) : Type 0 where
  pub short : length q < pkg_header_len
  pub cursor : c.precv_buf ≡ in_head (length q)
  pub missing : c.recv_len + length q ≡ pkg_header_len
  pub bytes : take (length q) c.head_info ≡ q

-- The bytes of a packet in its block, which is as long as its length field says.
pub record InBody (q : List ℕ) (c : Connection) : Type 0 where
  pub header : pkg_header_len ≤ length q
  pub short : length q < pkg_len q
  pub cursor : c.precv_buf ≡ in_packet (length q)
  pub missing : c.recv_len + length q ≡ pkg_len q
  pub block : List ℕ
  pub room : length block ≡ pkg_len q
  pub bytes : take (length q) block ≡ q
  pub owned :
      c.precv_mem_pointer
      ≡ some (record { conn = c.id; cur_sequence_num = c.sequence_num; packet = block })

abbrev pub HoldsIn : PkgState → List ℕ → Connection → Type 0
HoldsIn head_init q c = InHead q c × (q ≡ [])
HoldsIn head_recving q c = InHead q c
HoldsIn body_init q c = InBody q c
HoldsIn body_recving q c = InBody q c

-- The connection has received `q` of a packet that is not complete.
pub record Holds (q : List ℕ) (c : Connection) : Type 0 where
  pub room : length c.head_info ≡ data_bufsize
  pub stage : HoldsIn c.cur_stat q c

-- From a connection with this id and sequence number and this socket object: the packets that are
-- whole have been given to the thread pool, the rest is held, and nothing else has changed.
pub record Advanced (id seq : ℕ) (socket : Socket) (r : Parsed) (t : Session) : Type 0 where
  pub same_id : t.conn.id ≡ id
  pub same_seq : t.conn.sequence_num ≡ seq
  pub holds : Holds r.0 t.conn
  pub pushed : t.socket ≡ record socket {
    tasks = socket.tasks ++ map (λ w. record { conn = id; cur_sequence_num = seq; packet = w }) r.1;
  }

-- The same for a call that also says that there is no flood.
abbrev pub Calm : ℕ → ℕ → Socket → Parsed → Session × Bool → Type 0
Calm id seq socket r t = Advanced id seq socket r t.0 × (t.1 ≡ false)

pub restart-Holds : (c : Connection) → length c.head_info ≡ data_bufsize → Holds [] (restart c)
restart-Holds c room = record {
  room = room;
  stage =
      (record { short = omega arith; cursor = refl; missing = omega arith; bytes = refl }, refl);
}

pub no_tasks : (socket : Socket) → socket ≡ record socket { tasks = socket.tasks ++ [] }
no_tasks socket = ap (λ l. record socket { tasks = l }) (sym (append-nil socket.tasks))

-- A block that begins with `q`, once more bytes are copied behind it.
pub bytes_joined :
    (block q xs : List ℕ)
    → take (length q) block ≡ q
    → length q + length xs ≤ length block
    → take (length (q ++ xs)) (overwrite block (length q) xs) ≡ q ++ xs
bytes_joined block q xs e h =
    ap (λ k. take k (overwrite block (length q) xs)) (length-append q xs)
    ∙ (take-overwrite block (length q) xs h ∙ ap (λ l. l ++ xs) e)

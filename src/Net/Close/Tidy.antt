-- ===== src/Net/Close/Tidy.antt =====
-- What the parts of zd_close_socket_proc of app/net/hao_socket.cpp leave alone.
use hao_server.Base.{
  ℕ, ◌≡◌, refl, ◌∙◌, Bool, true, false, ◌||◌, Option, some, none, ◌==◌, Bool-cases, inl, inr,
}
use hao_server.Base.Int.{pos, ltb_ℤ}
use hao_server.Timestamp.{Timestamp}
use hao_server.Net.State.{Session}
use hao_server.Net.Pool.{contains, close_fd, in_recy_connect_queue}
use hao_server.Net.Close.{lower_throw_send_count}

pub record Tidy (s r : Session) : Type 0 where
  pub same_id : r.conn.id ≡ s.conn.id
  pub same_timer_id : r.conn.timer_id ≡ s.conn.timer_id
  pub same_timer : r.socket.timer ≡ s.socket.timer
  pub same_conns : r.socket.conns ≡ s.socket.conns
  pub waits :
      (i : ℕ)
      → contains i s.socket.recycle_connection_pool ≡ true
      → contains i r.socket.recycle_connection_pool ≡ true

pub Tidy-refl : (s : Session) → Tidy s s
Tidy-refl s = record {
  same_id = refl;
  same_timer_id = refl;
  same_timer = refl;
  same_conns = refl;
  waits = λ i h. h;
}

pub Tidy-trans : {a b c : Session} → Tidy a b → Tidy b c → Tidy a c
Tidy-trans f g = record {
  same_id = g.same_id ∙ f.same_id;
  same_timer_id = g.same_timer_id ∙ f.same_timer_id;
  same_timer = g.same_timer ∙ f.same_timer;
  same_conns = g.same_conns ∙ f.same_conns;
  waits = λ i h. g.waits i (f.waits i h);
}

pub close_fd-Tidy : (fd : Option ℕ) (s : Session) → Tidy s (close_fd fd s)
unfolding close_fd
close_fd-Tidy none s = Tidy-refl s
close_fd-Tidy (some fd) s = record {
  same_id = refl;
  same_timer_id = refl;
  same_timer = refl;
  same_conns = refl;
  waits = λ i h. h;
}

pub lower-Tidy : (s : Session) → Tidy s (lower_throw_send_count s)
unfolding lower_throw_send_count
lower-Tidy s = elim (Bool-cases (ltb_ℤ (pos 0) s.conn.throw_send_count)) [
  | inl e ↦ rw e (record {
    same_id = refl;
    same_timer_id = refl;
    same_timer = refl;
    same_conns = refl;
    waits = λ i h. h;
  })
  | inr e ↦ rw e (Tidy-refl s)
]

pub or_true : (b : Bool) → (b || true) ≡ true
or_true true = refl
or_true false = refl

pub in_recy-Tidy : (now : Timestamp) (s : Session) → Tidy s (in_recy_connect_queue now s)
unfolding in_recy_connect_queue
in_recy-Tidy now s = elim (Bool-cases (contains s.conn.id s.socket.recycle_connection_pool)) [
  | inl old ↦ rw old (Tidy-refl s)
  | inr new ↦ rw new (record {
    same_id = refl;
    same_timer_id = refl;
    same_timer = refl;
    same_conns = refl;
    waits = λ i h. rw h (or_true (s.conn.id == i));
  })
]

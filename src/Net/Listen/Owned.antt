-- ===== src/Net/Listen/Owned.antt =====
-- What becomes of the descriptors that OpenListeningSockets of app/net/hao_socket.cpp gets.
use hao_server.Base.{
  ℕ, zero, suc, ◌+◌, ◌≤◌, ◌<◌, ◌≡◌, refl, sym, ap, ◌∙◌, subst, Bool, true, false, List, [], ◌∷◌,
  ◌++◌, Option, none, some, ◌>>=◌, if◌then◌else◌, Bool-cases, Option-cases, inl, inr, arith, count,
  count-append, length, length-append,
}
use mathlib.Core.Option.{some-injective}
use hao_server.Config.{
  JsonValue, object, bool, int, double, string, array, Items, no_items, item, no_fields, item_at,
  count_items, at_index, at_key, size,
}
use hao_server.Address.{InternetAddress}
use hao_server.Net.Listen.{
  Listening, Listeners, Attempt, open_one, open_from, open_listening_sockets, sockfds,
  entry_address, close_it, listen_key, net_key,
}

-- The descriptors that the socket object has, and those that are closed
abbrev pub all_fds : Listeners → List ℕ
all_fds s = sockfds s.listen_socket_list ++ s.closed

-- What `socket` gave in these rounds
abbrev pub succeeds : Attempt → Bool
succeeds a = elim a.socket_fd [
  | none ↦ false
  | some fd ↦ if a.reuse_address_ok then (if a.bind_ok then a.listen_ok else false) else false
]

abbrev pub got : Attempt → List ℕ
got a = elim a.socket_fd [ none ↦ [] | some fd ↦ fd ∷ [] ]

abbrev pub given : ℕ → List Attempt → List ℕ
given zero attempts = []
given (suc k) [] = []
given (suc k) (a ∷ attempts) =
    let more = given k attempts in got a ++ (if succeeds a then more else [])

-- A round: the descriptor is in the list if it succeeds, and closed if it does not.
record Tried (a : Attempt) (s : Listeners) (r : Listeners × Bool) : Type 0 where
  goes_on : r.1 ≡ succeeds a
  owned : (x : ℕ) → count x (all_fds (r.0)) ≡ count x (all_fds s) + count x (got a)
  kept :
      r.1 ≡ true
      → ((r.0).closed ≡ s.closed)
        × (length (r.0).listen_socket_list ≡ suc (length s.listen_socket_list))

sockfds-append : (xs ys : List Listening) → sockfds (xs ++ ys) ≡ sockfds xs ++ sockfds ys
sockfds-append [] ys = refl
sockfds-append (x ∷ xs) ys = ap (λ l. x.sockfd ∷ l) (sockfds-append xs ys)

-- A failure behind `socket` closes the descriptor.
closed-Tried :
    (a : Attempt) (fd : ℕ) (s : Listeners)
    → a.socket_fd ≡ some fd
    → succeeds a ≡ false
    → Tried a s (close_it fd s, false)
closed-Tried a fd s is fails = record {
  goes_on = sym fails;
  owned = λ x.
      let fds = ap (λ o. count x (elim o [ none ↦ [] | some k ↦ k ∷ [] ])) is in
      omega (
        arith,
        fds,
        count-append x (sockfds s.listen_socket_list) (s.closed ++ fd ∷ []),
        count-append x (sockfds s.listen_socket_list) s.closed,
        count-append x s.closed (fd ∷ []),
      );
  kept = λ e. absurd (cc e);
}

abbrev attempt : Option ℕ → Bool → Bool → Bool → Attempt
attempt fd address bound listens = record {
  socket_fd = fd;
  reuse_address_ok = address;
  bind_ok = bound;
  listen_ok = listens;
}

each_attempt :
    (address : InternetAddress) (s : Listeners) (fd : Option ℕ) (a b c : Bool)
    → Tried (attempt fd a b c) s (open_one address (attempt fd a b c) s)
unfolding open_one
each_attempt address s none a b c = record {
  goes_on = refl;
  owned = λ x. omega arith;
  kept = λ e. absurd (cc e);
}
each_attempt address s (some fd) false b c =
    closed-Tried (attempt (some fd) false b c) fd s refl refl
each_attempt address s (some fd) true false c =
    closed-Tried (attempt (some fd) true false c) fd s refl refl
each_attempt address s (some fd) true true false =
    closed-Tried (attempt (some fd) true true false) fd s refl refl
each_attempt address s (some fd) true true true =
    let new : Listening = record { sockfd = fd; listen_address = address } in
    record {
      goes_on = refl;
      owned = λ x. rw (sockfds-append s.listen_socket_list (new ∷ [])) (
          omega (
            arith,
            count-append x (sockfds s.listen_socket_list ++ fd ∷ []) s.closed,
            count-append x (sockfds s.listen_socket_list) (fd ∷ []),
            count-append x (sockfds s.listen_socket_list) s.closed,
          ));
      kept = λ e. (refl, omega (arith, length-append s.listen_socket_list (new ∷ [])));
    }

open_one-Tried :
    (address : InternetAddress) (a : Attempt) (s : Listeners) → Tried a s (open_one address a s)
open_one-Tried address a s =
    each_attempt address s a.socket_fd a.reuse_address_ok a.bind_ok a.listen_ok

-- What the loop leaves of `s` after these answers, with `k` entries of the configuration left
pub record Owned (k : ℕ) (attempts : List Attempt) (s : Listeners) (r : Listeners × Bool)
    : Type 0 where
  pub owned : (x : ℕ) → count x (all_fds (r.0)) ≡ count x (all_fds s) + count x (given k attempts)
  pub kept :
      r.1 ≡ true
      → ((r.0).closed ≡ s.closed)
        × (length (r.0).listen_socket_list ≡ length s.listen_socket_list + k)

next-Owned :
    (k : ℕ) (a : Attempt) (attempts : List Attempt) (s : Listeners) (tried r : Listeners × Bool)
    → Tried a s tried
    → tried.1 ≡ true
    → Owned k attempts (tried.0) r
    → Owned (suc k) (a ∷ attempts) s r
next-Owned k a attempts s tried r one on more =
    let goes : succeeds a ≡ true = sym one.goes_on ∙ on in
    record {
      owned = λ x.
          rw goes
            (omega (arith, more.owned x, one.owned x, count-append x (got a) (given k attempts)));
      kept = λ done. (
        (more.kept done).0 ∙ (one.kept on).0,
        omega (arith, (more.kept done).1, (one.kept on).1),
      );
    }

last-Owned :
    (k : ℕ) (a : Attempt) (attempts : List Attempt) (s : Listeners) (tried : Listeners × Bool)
    → Tried a s tried
    → tried.1 ≡ false
    → Owned (suc k) (a ∷ attempts) s tried
last-Owned k a attempts s tried one off =
    let stops : succeeds a ≡ false = sym one.goes_on ∙ off in
    record {
      owned = λ x. rw stops (omega (arith, one.owned x, count-append x (got a) []));
      kept = λ done. absurd (cc (off, done));
    }

open_from-Owned :
    (before : InternetAddress) (listen : JsonValue) (i k : ℕ) (attempts : List Attempt)
    (s : Listeners) (r : Listeners × Bool)
    → open_from before listen i k attempts s ≡ some r
    → Owned k attempts s r
unfolding open_from
open_from-Owned before listen i zero attempts s r e =
    subst (Owned zero attempts s) (some-injective _ _ e)
      (record { owned = λ x. omega arith; kept = λ done. (refl, omega arith) })
open_from-Owned before listen i (suc k) [] s r e = absurd (cc e)
open_from-Owned before listen i (suc k) (a ∷ attempts) s r e =
    elim (Option-cases (at_index i listen)) [
      | inl outside ↦ absurd (
          cc (
            sym (
              ap
                (λ o. o >>= λ entry.
                  let tried = open_one (entry_address before entry) a s in
                  let rest = open_from before listen (suc i) k attempts (tried.0) in
                  if tried.1 then rest else some tried)
                outside)
            ∙ e))
      | inr (entry, is) ↦
          let tried = open_one (entry_address before entry) a s in
          let one = open_one-Tried (entry_address before entry) a s in
          let rest = open_from before listen (suc i) k attempts (tried.0) in
          let body : (if tried.1 then rest else some tried) ≡ some r =
            sym (
              ap
                (λ o. o >>= λ entry.
                  let tried = open_one (entry_address before entry) a s in
                  let rest = open_from before listen (suc i) k attempts (tried.0) in
                  if tried.1 then rest else some tried)
                is)
            ∙ e in
          elim (Bool-cases (tried.1)) [
            | inl on ↦ next-Owned k a attempts s tried r one on (
                open_from-Owned before listen (suc i) k attempts (tried.0) r
                  (sym (ap (λ b. if b then rest else some tried) on) ∙ body))
            | inr off ↦
                subst (Owned (suc k) (a ∷ attempts) s)
                  (some-injective _ _ (sym (ap (λ b. if b then rest else some tried) off) ∙ body))
                  (last-Owned k a attempts s tried one off)
          ]
    ]

item_at-inside :
    (i : ℕ) (vs : Items) → i < count_items vs → (v : JsonValue) × (item_at i vs ≡ some v)
item_at-inside i no_items h = absurd (omega (arith, h))
item_at-inside zero (item v vs) h = (v, refl)
item_at-inside (suc i) (item v vs) h = item_at-inside i vs (omega (arith, h))

at_index-inside : (i : ℕ) (v : JsonValue) → i < size v → (w : JsonValue) × (at_index i v ≡ some w)
unfolding at_index size
at_index-inside i (array vs) h = item_at-inside i vs h
at_index-inside i (object fs) h = (object no_fields, refl)
at_index-inside i (bool b) h = (object no_fields, refl)
at_index-inside i (int n) h = (object no_fields, refl)
at_index-inside i (double d) h = (object no_fields, refl)
at_index-inside i (string cs) h = (object no_fields, refl)

open_from-total :
    (before : InternetAddress) (listen : JsonValue) (i k : ℕ) (attempts : List Attempt)
    (s : Listeners)
    → i + k ≤ size listen
    → k ≤ length attempts
    → (r : Listeners × Bool) × (open_from before listen i k attempts s ≡ some r)
unfolding open_from
open_from-total before listen i zero attempts s inside enough = ((s, true), refl)
open_from-total before listen i (suc k) [] s inside enough = absurd (omega (arith, enough))
open_from-total before listen i (suc k) (a ∷ attempts) s inside enough =
    let (entry, is) = at_index-inside i listen (omega (arith, inside)) in
    let tried = open_one (entry_address before entry) a s in
    let (r, done) =
      open_from-total before listen (suc i) k attempts (tried.0) (omega (arith, inside))
        (omega (arith, enough)) in
    elim (Bool-cases (tried.1)) [
      | inl on ↦ (r, rw (is, on) done)
      | inr off ↦ (tried, rw (is, off) refl)
    ]

-- With an answer for each entry of the configuration OpenListeningSockets comes back, without a read
-- out of bounds. Whatever the answers are, each descriptor that `socket` gave it, up to the first
-- failure, is in the list or closed, as often as it was given. Where the result is true it has closed
-- none, and the list has one socket more for each entry.
pub open_listening_sockets-Owned :
    (before : InternetAddress) (config : JsonValue) (attempts : List Attempt) (s : Listeners)
    → size (at_key listen_key (at_key net_key config)) ≤ length attempts
    → (r : Listeners × Bool) × (open_listening_sockets before config attempts s ≡ some r)
      × Owned (size (at_key listen_key (at_key net_key config))) attempts s r
unfolding open_listening_sockets
open_listening_sockets-Owned before config attempts s enough =
    let listen = at_key listen_key (at_key net_key config) in
    let (r, done) = open_from-total before listen 0 (size listen) attempts s (omega arith) enough in
    (r, done, open_from-Owned before listen 0 (size listen) attempts s r done)

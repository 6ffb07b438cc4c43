-- ===== src/Net/Flood/Streak.antt =====
-- Which packets TestFlood (app/net/hao_socket.cpp) reports.
use hao_server.Base.{
  inl, inr, Bool-cases, ℕ, zero, suc, ◌+◌, ◌≤◌, ◌≡◌, ◌↔◌, refl, sym, ap, ◌∙◌, Bool, true, List, [],
  ◌∷◌, arith, leb, if◌then◌else◌,
}
use hao_server.Timestamp.{Timestamp, minus, lt_milliseconds}
use hao_server.Net.State.{Session, Socket}
use hao_server.Net.Flood.{test_flood}

-- TestFlood at each of the times, the newest of which comes first.
pub test_floods : List Timestamp → Session → Session
test_floods [] s = s
test_floods (t ∷ ts) s = (test_flood t (test_floods ts s)).0

-- The time of the newest of these packets; `first` is that before the oldest.
abbrev pub newest : Timestamp → List Timestamp → Timestamp
newest first [] = first
newest first (t ∷ ts) = t

-- The newest `k` packets each came within the interval after the packet before it.
abbrev pub ShortGaps : ℕ → ℕ → Timestamp → List Timestamp → Type 0
ShortGaps interval zero first ts = Unit
ShortGaps interval (suc k) first [] = ⊥
ShortGaps interval (suc k) first (t ∷ ts) =
    (lt_milliseconds (minus t (newest first ts)) interval ≡ true) × ShortGaps interval k first ts

kept_config : (ts : List Timestamp) (s : Session) → (test_floods ts s).socket ≡ s.socket
unfolding test_floods test_flood
kept_config [] s = refl
kept_config (t ∷ ts) s = kept_config ts s

kept_time :
    (ts : List Timestamp) (s : Session)
    → (test_floods ts s).conn.flood_kick_last_time ≡ newest s.conn.flood_kick_last_time ts
unfolding test_floods test_flood
kept_time [] s = refl
kept_time (t ∷ ts) s = refl

one_more :
    (t : Timestamp) (u : Session)
    → (test_flood t u).0.conn.flood_attack_count ≡ (
        if lt_milliseconds (minus t u.conn.flood_kick_last_time) u.socket.flood_time_interval
        then u.conn.flood_attack_count + 1
        else 0)
unfolding test_flood
one_more t u = refl

-- The counter reaches `k` exactly when the newest `k` gaps are short.
count_iff :
    (k : ℕ) (ts : List Timestamp) (s : Session)
    → s.conn.flood_attack_count ≡ 0
    → (k ≤ (test_floods ts s).conn.flood_attack_count)
      ↔ ShortGaps s.socket.flood_time_interval k s.conn.flood_kick_last_time ts
unfolding test_floods
count_iff zero ts s e = ((λ h. tt), λ h. omega arith)
count_iff (suc k) [] s e = ((λ h. absurd (omega arith)), λ h. elim h [ ])
count_iff (suc k) (t ∷ ts) s e =
    let ih = count_iff k ts s e in
    rw (one_more t (test_floods ts s), kept_time ts s, kept_config ts s)
      (elim (Bool-cases short) [
        | inl yes_short ↦
            rw yes_short ((λ h. (refl, ih.0 (omega arith))), λ h. omega (arith, ih.1 h.1))
        | inr no_short ↦ rw no_short ((λ h. absurd (omega arith)), λ h. cc (h.0))
      ])
  where
    short : Bool
    short =
        lt_milliseconds (minus t (newest s.conn.flood_kick_last_time ts))
          s.socket.flood_time_interval

flagged :
    (t : Timestamp) (ts : List Timestamp) (s : Session)
    → (test_flood t (test_floods ts s)).1
      ≡ leb s.socket.flood_kick_count (test_floods (t ∷ ts) s).conn.flood_attack_count
unfolding test_floods test_flood
flagged t ts s =
    ap
      (λ (k : Socket). leb k.flood_kick_count (
        if lt_milliseconds (minus t (test_floods ts s).conn.flood_kick_last_time)
          k.flood_time_interval
        then (test_floods ts s).conn.flood_attack_count + 1
        else 0))
      (kept_config ts s)
    ∙ ap
        (λ (k : Socket). leb s.socket.flood_kick_count (
          if lt_milliseconds (minus t (test_floods ts s).conn.flood_kick_last_time)
            k.flood_time_interval
          then (test_floods ts s).conn.flood_attack_count + 1
          else 0))
        (sym (kept_config ts s))

-- TestFlood reports a packet exactly when it and the packets before it end in as many gaps shorter
-- than the interval, without a break, as flood_kick_count says; for a connection whose counter
-- starts at zero.
pub test_flood_iff :
    (t : Timestamp) (ts : List Timestamp) (s : Session)
    → s.conn.flood_attack_count ≡ 0
    → ((test_flood t (test_floods ts s)).1 ≡ true)
      ↔ ShortGaps s.socket.flood_time_interval s.socket.flood_kick_count s.conn.flood_kick_last_time
          (t ∷ ts)
test_flood_iff t ts s e =
    let reaches = count_iff s.socket.flood_kick_count (t ∷ ts) s e in
    ((λ h. reaches.0 (flagged_iff.0 h)), λ h. flagged_iff.1 (reaches.1 h))
  where
    flagged_iff :
        ((test_flood t (test_floods ts s)).1 ≡ true)
        ↔ (s.socket.flood_kick_count ≤ (test_floods (t ∷ ts) s).conn.flood_attack_count)
    flagged_iff = ground (arith, flagged t ts s)

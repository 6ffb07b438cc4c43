-- ===== src/Net/Settings.antt =====
-- Socket::ReadConfig of app/net/hao_socket.cpp: the values that the socket object takes from the
-- configuration. The flag TimeOutKick, which nothing uses, is left out.
use hao_server.Base.{
  ℕ, ◌^◌, ◌<◌, ◌≤◌, ◌≡◌, ◌∙◌, refl, ap, Bool, true, false, ◌==◌, List, [], ◌∷◌, Option, none, some,
  ◌>>=◌, ltb, if◌then◌else◌, arith,
}
use hao_server.Base.Int.{ℤ, pos, negsuc}
use hao_server.Config.{
  JsonValue, int, bool, object, no_fields, field, at_key, as_int, as_bool, show, compare_text,
  find_field,
}
use hao_server.Config.Outcome.{Outcome, ok}
use hao_server.Config.Parser.{parser}
use hao_server.Config.Printable.{IsPlain, IsPrintable}
use hao_server.Config.RoundTrip.{parser-show}
use hao_server.Net.State.{NetConfig}

abbrev net_key : List ℕ
net_key = b'N' ∷ b'e' ∷ b't' ∷ []

abbrev security_key : List ℕ
security_key = b'S' ∷ b'e' ∷ b'c' ∷ b'u' ∷ b'r' ∷ b'i' ∷ b't' ∷ b'y' ∷ []

abbrev worker_connections_key : List ℕ
worker_connections_key =
    b'W' ∷ b'o' ∷ b'r' ∷ b'k' ∷ b'e' ∷ b'r' ∷ b'C' ∷ b'o' ∷ b'n' ∷ b'n' ∷ b'e' ∷ b'c' ∷ b't' ∷ b'i'
    ∷ b'o' ∷ b'n' ∷ b's' ∷ []

abbrev recycle_connection_wait_time_key : List ℕ
recycle_connection_wait_time_key =
    b'R' ∷ b'e' ∷ b'c' ∷ b'y' ∷ b'c' ∷ b'l' ∷ b'e' ∷ b'C' ∷ b'o' ∷ b'n' ∷ b'n' ∷ b'e' ∷ b'c' ∷ b't'
    ∷ b'i' ∷ b'o' ∷ b'n' ∷ b'W' ∷ b'a' ∷ b'i' ∷ b't' ∷ b'T' ∷ b'i' ∷ b'm' ∷ b'e' ∷ []

abbrev wait_time_enable_key : List ℕ
wait_time_enable_key =
    b'W' ∷ b'a' ∷ b'i' ∷ b't' ∷ b'T' ∷ b'i' ∷ b'm' ∷ b'e' ∷ b'E' ∷ b'n' ∷ b'a' ∷ b'b' ∷ b'l' ∷ b'e'
    ∷ []

abbrev max_wait_time_key : List ℕ
max_wait_time_key = b'M' ∷ b'a' ∷ b'x' ∷ b'W' ∷ b'a' ∷ b'i' ∷ b't' ∷ b'T' ∷ b'i' ∷ b'm' ∷ b'e' ∷ []

abbrev flood_attack_kick_enable_key : List ℕ
flood_attack_kick_enable_key =
    b'F' ∷ b'l' ∷ b'o' ∷ b'o' ∷ b'd' ∷ b'A' ∷ b't' ∷ b't' ∷ b'a' ∷ b'c' ∷ b'k' ∷ b'K' ∷ b'i' ∷ b'c'
    ∷ b'k' ∷ b'E' ∷ b'n' ∷ b'a' ∷ b'b' ∷ b'l' ∷ b'e' ∷ []

abbrev flood_time_interval_key : List ℕ
flood_time_interval_key =
    b'F' ∷ b'l' ∷ b'o' ∷ b'o' ∷ b'd' ∷ b'T' ∷ b'i' ∷ b'm' ∷ b'e' ∷ b'I' ∷ b'n' ∷ b't' ∷ b'e' ∷ b'r'
    ∷ b'v' ∷ b'a' ∷ b'l' ∷ []

abbrev flood_kick_counter_key : List ℕ
flood_kick_counter_key =
    b'F' ∷ b'l' ∷ b'o' ∷ b'o' ∷ b'd' ∷ b'K' ∷ b'i' ∷ b'c' ∷ b'k' ∷ b'C' ∷ b'o' ∷ b'u' ∷ b'n' ∷ b't'
    ∷ b'e' ∷ b'r' ∷ []

-- A number that the model has no place for is negative.
abbrev natural : ℤ → Option ℕ
natural (pos n) = some n
natural (negsuc n) = none

-- config[group][key] as an int
abbrev number_of : List ℕ → List ℕ → JsonValue → Option ℕ
number_of group key config = natural (as_int (at_key key (at_key group config)))

abbrev flag_of : List ℕ → List ℕ → JsonValue → Bool
flag_of group key config = as_bool (at_key key (at_key group config))

abbrev at_least_5 : ℤ → ℕ
at_least_5 (pos n) = if ltb 5 n then n else 5
at_least_5 (negsuc n) = 5

unfoldable pub read_config : JsonValue → Option NetConfig
read_config config = do
  connections ← number_of net_key worker_connections_key config
  recycle ← number_of net_key recycle_connection_wait_time_key config
  let wait = at_least_5 (as_int (at_key max_wait_time_key (at_key net_key config)))
  interval ← number_of security_key flood_time_interval_key config
  count ← number_of security_key flood_kick_counter_key config
  some (record {
    worker_connections = connections;
    recycle_connection_wait_time = recycle;
    if_kick_time_count = flag_of net_key wait_time_enable_key config;
    wait_time = wait;
    flood_ak_enable = flag_of security_key flood_attack_kick_enable_key config;
    flood_time_interval = interval;
    flood_kick_count = count;
  })

-- The configuration with these values, its keys in the order of std::map
abbrev pub config_of : NetConfig → JsonValue
config_of c = object (
    field net_key
      (object (
        field max_wait_time_key (int (pos c.wait_time)) (
          field recycle_connection_wait_time_key (int (pos c.recycle_connection_wait_time)) (
            field wait_time_enable_key (bool c.if_kick_time_count)
              (field worker_connections_key (int (pos c.worker_connections)) no_fields)))))
      (field security_key
        (object (
          field flood_attack_kick_enable_key (bool c.flood_ak_enable) (
            field flood_kick_counter_key (int (pos c.flood_kick_count))
              (field flood_time_interval_key (int (pos c.flood_time_interval)) no_fields))))
        no_fields))

-- Each number fits an int, and the wait is at least the 5 seconds that ReadConfig sets at least.
abbrev pub FitsConfig : NetConfig → Type 0
FitsConfig c =
    (c.worker_connections < 2 ^ 31)
    × (c.recycle_connection_wait_time < 2 ^ 31)
    × (5 ≤ c.wait_time)
    × (c.wait_time < 2 ^ 31)
    × (c.flood_time_interval < 2 ^ 31)
    × (c.flood_kick_count < 2 ^ 31)

abbrev pub after_parser : Outcome (JsonValue × List ℕ) → Option NetConfig
after_parser (ok (v, rest)) = read_config v
after_parser r = none

read_config-config_of : (c : NetConfig) → FitsConfig c → read_config (config_of c) ≡ some c
unfolding read_config at_key as_int as_bool find_field compare_text
read_config-config_of c h =
    ap (λ w. some (record c { wait_time = w })) (long_enough c.wait_time h.2)
  where
    long_enough : (n : ℕ) → 5 ≤ n → at_least_5 (pos n) ≡ n
    long_enough n h = ground (arith, h)

-- A text is plain if a search for a quote finds none.
abbrev without_quote : List ℕ → Bool
without_quote [] = true
without_quote (c ∷ cs) = if c == b'"' then false else without_quote cs

without_quote-IsPlain : (cs : List ℕ) → without_quote cs ≡ true → IsPlain cs
without_quote-IsPlain [] h = tt
without_quote-IsPlain (c ∷ cs) h =
    elim (c == b'"')
        as (λ b. (if b then false else without_quote cs) ≡ true → (b ≡ false) × IsPlain cs) [
          | true ↦ cc
          | false ↦ λ h. (refl, without_quote-IsPlain cs h)
        ]
      h

config_of-IsPrintable : (c : NetConfig) → FitsConfig c → IsPrintable (config_of c)
unfolding compare_text
config_of-IsPrintable c (workers, recycle, least, wait, interval, count) =
    let plain = without_quote-IsPlain in
    (
      plain net_key refl,
      (refl, tt),
      (
        plain max_wait_time_key refl,
        (refl, (refl, (refl, tt))),
        wait,
        (
          plain recycle_connection_wait_time_key refl,
          (refl, (refl, tt)),
          recycle,
          (
            plain wait_time_enable_key refl,
            (refl, tt),
            tt,
            (plain worker_connections_key refl, tt, workers, tt),
          ),
        ),
      ),
      (
        plain security_key refl,
        tt,
        (
          plain flood_attack_kick_enable_key refl,
          (refl, (refl, tt)),
          tt,
          (
            plain flood_kick_counter_key refl,
            (refl, tt),
            count,
            (plain flood_time_interval_key refl, tt, interval, tt),
          ),
        ),
        tt,
      ),
    )

-- Settings that fit into ints, the wait at least 5 seconds: the text of a configuration with them,
-- as JsonValue::str writes it, is parsed and read by ReadConfig to the same settings.
pub loaded_config :
    (show_double : ℕ → List ℕ) (stof : List ℕ → Option ℕ) (c : NetConfig)
    → FitsConfig c
    → after_parser (parser stof [] (show show_double (config_of c))) ≡ some c
loaded_config show_double stof c h =
    ap after_parser (parser-show show_double stof (config_of c) (config_of-IsPrintable c h))
    ∙ read_config-config_of c h

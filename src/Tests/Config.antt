-- ===== src/Tests/Config.antt =====
-- A configuration with a list of numbers, a flag and a text, and broken ones.
use hao_server.Base.{ℕ, ◌≡◌, ◌++◌, arith, refl, List, [], ◌∷◌, true, Option, none, some}
use hao_server.Base.Int.{pos, negsuc}
use hao_server.Base.Decimal.{decimal, decimal_up_to}
use hao_server.Config.{
  JsonValue, int, bool, string, array, object, item, no_items, field, no_fields, show, show_int,
  compare_text,
}
use hao_server.Config.Outcome.{ok, Settles}
use hao_server.Config.Parser.{parser, parser_val}
use hao_server.Config.RoundTrip.{parser_val-show}
use hao_server.Config.Total.{parser-Settles, Shorter}
use hao_server.Net.State.{NetConfig}
use hao_server.Net.Settings.{loaded_config, config_of, after_parser}

abbrev no_doubles : ℕ → List ℕ
no_doubles d = []

abbrev no_stof : List ℕ → Option ℕ
no_stof s = none

-- {"a":[-2,17],"b":true,"c":"hi"}
abbrev ports : JsonValue
ports = object (
    field (b'a' ∷ []) (array (item (int (negsuc 1)) (item (int (pos 17)) no_items)))
      (field (b'b' ∷ []) (bool true) (field (b'c' ∷ []) (string (b'h' ∷ b'i' ∷ [])) no_fields)))

-- With a comma behind it
parser_val-show_example :
    parser_val no_stof 100 (show no_doubles ports ++ b',' ∷ []) ≡ ok (ports, b',' ∷ [])
unfolding show show_int compare_text decimal decimal_up_to
parser_val-show_example =
    parser_val-show no_doubles no_stof ports 100 (b',' ∷ [])
      (
        (refl, tt),
        (refl, (refl, tt)),
        (omega arith, (omega arith, tt)),
        ((refl, tt), (refl, tt), tt, ((refl, tt), tt, (refl, (refl, tt)), tt)),
      )
      (omega arith) refl

parser-Settles_example :
    Settles (Shorter (b'7' ∷ b'[' ∷ [])) (parser no_stof (b'7' ∷ []) (b'[' ∷ []))
parser-Settles_example = parser-Settles no_stof (b'7' ∷ []) (b'[' ∷ [])

abbrev settings : NetConfig
settings = record {
  worker_connections = 1024;
  recycle_connection_wait_time = 150;
  if_kick_time_count = true;
  wait_time = 20;
  flood_ak_enable = true;
  flood_time_interval = 100;
  flood_kick_count = 10;
}

loaded_config_example :
    after_parser (parser no_stof [] (show no_doubles (config_of settings))) ≡ some settings
loaded_config_example =
    loaded_config no_doubles no_stof settings
      (omega arith, omega arith, omega arith, omega arith, omega arith, omega arith)

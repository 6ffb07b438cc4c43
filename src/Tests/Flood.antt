-- ===== src/Tests/Flood.antt =====
-- A client that sends packets 10,000 and 20,000 microseconds after the epoch.
use hao_server.Base.{ℕ, ◌≡◌, ◌↔◌, refl, true, [], ◌∷◌}
use hao_server.Base.Int.{pos}
use hao_server.Timestamp.{Timestamp}
use hao_server.Net.Flood.{test_flood}
use hao_server.Net.Flood.Streak.{test_floods, ShortGaps, test_flood_iff}
use hao_server.Tests.Fixtures.{connected, zero_time}

abbrev at_us : ℕ → Timestamp
at_us n = record { micro_seconds_since_epoch = pos n }

test_flood_iff_example :
    ((test_flood (at_us 20000) (test_floods (at_us 10000 ∷ []) connected)).1 ≡ true)
    ↔ ShortGaps 100 10 zero_time (at_us 20000 ∷ at_us 10000 ∷ [])
test_flood_iff_example = test_flood_iff (at_us 20000) (at_us 10000 ∷ []) connected refl

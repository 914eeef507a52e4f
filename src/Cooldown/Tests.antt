-- ===== src/Cooldown/Tests.antt =====
-- A send, and the checks an hour later.
use crypto_radar.Base.{ℕ, ◌-◌, ◌*◌, ◌/◌, String, ◌≡◌, ◌↔◌, false, some, []}
use crypto_radar.Base.Dict.{Dict}
use crypto_radar.Invocation.Lease.{Instant, second}
use crypto_radar.Cooldown.{Pair, Sent, Limits, jumped, check_cooldown, record_send}
use crypto_radar.Cooldown.Restart.{refused_iff}
use crypto_radar.Router.Tests.{hundredths}

abbrev limits : Limits ℕ
limits = record {
  cooldown_hours = 400;
  opportunity_jump = 1_500;
  elapsed_hours = λ now sent. (now - sent) / (36 * second);
}

abbrev btc : Pair
btc = record { asset = "BTC"; model = "SONNET" }

abbrev one_hour : Instant
one_hour = 3_600 * second

abbrev nothing : Dict Pair (Sent ℕ)
nothing = []

abbrev squeeze : String
squeeze = "SQUEEZE_RELEASE"

abbrev long : String
long = "LONG"

refused_iff_example :
    ((check_cooldown hundredths limits btc one_hour "SQUEEZE_RELEASE" "LONG"
        (some 8_100)
        (record_send btc 0 "SQUEEZE_RELEASE" "LONG" (some 8_000) nothing)).allowed
      ≡ false)
    ↔ ((hundredths.at_least (limits.elapsed_hours one_hour 0) limits.cooldown_hours ≡ false)
        × (squeeze ≡ squeeze)
        × (long ≡ long)
        × (jumped hundredths limits (some 8_100) (some 8_000) ≡ false))
refused_iff_example =
    refused_iff hundredths limits btc 0 one_hour "SQUEEZE_RELEASE" "LONG" (some 8_000) nothing
      "SQUEEZE_RELEASE" "LONG" (some 8_100)

-- ===== src/TradingMode/Tests.antt =====
-- Concrete modes.
use crypto_radar.Base.{String, ◌≡◌, ◌↔◌, true, false, some}
use crypto_radar.TradingMode.{TradingMode, value, parse_trading_mode, allows_private_reads, le}
use crypto_radar.TradingMode.Order.{parse_exact, private_reads_upward}

abbrev lower_case : String
lower_case = "paper"

parse_exact_example :
    (parse_trading_mode lower_case ≡ some TradingMode.paper)
    ↔ (lower_case ≡ value TradingMode.paper)
parse_exact_example = parse_exact lower_case TradingMode.paper

private_reads_upward_example :
    (le TradingMode.shadow_live TradingMode.micro_live ≡ true
      → allows_private_reads TradingMode.shadow_live ≡ true
      → allows_private_reads TradingMode.micro_live ≡ true)
    × (le TradingMode.shadow_live TradingMode.paper ≡ true
        → allows_private_reads TradingMode.shadow_live ≡ false)
private_reads_upward_example = private_reads_upward TradingMode.shadow_live TradingMode.micro_live

-- ===== src/TradingMode/Order.antt =====
-- The reading of a mode and the order of the modes.
use text.Mathlib.TextEquality.{eq_iff}
use crypto_radar.Base.{String, ◌≡◌, ◌↔◌, true, false, some, List, [], ◌∷◌, arith, refl}
use crypto_radar.TradingMode.{
  TradingMode, order, value, named, parse_trading_mode, allows_private_reads, le,
}

named_sound :
    (v : String) (m : TradingMode) (ms : List TradingMode) → named v ms ≡ some m → v ≡ value m
named_sound v m [] h = ground arith
named_sound v m (x ∷ xs) h = ground (arith, eq_iff v (value x), named_sound v m xs)

parse-value : (m : TradingMode) → parse_trading_mode (value m) ≡ some m
parse-value TradingMode.analysis_only = refl
parse-value TradingMode.retrospective = refl
parse-value TradingMode.paper = refl
parse-value TradingMode.shadow_live = refl
parse-value TradingMode.micro_live = refl
parse-value TradingMode.constrained_live = refl
parse-value TradingMode.approved_envelope = refl

-- A text is read as a trading mode exactly if it is the mode's name, letter for letter.
pub parse_exact : (v : String) (m : TradingMode) → (parse_trading_mode v ≡ some m) ↔ (v ≡ value m)
parse_exact v m = ground (arith, named_sound v m order, parse-value m)

-- A mode that allows private reads still allows them after any progress in the order, and the paper
-- mode and every mode below it allow none.
pub private_reads_upward :
    (m m' : TradingMode)
    → (le m m' ≡ true → allows_private_reads m ≡ true → allows_private_reads m' ≡ true)
      × (le m TradingMode.paper ≡ true → allows_private_reads m ≡ false)
private_reads_upward m m' = ground arith

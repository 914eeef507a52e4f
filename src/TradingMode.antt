-- ===== src/TradingMode.antt =====
-- radar_v08/domain/trading_mode.py: the modes of the trading program in their fixed order.
pub mod Order
pub mod Tests
use text.Mathlib.Text.{◌==◌}
use crypto_radar.Base.{
  ℕ, zero, suc, String, ◌≡◌, Bool, true, false, Option, none, some, List, [], ◌∷◌, arith, ltb, leb,
  nat_beq, if◌then◌else◌,
}

pub data TradingMode : Type 0 where
  analysis_only retrospective paper shadow_live micro_live constrained_live approved_envelope :
      TradingMode

-- `_ORDER`
abbrev pub order : List TradingMode
order =
    analysis_only ∷ retrospective ∷ paper ∷ shadow_live ∷ micro_live ∷ constrained_live
    ∷ approved_envelope ∷ []

-- `mode.value`
abbrev pub value : TradingMode → String
value analysis_only = "ANALYSIS_ONLY"
value retrospective = "RETROSPECTIVE"
value paper = "PAPER"
value shadow_live = "SHADOW_LIVE"
value micro_live = "MICRO_LIVE"
value constrained_live = "CONSTRAINED_LIVE"
value approved_envelope = "APPROVED_ENVELOPE"

abbrev mode_eq : TradingMode → TradingMode → Bool
mode_eq analysis_only analysis_only = true
mode_eq retrospective retrospective = true
mode_eq paper paper = true
mode_eq shadow_live shadow_live = true
mode_eq micro_live micro_live = true
mode_eq constrained_live constrained_live = true
mode_eq approved_envelope approved_envelope = true
mode_eq _ _ = false

-- `index` of a mode that is in the list; the list's length otherwise
abbrev index : TradingMode → List TradingMode → ℕ
index m [] = 0
index m (x ∷ xs) = if mode_eq x m then 0 else suc (index m xs)

abbrev pub rank : TradingMode → ℕ
rank m = index m order

-- `__lt__`, `__le__`, `__gt__` and `__ge__`
abbrev pub lt : TradingMode → TradingMode → Bool
lt a b = ltb (rank a) (rank b)

abbrev pub le : TradingMode → TradingMode → Bool
le a b = leb (rank a) (rank b)

abbrev pub gt : TradingMode → TradingMode → Bool
gt a b = ltb (rank b) (rank a)

abbrev pub ge : TradingMode → TradingMode → Bool
ge a b = leb (rank b) (rank a)

abbrev pub private_read_minimum_mode : TradingMode
private_read_minimum_mode = shadow_live

-- The loop of `parse_trading_mode`; no mode is `TradingModeError`.
abbrev pub named : String → List TradingMode → Option TradingMode
named v [] = none
named v (m ∷ ms) = if v == value m then some m else named v ms

abbrev pub parse_trading_mode : String → Option TradingMode
parse_trading_mode v = named v order

abbrev pub allows_private_reads : TradingMode → Bool
allows_private_reads m = ge m private_read_minimum_mode

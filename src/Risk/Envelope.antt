-- ===== src/Risk/Envelope.antt =====
-- The account envelope of radar_v08/domain/risk.py: its ceilings, the room under them and the admission.
pub mod Admission
use text.Mathlib.Text.{◌==◌ as str_eq}
use crypto_radar.Base.{
  ℕ, String, Bool, true, false, ◌&&◌, ◌||◌, not, Option, none, some, List, [], ◌∷◌, length, leb,
  ltb, nat_beq, if◌then◌else◌,
}
use crypto_radar.Base.Result.{Result, ok, err, ◌>>=◌, require}
use crypto_radar.Invocation.Text.{codes}
use crypto_radar.Decimal.{Context, half_even, Decimal, less, same, least}
use crypto_radar.Paper.Quote.{Direction, long, short, strip, same_codes}

-- `RiskInputError.field`
abbrev pub Field : Type 0
Field = String

pub data NoTradeReason : Type 0 where
  unsupported_direction envelope_changed kill_switch_engaged daily_loss_lock drawdown_lock :
      NoTradeReason
  position_already_open quote_currency_mismatch invalid_quote no_valid_atr : NoTradeReason
  missing_pair_rules equity_unavailable invalid_levels stop_invalid_after_tick : NoTradeReason
  no_loss_budget no_notional_room insufficient_cash below_order_minimum : NoTradeReason
  below_cost_minimum sizing_inconsistent : NoTradeReason

pub data LockKind : Type 0 where
  daily_loss drawdown : LockKind

-- The texts of `NoTrade.detail`: none, a code, a field and its problem, an amount after a code, an amount
-- that is less than another, a count.
pub data Detail (D : Type 0) : Type 0 where
  unexplained : Detail D
  code : String → Detail D
  problem : String → String → Detail D
  amount : String → D → Detail D
  less_than : D → D → Detail D
  count : ℕ → Detail D

pub record NoTrade (D : Type 0) : Type 0 where
  pub reason : NoTradeReason
  pub detail : Detail D

pub record Envelope (D : Type 0) : Type 0 where
  pub equity : D
  pub currency : String
  pub per_entry_loss_pct : D
  pub aggregate_loss_pct : D
  pub gross_notional_pct : D
  pub cash_buffer_pct : D
  pub daily_loss_pct : D
  pub drawdown_pct : D
  pub per_entry_abs_cap : Option D
  pub max_positions : ℕ
  pub leverage : ℕ

pub record Budget (D : Type 0) : Type 0 where
  pub per_entry_loss_cap : D
  pub aggregate_loss_cap : D
  pub aggregate_loss_remaining : D
  pub notional_cap : D
  pub notional_remaining : D
  pub cash_buffer : D
  pub cash_room : D

abbrev pub lock_eq : LockKind → LockKind → Bool
lock_eq daily_loss daily_loss = true
lock_eq drawdown drawdown = true
lock_eq _ _ = false

abbrev pub holds : LockKind → List LockKind → Bool
holds k [] = false
holds k (l ∷ ls) = lock_eq k l || holds k ls

-- The direction given to `admission_refusal`: a member of the enum, a text, or the text of another value.
pub data Asked : Type 0 where
  member : Direction → Asked
  named foreign : String → Asked

abbrev pub is_long : Asked → Bool
is_long (member long) = true
is_long (member short) = false
is_long (named t) = str_eq t "LONG"
is_long (foreign t) = false

abbrev shown : Asked → String
shown (member long) = "Direction.LONG"
shown (member short) = "Direction.SHORT"
shown (named t) = t
shown (foreign t) = t

module _ {D : Type 0} (num : Decimal D) where
  -- The EX-1 ceilings, in percent of the equity.
  abbrev pub ex1_per_entry_loss_pct : D
  ex1_per_entry_loss_pct = num.hundredths 25

  abbrev pub ex1_aggregate_loss_pct : D
  ex1_aggregate_loss_pct = num.hundredths 50

  abbrev pub ex1_gross_notional_pct : D
  ex1_gross_notional_pct = num.whole 10

  abbrev pub ex1_min_cash_buffer_pct : D
  ex1_min_cash_buffer_pct = num.whole 10

  abbrev pub ex1_daily_loss_pct : D
  ex1_daily_loss_pct = num.whole 1

  abbrev pub ex1_drawdown_pct : D
  ex1_drawdown_pct = num.whole 3

  -- `_require_positive` and `_require_nonnegative`, of a finite decimal
  abbrev pub require_positive : Field → D → Result Field (Unit {0})
  require_positive field d = require (less num (num.whole 0) d) field

  abbrev pub require_nonnegative : Field → D → Result Field (Unit {0})
  require_nonnegative field d = require (num.leb (num.whole 0) d) field

  -- A positive amount in whole cents (`_is_whole_cents`).
  abbrev pub positive_cents : D → Bool
  positive_cents d = less num (num.whole 0) d && same num d (num.cents d)

  abbrev pub valid_currency : String → Bool
  valid_currency t = ltb 0 (length (strip (codes t))) && same_codes (codes t) (strip (codes t))

  abbrev pub under_ceiling : Field → D → D → Result Field (Unit {0})
  under_ceiling field d ceiling = require (less num (num.whole 0) d && num.leb d ceiling) field

  abbrev pub valid_cap : Option D → Bool
  valid_cap none = true
  valid_cap (some cap) = positive_cents cap

  -- `Envelope.__post_init__`: nothing, or the field that `EnvelopeError` names
  unfoldable pub check_envelope : Envelope D → Result Field (Unit {0})
  check_envelope e = do
    _ ← require (positive_cents e.equity) "equity"
    _ ← require (valid_currency e.currency) "currency"
    _ ← under_ceiling "per_entry_loss_pct" e.per_entry_loss_pct ex1_per_entry_loss_pct
    _ ← under_ceiling "aggregate_loss_pct" e.aggregate_loss_pct ex1_aggregate_loss_pct
    _ ← under_ceiling "gross_notional_pct" e.gross_notional_pct ex1_gross_notional_pct
    _ ← under_ceiling "daily_loss_pct" e.daily_loss_pct ex1_daily_loss_pct
    _ ← under_ceiling "drawdown_pct" e.drawdown_pct ex1_drawdown_pct
    _ ← require (num.leb ex1_min_cash_buffer_pct e.cash_buffer_pct) "cash_buffer_pct"
    _ ← require (less num e.cash_buffer_pct (num.whole 100)) "cash_buffer_pct"
    _ ← require (valid_cap e.per_entry_abs_cap) "per_entry_abs_cap"
    _ ← require (nat_beq e.max_positions 1) "max_positions"
    require (nat_beq e.leverage 0) "leverage"

  -- `_percent_of`
  unfoldable pub percent_of : D → D → D
  percent_of base pct = num.over half_even (num.times half_even base pct) (num.whole 100)

  abbrev pub capped : Option D → D → D
  capped none d = d
  capped (some cap) d = least num d cap

  -- The rooms of `budget`, after its checks.
  unfoldable pub rooms : Envelope D → D → D → D → D → Budget D
  rooms e equity cash open_planned_loss open_notional =
      let aggregate = percent_of equity e.aggregate_loss_pct in
      let notional = percent_of equity e.gross_notional_pct in
      let buffer = percent_of equity e.cash_buffer_pct in
      record {
        per_entry_loss_cap = capped e.per_entry_abs_cap (percent_of equity e.per_entry_loss_pct);
        aggregate_loss_cap = aggregate;
        aggregate_loss_remaining = num.minus half_even aggregate open_planned_loss;
        notional_cap = notional;
        notional_remaining = num.minus half_even notional open_notional;
        cash_buffer = buffer;
        cash_room = num.minus half_even cash buffer;
      }

  -- `budget`
  unfoldable pub budget : Envelope D → D → D → D → D → Result Field (Budget D)
  budget e equity cash open_planned_loss open_notional = do
    _ ← require_positive "equity" equity
    _ ← require_nonnegative "open_planned_loss" open_planned_loss
    _ ← require_nonnegative "open_notional" open_notional
    ok (rooms e equity cash open_planned_loss open_notional)

  -- `admission_refusal`
  unfoldable pub admission_refusal :
      Envelope D → Asked → Bool → List LockKind → ℕ → Option (NoTrade D)
  admission_refusal e direction kill locks positions =
      if not (is_long direction)
      then some
          (record { reason = NoTradeReason.unsupported_direction; detail = code (shown direction) })
      else if kill
      then some (record { reason = NoTradeReason.kill_switch_engaged; detail = unexplained })
      else if holds daily_loss locks
      then some (record { reason = NoTradeReason.daily_loss_lock; detail = unexplained })
      else if holds drawdown locks
      then some (record { reason = NoTradeReason.drawdown_lock; detail = unexplained })
      else if leb e.max_positions positions
      then some (record { reason = NoTradeReason.position_already_open; detail = count positions })
      else none

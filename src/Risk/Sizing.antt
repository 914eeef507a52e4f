-- ===== src/Risk/Sizing.antt =====
-- The sizes and the costs of an entry, of radar_v08/domain/risk.py.
pub mod Binding
use crypto_radar.Base.{
  ℕ, zero, suc, String, Bool, true, false, ◌&&◌, ◌||◌, not, Option, none, some, if◌then◌else◌,
}
use crypto_radar.Decimal.{Context, half_even, down, ambient, Decimal, less, least}
use crypto_radar.Risk.Envelope.{NoTrade, NoTradeReason, Detail, Budget}
use crypto_radar.Risk.Pair.{PairRules}

pub data BindingConstraint : Type 0 where
  per_entry_loss aggregate_loss notional cash : BindingConstraint

pub record Candidates (D : Type 0) : Type 0 where
  pub per_entry_loss : D
  pub aggregate_loss : D
  pub notional : D
  pub cash : D
  pub binding : BindingConstraint

pub record FinalCosts (D : Type 0) : Type 0 where
  pub quantity : D
  pub notional : D
  pub entry_fee : D
  pub exit_fee : D
  pub planned_loss : D

module _ {D : Type 0} (num : Decimal D) where
  -- `PILOT_STRESS_EXIT_SLIPPAGE_BPS` and `BPS`
  abbrev pub stress_bps : D
  stress_bps = num.whole 50

  abbrev pub bps : D
  bps = num.whole 10_000

  -- `floor_to_step`
  unfoldable pub floor_to_step : D → D → D
  floor_to_step value step = num.times down (num.floor (num.over down value step)) step

  -- `floor_to_lot`, of a value whose lots are within the precision; beyond it `quantize` raises, which
  -- is not modelled
  abbrev pub floor_to_lot : D → ℕ → D
  floor_to_lot quantity decimals = num.to_decimals decimals quantity

  -- `stress_exit_price`
  unfoldable pub stress_exit_price : D → D
  stress_exit_price stop =
      num.times half_even stop
        (num.minus half_even (num.whole 1) (num.over half_even stress_bps bps))

  -- `loss_per_unit`
  unfoldable pub loss_per_unit : D → D → D → D
  loss_per_unit ask stop fee_bps =
      let stressed = stress_exit_price stop in
      let fee = num.over half_even fee_bps bps in
      num.plus half_even
        (num.plus half_even
          (num.plus half_even (num.minus half_even ask stop) (num.minus half_even stop stressed))
          (num.times half_even ask fee))
        (num.times half_even stressed fee)

  -- `final_costs`, of amounts whose cents are within the precision, where `quantize` does not raise
  unfoldable pub final_costs : D → D → D → D → FinalCosts D
  final_costs quantity ask stressed fee_bps =
      let fee = num.over half_even fee_bps bps in
      let value = num.times half_even quantity ask in
      let entry = num.cents_up (num.times half_even value fee) in
      let exit = num.cents_up (num.times half_even (num.times half_even quantity stressed) fee) in
      record {
        quantity = quantity;
        notional = value;
        entry_fee = entry;
        exit_fee = exit;
        planned_loss =
            num.plus half_even
              (num.plus half_even (num.times half_even quantity (num.minus half_even ask stressed))
                entry)
              exit;
      }

  -- `_fits`
  unfoldable pub fits : FinalCosts D → Budget D → Bool
  fits costs room =
      num.leb costs.planned_loss room.per_entry_loss_cap
      && num.leb costs.planned_loss room.aggregate_loss_remaining
      && num.leb costs.notional room.notional_remaining
      && num.leb (num.plus half_even costs.notional costs.entry_fee) room.cash_room

  -- `_below_minimum`
  unfoldable pub below_minimum : D → D → PairRules D → Option (NoTrade D)
  below_minimum quantity ask rules =
      if num.leb quantity (num.whole 0) || less num quantity rules.ordermin
      then some (record {
        reason = NoTradeReason.below_order_minimum;
        detail = Detail.less_than quantity rules.ordermin;
      })
      else if less num (num.times half_even quantity ask) rules.costmin
      then some (record {
        reason = NoTradeReason.below_cost_minimum;
        detail = Detail.less_than (num.times half_even quantity ask) rules.costmin;
      })
      else none

  -- One step of `min(values, key=…)`: a later value replaces an earlier one only if it is less.
  abbrev lower_of : BindingConstraint × D → BindingConstraint × D → BindingConstraint × D
  lower_of x y = if less num y.1 x.1 then y else x

  abbrev pub binding_of : D → D → D → D → BindingConstraint
  binding_of a b c d =
      let first =
        lower_of (BindingConstraint.per_entry_loss, a) (BindingConstraint.aggregate_loss, b) in
      let second = lower_of first (BindingConstraint.notional, c) in
      (lower_of second (BindingConstraint.cash, d)).0

  -- `candidate_quantities`
  unfoldable pub candidate_quantities : Budget D → D → D → D → Candidates D
  candidate_quantities room ask per_unit_loss fee_bps =
      let fee = num.over down fee_bps bps in
      let a = num.over down room.per_entry_loss_cap per_unit_loss in
      let b = num.over down room.aggregate_loss_remaining per_unit_loss in
      let c = num.over down room.notional_remaining ask in
      let d = num.over down room.cash_room (num.times down ask (num.plus down (num.whole 1) fee)) in
      record {
        per_entry_loss = a;
        aggregate_loss = b;
        notional = c;
        cash = d;
        binding = binding_of a b c d;
      }

  -- `Candidates.quantity`
  unfoldable pub quantity_of : Candidates D → D
  quantity_of c =
      least num (least num (least num c.per_entry_loss c.aggregate_loss) c.notional) c.cash

-- ===== src/Risk/Plan/Steps.antt =====
-- `plan_long_entry` of radar_v08/domain/risk.py, step by step.
use crypto_radar.Base.{ℕ, zero, suc, ◌+◌, String, ◌||◌, not, Option, none, some, if◌then◌else◌}
use crypto_radar.Base.Result.{Result, ok, ◌>>=◌}
use crypto_radar.Decimal.{ambient, Decimal, Raw}
use crypto_radar.Paper.Quote.{long, Status, validate_quote, validate_atr}
use crypto_radar.Paper.Exit.{exit_levels}
use crypto_radar.Risk.Envelope.{
  Field, NoTradeReason, code, amount, count, Envelope, Budget, budget, require_nonnegative,
}
use crypto_radar.Risk.Pair.{Entry, parse_pair_rules}
use crypto_radar.Risk.Sizing.{
  FinalCosts, floor_to_step, floor_to_lot, stress_exit_price, loss_per_unit, final_costs, fits,
  below_minimum, candidate_quantities, quantity_of,
}
use crypto_radar.Risk.Plan.{
  EntryPlan, Stop, Market, empty_plan, refuse, refuse_if, raise_from, quoted, ruled, known,
  levelled, finite_decimal, same_currency, shown_currency, returned,
}

module _ {D : Type 0} (num : Decimal D) where
  -- The first part of `plan_long_entry`: the inputs of the market, and the plan that records them.
  unfoldable pub read_market :
      Envelope D
      → Option String
      → Raw D
      → Raw D
      → Status
      → Raw D
      → Option (Entry D)
      → Raw D
      → Raw D
      → EntryPlan D
      → Result (Stop D) (Market D × EntryPlan D)
  read_market e currency bid ask status atr entry equity cash plan = do
    _ ←
        refuse_if (not (same_currency currency e.currency)) plan
          NoTradeReason.quote_currency_mismatch (code (shown_currency currency))
    quote ← quoted plan NoTradeReason.invalid_quote (validate_quote num bid ask status)
    let plan_1 : EntryPlan D = record plan { quote = some quote }
    range ← quoted plan_1 NoTradeReason.no_valid_atr (validate_atr num atr)
    let plan_2 : EntryPlan D = record plan_1 { atr = some range }
    rules ← ruled plan_2 (parse_pair_rules num entry)
    let plan_3 : EntryPlan D = record plan_2 { rules = some rules }
    worth ← known plan_3 "equity:missing" (finite_decimal equity)
    _ ←
        refuse_if (num.leb worth (num.whole 0)) plan_3 NoTradeReason.equity_unavailable
          (code "equity:not_positive")
    free ← known plan_3 "cash:missing" (finite_decimal cash)
    ok (record { quote = quote; atr = range; rules = rules; equity = worth; cash = free }, plan_3)

  -- The second part: the levels, the stressed exit and the loss of a unit.
  unfoldable pub set_levels : Market D → D → EntryPlan D → Result (Stop D) ((D × D) × EntryPlan D)
  set_levels m fee plan = do
    found ← raise_from (exit_levels num long m.quote m.atr)
    levels ← levelled plan found
    let low = floor_to_step num levels.stop m.rules.tick
    let high = floor_to_step num levels.target m.rules.tick
    let plan_1 : EntryPlan D = record plan {
      levels = some levels;
      stop = some low;
      target = some high;
    }
    _ ←
        refuse_if (num.leb low (num.whole 0) || num.leb m.quote.ask low) plan_1
          NoTradeReason.stop_invalid_after_tick (amount "stop" low)
    _ ←
        refuse_if (num.leb high m.quote.ask) plan_1 NoTradeReason.invalid_levels
          (amount "target_not_above_entry" high)
    let stressed = stress_exit_price num low
    let unit = loss_per_unit num m.quote.ask low fee
    let plan_2 : EntryPlan D = record plan_1 {
      stress_exit_price = some stressed;
      loss_per_unit = some unit;
    }
    _ ←
        refuse_if (num.leb stressed (num.whole 0) || num.leb unit (num.whole 0)) plan_2
          NoTradeReason.invalid_levels (code "nonpositive_denominator")
    ok ((stressed, unit), plan_2)

  -- The third part: the room, which must be positive under every limit.
  unfoldable pub find_room :
      Envelope D → Market D → D → D → EntryPlan D → Result (Stop D) (Budget D × EntryPlan D)
  find_room e m open_loss open_notional plan = do
    room ← raise_from (budget num e m.equity m.cash open_loss open_notional)
    let plan_1 : EntryPlan D = record plan { budget = some room }
    _ ←
        refuse_if
          (num.leb room.per_entry_loss_cap (num.whole 0)
            || num.leb room.aggregate_loss_remaining (num.whole 0))
          plan_1 NoTradeReason.no_loss_budget (amount "remaining" room.aggregate_loss_remaining)
    _ ←
        refuse_if (num.leb room.notional_remaining (num.whole 0)) plan_1
          NoTradeReason.no_notional_room (amount "remaining" room.notional_remaining)
    _ ←
        refuse_if (num.leb room.cash_room (num.whole 0)) plan_1 NoTradeReason.insufficient_cash
          (amount "room" room.cash_room)
    ok (room, plan_1)

  -- What the loop of `plan_long_entry` keeps fixed.
  abbrev pub costs_of : Market D → D → D → D → FinalCosts D
  costs_of m stressed fee quantity = final_costs num quantity m.quote.ask stressed fee

  -- The loop, with the number of passes left; the quantity drops in the context of the caller.
  unfoldable pub fit_passes : Market D → Budget D → D → D → ℕ → ℕ → D → EntryPlan D → EntryPlan D
  fit_passes m room stressed fee zero passes quantity plan =
      let tried : EntryPlan D = record plan {
        passes = passes;
        quantity = some quantity;
        costs = none;
      } in
      let priced : EntryPlan D = record tried { costs = some (costs_of m stressed fee quantity) } in
      elim (below_minimum num quantity m.quote.ask m.rules) [
        | some n ↦ refuse tried n
        | none ↦
            if fits num (costs_of m stressed fee quantity) room
            then priced
            else refuse priced
                (record { reason = NoTradeReason.sizing_inconsistent; detail = count passes })
      ]
  fit_passes m room stressed fee (suc left) passes quantity plan =
      let tried : EntryPlan D = record plan {
        passes = passes;
        quantity = some quantity;
        costs = none;
      } in
      let priced : EntryPlan D = record tried { costs = some (costs_of m stressed fee quantity) } in
      let next = num.minus ambient quantity (num.lot_step m.rules.lot_decimals) in
      let rest = fit_passes m room stressed fee left (passes + 1) next priced in
      elim (below_minimum num quantity m.quote.ask m.rules) [
        | some n ↦ refuse tried n
        | none ↦ if fits num (costs_of m stressed fee quantity) room then priced else rest
      ]

  -- `MAX_DOWNWARD_PASSES`
  abbrev pub max_downward_passes : ℕ
  max_downward_passes = 3

  -- The last part: the candidates, the quantity in lots, and the loop.
  unfoldable pub size_entry : Market D → Budget D → D → D → D → EntryPlan D → EntryPlan D
  size_entry m room stressed unit fee plan =
      let c = candidate_quantities num room m.quote.ask unit fee in
      let quantity = floor_to_lot num (quantity_of num c) m.rules.lot_decimals in
      fit_passes m room stressed fee max_downward_passes 0 quantity
        (record plan { candidates = some c; lot_quantity = some quantity })

  -- The steps of `plan_long_entry` after the checks of its amounts.
  unfoldable pub plan_steps :
      Envelope D
      → Option String
      → Raw D
      → Raw D
      → Status
      → Raw D
      → Option (Entry D)
      → Raw D
      → Raw D
      → D
      → D
      → D
      → Result (Stop D) (EntryPlan D)
  plan_steps e currency bid ask status atr entry equity cash open_loss open_notional fee = do
    (m, plan_1) ← read_market e currency bid ask status atr entry equity cash (empty_plan fee)
    (x, plan_2) ← set_levels m fee plan_1
    (room, plan_3) ← find_room e m open_loss open_notional plan_2
    ok (size_entry m room x.0 x.1 fee plan_3)

  -- `plan_long_entry`
  unfoldable pub plan_long_entry :
      Envelope D
      → Option String
      → Raw D
      → Raw D
      → Status
      → Raw D
      → Option (Entry D)
      → Raw D
      → Raw D
      → D
      → D
      → D
      → Result Field (EntryPlan D)
  plan_long_entry e currency bid ask status atr entry equity cash open_loss open_notional fee = do
    _ ← require_nonnegative num "fee_bps" fee
    _ ← require_nonnegative num "open_planned_loss" open_loss
    _ ← require_nonnegative num "open_notional" open_notional
    returned
        (plan_steps e currency bid ask status atr entry equity cash open_loss open_notional fee)

-- ===== src/Risk/Plan/Ex1.antt =====
-- The ceilings of EX-1 in radar_v08/domain/risk.py, which no accepted envelope loosens.
use crypto_radar.Base.{◌≡◌, String, arith, true, false, Option, none, some}
use crypto_radar.Base.Result.{ok}
use crypto_radar.Decimal.{half_even, Decimal, Raw, decimal, IsOrder, IsMonotone}
use crypto_radar.Paper.Quote.{Status}
use crypto_radar.Risk.Envelope.{
  Envelope, Budget, rooms, check_envelope, percent_of, capped, ex1_per_entry_loss_pct,
  ex1_aggregate_loss_pct, ex1_gross_notional_pct, ex1_min_cash_buffer_pct,
}
use crypto_radar.Risk.Pair.{Entry}
use crypto_radar.Risk.Sizing.{FinalCosts, fits}
use crypto_radar.Risk.Plan.{EntryPlan}
use crypto_radar.Risk.Plan.Steps.{plan_long_entry}
use crypto_radar.Risk.Plan.Passes.{opened}
use crypto_radar.Risk.Plan.Limits.{plan-IsPlanned}

module _ {D : Type 0} (num : Decimal D) where
  -- The costs keep the four limits at the loosest percentages.
  pub record KeepsEx1 (equity cash open_loss open_notional : D) (costs : FinalCosts D)
      : Type 0 where
    pub per_entry :
        num.leb costs.planned_loss (percent_of num equity (ex1_per_entry_loss_pct num)) ≡ true
    pub aggregate :
        num.leb costs.planned_loss
          (num.minus half_even (percent_of num equity (ex1_aggregate_loss_pct num)) open_loss)
        ≡ true
    pub notional :
        num.leb costs.notional
          (num.minus half_even (percent_of num equity (ex1_gross_notional_pct num)) open_notional)
        ≡ true
    pub buffer :
        num.leb
          (num.plus half_even costs.notional costs.entry_fee)
          (num.minus half_even cash (percent_of num equity (ex1_min_cash_buffer_pct num)))
        ≡ true

  -- What an accepted envelope has been checked for, of the limits of an entry.
  record IsStrict (e : Envelope D) : Type 0 where
    per_entry : num.leb e.per_entry_loss_pct (ex1_per_entry_loss_pct num) ≡ true
    aggregate : num.leb e.aggregate_loss_pct (ex1_aggregate_loss_pct num) ≡ true
    notional : num.leb e.gross_notional_pct (ex1_gross_notional_pct num) ≡ true
    buffer : num.leb (ex1_min_cash_buffer_pct num) e.cash_buffer_pct ≡ true

  check_envelope-IsStrict : (e : Envelope D) → check_envelope num e ≡ ok tt → IsStrict e
  unfolding check_envelope
  check_envelope-IsStrict e h = ground arith

  fits_parts :
      (costs : FinalCosts D) (room : Budget D)
      → fits num costs room ≡ true
      → (num.leb costs.planned_loss room.per_entry_loss_cap ≡ true)
        × (num.leb costs.planned_loss room.aggregate_loss_remaining ≡ true)
        × (num.leb costs.notional room.notional_remaining ≡ true)
        × (num.leb (num.plus half_even costs.notional costs.entry_fee) room.cash_room ≡ true)
  unfolding fits
  fits_parts costs room h = ground arith

  module _ (order : IsOrder num) (mono : IsMonotone num) where
    percent_of_mono :
        (equity p q : D)
        → num.leb equity (num.whole 0) ≡ false
        → num.leb p q ≡ true
        → num.leb (percent_of num equity p) (percent_of num equity q) ≡ true
    unfolding percent_of
    percent_of_mono equity p q pos le = mono.over_left _ _ (mono.times_right equity p q pos le)

    capped_le : (cap : Option D) (d : D) → num.leb (capped num cap d) d ≡ true
    capped_le none d = ground (arith, order.total d d)
    capped_le (some cap) d = ground (arith, order.total d cap, order.total d d)

    fits-KeepsEx1 :
        (e : Envelope D) (equity cash open_loss open_notional : D) (costs : FinalCosts D)
        → IsStrict e
        → num.leb equity (num.whole 0) ≡ false
        → fits num costs (rooms num e equity cash open_loss open_notional) ≡ true
        → KeepsEx1 equity cash open_loss open_notional costs
    unfolding rooms
    fits-KeepsEx1 e equity cash open_loss open_notional costs strict pos h =
        let (a, b, c, d) = fits_parts costs (rooms num e equity cash open_loss open_notional) h in
        record {
          per_entry = order.trans _ _ _ a (
              order.trans _ _ _ (capped_le e.per_entry_abs_cap _)
                (percent_of_mono equity _ _ pos strict.per_entry));
          aggregate =
              order.trans _ _ _ b
                (mono.minus_left _ _ open_loss (percent_of_mono equity _ _ pos strict.aggregate));
          notional =
              order.trans _ _ _ c (
                mono.minus_left _ _ open_notional (percent_of_mono equity _ _ pos strict.notional));
          buffer =
              order.trans _ _ _ d
                (mono.minus_right cash _ _ (percent_of_mono equity _ _ pos strict.buffer));
        }

    -- An opened plan under an accepted envelope keeps the EX-1 ceilings: its planned loss is at
    -- most a quarter percent of the equity, and at most half a percent less the loss already open;
    -- its notional is at most a tenth of the equity less the notional already open; and with its
    -- entry fee it leaves a tenth of the equity in cash. The order of decimals is total and
    -- transitive, and the rounded operations keep it.
    pub opened-KeepsEx1 :
        (e : Envelope D) (currency : Option String) (bid ask : Raw D) (status : Status)
        (atr : Raw D)
        → (entry : Option (Entry D)) (equity cash open_loss open_notional fee : D)
          (plan : EntryPlan D)
        → check_envelope num e ≡ ok tt
        → plan_long_entry num e currency bid ask status atr entry
            (decimal equity)
            (decimal cash)
            open_loss
            open_notional
            fee
          ≡ ok plan
        → opened plan ≡ true
        → (costs : FinalCosts D) × (plan.costs ≡ some costs)
          × KeepsEx1 equity cash open_loss open_notional costs
    opened-KeepsEx1 e currency bid ask status atr entry equity cash open_loss open_notional fee plan
          accepted h done =
        let p =
          plan-IsPlanned num e currency bid ask status atr entry equity cash open_loss open_notional
            fee plan h done in
        (
          _,
          p.sized.priced,
          fits-KeepsEx1 e equity cash open_loss open_notional _ (check_envelope-IsStrict e accepted)
              p.read.positive p.sized.fitting,
        )

-- ===== src/Risk/Plan/Limits.antt =====
-- What an opened plan of radar_v08/domain/risk.py was checked for, and the EX-1 ceilings it keeps.
use mathlib.Core.Path.{subst}
use crypto_radar.Base.{
  ℕ, zero, suc, ◌+◌, ◌≡◌, ◌∙◌, String, ap, sym, arith, true, false, Option, some,
}
use crypto_radar.Base.Result.{ok}
use crypto_radar.Decimal.{ambient, Decimal, Raw, decimal}
use crypto_radar.Paper.Exit.{ExitLevels, exit_levels}
use crypto_radar.Paper.Quote.{long, Status, validate_quote, validate_atr}
use crypto_radar.Risk.Envelope.{Envelope, Budget, budget, rooms}
use crypto_radar.Risk.Pair.{Entry, parse_pair_rules}
use crypto_radar.Risk.Sizing.{
  floor_to_step, stress_exit_price, loss_per_unit, floor_to_lot, quantity_of, candidate_quantities,
}
use crypto_radar.Risk.Plan.{EntryPlan, Market, empty_plan, same_currency, returned}
use crypto_radar.Risk.Plan.Steps.{
  read_market, set_levels, find_room, costs_of, fit_passes, size_entry, plan_steps, plan_long_entry,
}
use crypto_radar.Risk.Plan.Passes.{opened, IsSized, fit_passes-IsSized}
use crypto_radar.Risk.Plan.Ends.{Ends, Ends-bind, Ends-weaken, Ends_at, returned_lem}

module _ {D : Type 0} (num : Decimal D) where
  -- The market that is planned with is the one read from the inputs.
  pub record IsRead (e : Envelope D) (currency : Option String) (bid ask : Raw D) (status : Status)
      (atr : Raw D) (entry : Option (Entry D)) (equity cash : D) (m : Market D) : Type 0 where
    pub same_money : same_currency currency e.currency ≡ true
    pub quoted_at : validate_quote num bid ask status ≡ ok m.quote
    pub ranged : validate_atr num atr ≡ ok m.atr
    pub ruled_by : parse_pair_rules num entry ≡ ok m.rules
    pub worth : m.equity ≡ equity
    pub positive : num.leb equity (num.whole 0) ≡ false
    pub free : m.cash ≡ cash

  read_market-Ends :
      (e : Envelope D) (currency : Option String) (bid ask : Raw D) (status : Status) (atr : Raw D)
      → (entry : Option (Entry D)) (equity cash : D) (plan : EntryPlan D)
      → Ends
          (λ x. IsRead e currency bid ask status atr entry equity cash x.0)
          (read_market num e currency bid ask status atr entry (decimal equity) (decimal cash) plan)
  unfolding read_market
  read_market-Ends e currency bid ask status atr entry equity cash plan = ground arith

  -- The stop is the one of the levels of the quote and the range, in ticks; it is above zero and
  -- below the ask. The stressed exit and the loss of a unit are the ones of this stop.
  abbrev pub IsStopped : Market D → D → D → D → Option (ExitLevels D) → Option D → Type 0
  IsStopped m fee stressed unit (some levels) (some stop) =
      (exit_levels num long m.quote m.atr ≡ ok (some levels))
      × (stop ≡ floor_to_step num levels.stop m.rules.tick)
      × (num.leb stop (num.whole 0) ≡ false)
      × (num.leb m.quote.ask stop ≡ false)
      × (stressed ≡ stress_exit_price num stop)
      × (unit ≡ loss_per_unit num m.quote.ask stop fee)
  IsStopped m fee stressed unit _ _ = true ≡ false

  -- What the sizing of a plan does not touch.
  abbrev told : EntryPlan D → Option (ExitLevels D) × Option D × Option D × Option D
  told plan = (plan.levels, plan.stop, plan.stress_exit_price, plan.loss_per_unit)

  abbrev IsLevelled : Market D → D → D → D → EntryPlan D → Type 0
  IsLevelled m fee stressed unit plan =
      IsStopped m fee stressed unit plan.levels plan.stop
      × (plan.stress_exit_price ≡ some stressed)
      × (plan.loss_per_unit ≡ some unit)

  IsLevelled-kept :
      (m : Market D) (fee stressed unit : D) (p q : EntryPlan D)
      → told q ≡ told p
      → IsLevelled m fee stressed unit p
      → IsLevelled m fee stressed unit q
  IsLevelled-kept m fee stressed unit p q e h =
      subst (λ t. IsStopped m fee stressed unit t.0 t.1 × (t.2 ≡ some stressed) × (t.3 ≡ some unit))
        (sym e) h

  set_levels-Ends :
      (m : Market D) (fee : D) (plan : EntryPlan D)
      → Ends (λ x. IsLevelled m fee x.0.0 x.0.1 x.1) (set_levels num m fee plan)
  unfolding set_levels
  set_levels-Ends m fee plan = ground arith

  fit_passes-told :
      (m : Market D) (room : Budget D) (stressed fee : D) (left passes : ℕ) (quantity : D)
      (plan : EntryPlan D)
      → (told (fit_passes num m room stressed fee left passes quantity plan) ≡ told plan)
        × ((fit_passes num m room stressed fee left passes quantity plan).lot_quantity
            ≡ plan.lot_quantity)
  unfolding fit_passes
  fit_passes-told m room stressed fee zero passes quantity plan = ground arith
  fit_passes-told m room stressed fee (suc left) passes quantity plan =
      let next = num.minus ambient quantity (num.lot_step m.rules.lot_decimals) in
      let h = fit_passes-told m room stressed fee left (passes + 1) next (record plan {
        passes = passes;
        quantity = some quantity;
        costs = some (costs_of num m stressed fee quantity);
      }) in
      ground (arith, h)

  find_room-Ends :
      (e : Envelope D) (m : Market D) (open_loss open_notional : D) (plan : EntryPlan D)
      → Ends
          (λ x.
            (x.0 ≡ rooms num e m.equity m.cash open_loss open_notional) × (told x.1 ≡ told plan))
          (find_room num e m open_loss open_notional plan)
  unfolding find_room budget
  find_room-Ends e m open_loss open_notional plan = ground arith

  -- An opened plan has a quantity that fits the room of the envelope, the largest in lots under the
  -- candidates less so many passes.
  pub record IsPlanned (e : Envelope D) (currency : Option String) (bid ask : Raw D)
      (status : Status) (atr : Raw D) (entry : Option (Entry D))
      (equity cash open_loss open_notional fee : D) (plan : EntryPlan D) : Type 0 where
    pub market : Market D
    pub read : IsRead e currency bid ask status atr entry equity cash market
    pub stressed : D
    pub unit : D
    pub stopped : IsStopped market fee stressed unit plan.levels plan.stop
    pub shown : (plan.stress_exit_price ≡ some stressed) × (plan.loss_per_unit ≡ some unit)
    pub lots :
        plan.lot_quantity
        ≡ some (
            floor_to_lot num
              (quantity_of num (
                candidate_quantities num
                  (rooms num e equity cash open_loss open_notional)
                  market.quote.ask
                  unit
                  fee))
              market.rules.lot_decimals)
    pub sized :
        IsSized num market
          (rooms num e equity cash open_loss open_notional)
          stressed
          fee
          3
          0
          (floor_to_lot num
            (quantity_of num (
              candidate_quantities num
                (rooms num e equity cash open_loss open_notional)
                market.quote.ask
                unit
                fee))
            market.rules.lot_decimals)
          plan

  size_entry-IsSized :
      (m : Market D) (room : Budget D) (stressed unit fee : D) (plan : EntryPlan D)
      → opened (size_entry num m room stressed unit fee plan) ≡ true
      → IsSized num m room stressed fee 3 0
          (floor_to_lot num
            (quantity_of num (candidate_quantities num room m.quote.ask unit fee))
            m.rules.lot_decimals)
          (size_entry num m room stressed unit fee plan)
  unfolding size_entry
  size_entry-IsSized m room stressed unit fee plan done =
      fit_passes-IsSized num m room stressed fee 3 0 _ _ done

  size_entry-told :
      (m : Market D) (room : Budget D) (stressed unit fee : D) (plan : EntryPlan D)
      → (told (size_entry num m room stressed unit fee plan) ≡ told plan)
        × ((size_entry num m room stressed unit fee plan).lot_quantity
            ≡ some (
                floor_to_lot num
                  (quantity_of num (candidate_quantities num room m.quote.ask unit fee))
                  m.rules.lot_decimals))
  unfolding size_entry
  size_entry-told m room stressed unit fee plan = fit_passes-told m room stressed fee 3 0 _ _

  module _ (e : Envelope D) (currency : Option String) (bid ask : Raw D) (status : Status)
      (atr : Raw D) (entry : Option (Entry D)) (equity cash open_loss open_notional fee : D) where
    abbrev Planned : EntryPlan D → Type 0
    Planned plan =
        opened plan ≡ true
        → IsPlanned e currency bid ask status atr entry equity cash open_loss open_notional fee plan

    -- A room of the market that was read is the one at the given equity and cash.
    room_at :
        (m : Market D) (room : Budget D)
        → IsRead e currency bid ask status atr entry equity cash m
        → room ≡ rooms num e m.equity m.cash open_loss open_notional
        → room ≡ rooms num e equity cash open_loss open_notional
    room_at m room h r =
        r
        ∙ (ap (λ w. rooms num e w m.cash open_loss open_notional) h.worth
            ∙ ap (λ c. rooms num e equity c open_loss open_notional) h.free)

    size_entry-IsPlanned :
        (m : Market D) (room : Budget D) (stressed unit : D) (plan : EntryPlan D)
        → IsRead e currency bid ask status atr entry equity cash m
        → IsLevelled m fee stressed unit plan
        → room ≡ rooms num e equity cash open_loss open_notional
        → Planned (size_entry num m room stressed unit fee plan)
    size_entry-IsPlanned m room stressed unit plan read set r done =
        let made = size_entry num m room stressed unit fee plan in
        let kept = size_entry-told m room stressed unit fee plan in
        let (stopped, exit, loss) = IsLevelled-kept m fee stressed unit plan made kept.0 set in
        let lot : Budget D → D = λ w.
          floor_to_lot num (quantity_of num (candidate_quantities num w m.quote.ask unit fee))
            m.rules.lot_decimals in
        record {
          market = m;
          read = read;
          stressed = stressed;
          unit = unit;
          stopped = stopped;
          shown = (exit, loss);
          lots = kept.1 ∙ ap (λ w. some (lot w)) r;
          sized =
              subst (λ w. IsSized num m w stressed fee 3 0 (lot w) made) r
                (size_entry-IsSized m room stressed unit fee plan done);
        }

    plan_steps-Ends : Ends Planned (
        plan_steps num e currency bid ask status atr entry
          (decimal equity)
          (decimal cash)
          open_loss
          open_notional
          fee)
    unfolding plan_steps
    plan_steps-Ends =
        let market =
          read_market num e currency bid ask status atr entry (decimal equity) (decimal cash)
            (empty_plan fee) in
        let reads =
          read_market-Ends e currency bid ask status atr entry equity cash (empty_plan fee) in
        Ends-bind Planned market _ (Ends-weaken _ market reads) (λ a at_a.
          let levels = set_levels num a.0 fee a.1 in
          let sets = set_levels-Ends a.0 fee a.1 in
          Ends-bind Planned levels _ (Ends-weaken _ levels sets) (λ b at_b.
            let rooms_of = find_room num e a.0 open_loss open_notional b.1 in
            let finds = find_room-Ends e a.0 open_loss open_notional b.1 in
            Ends-bind Planned rooms_of _ (Ends-weaken _ rooms_of finds) (λ c at_c.
              let read = Ends_at _ a market at_a reads in
              let (room, kept) = Ends_at _ c rooms_of at_c finds in
              size_entry-IsPlanned a.0 c.0 b.0.0 b.0.1 c.1 read
                (IsLevelled-kept a.0 fee b.0.0 b.0.1 b.1 c.1 kept (Ends_at _ b levels at_b sets))
                (room_at a.0 c.0 read room))))

    -- An opened plan is in the envelope's currency, on a valid quote, range and pair rules. Its
    -- stop is the exit level of this quote and range in ticks, above zero and below the ask, and
    -- the plan shows the stressed exit and the loss per unit of this stop. Its quantity is the lot-
    -- rounded least candidate for this loss per unit, less one lot for each of at most three
    -- passes, meets both minima of the pair, fits every limit at the costs the plan records, and is
    -- the first of these quantities that fits.
    pub plan-IsPlanned :
        (plan : EntryPlan D)
        → plan_long_entry num e currency bid ask status atr entry
            (decimal equity)
            (decimal cash)
            open_loss
            open_notional
            fee
          ≡ ok plan
        → opened plan ≡ true
        → IsPlanned e currency bid ask status atr entry equity cash open_loss open_notional fee plan
    unfolding plan_long_entry
    plan-IsPlanned plan h done =
        let steps =
          plan_steps num e currency bid ask status atr entry (decimal equity) (decimal cash)
            open_loss open_notional fee in
        let e : returned steps ≡ ok plan = ground arith in
        returned_lem Planned steps plan plan_steps-Ends e done done

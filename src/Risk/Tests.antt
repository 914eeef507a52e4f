-- ===== src/Risk/Tests.antt =====
-- An entry of ten units under an envelope of 1,000, and the history of an account.
use crypto_radar.Base.{
  ℕ, ◌≡◌, ◌≢◌, ◌↔◌, refl, inr, arith, Bool, true, false, Option, none, some, [], ◌∷◌,
}
use crypto_radar.Base.Result.{Result, ok, err}
use crypto_radar.Base.Dict.{lookup}
use crypto_radar.Invocation.Text.{is_space}
use crypto_radar.Decimal.{Raw}
use crypto_radar.Decimal.Fixed.{fixed, fixed-IsOrder, fixed-IsMonotone, fixed_lot_above}
use crypto_radar.Paper.Quote.{Status, validate_quote, price, is_offline}
use crypto_radar.Paper.Exit.{exit_levels, levels_of}
use crypto_radar.Risk.Envelope.{
  Field, Envelope, daily_loss, drawdown, Asked, check_envelope, admission_refusal, budget, rooms,
  percent_of,
}
use crypto_radar.Risk.Envelope.Admission.{IsFree, admitted_iff}
use crypto_radar.Risk.Pair.{
  Entry, PairRules, parse_pair_rules, decimals_field, decimal_text_field, tick_of, given_tick,
}
use crypto_radar.Risk.Pair.Valid.{IsUsable, rules-IsUsable}
use crypto_radar.Risk.Sizing.{
  FinalCosts, candidate_quantities, quantity_of, final_costs, fits, below_minimum, floor_to_step,
  stress_exit_price, loss_per_unit,
}
use crypto_radar.Risk.Sizing.Binding.{IsBinding, candidates-IsBinding}
use crypto_radar.Risk.Plan.{EntryPlan}
use crypto_radar.Risk.Plan.Steps.{
  plan_long_entry, plan_steps, read_market, set_levels, find_room, size_entry, fit_passes,
}
use crypto_radar.Risk.Plan.Passes.{opened}
use crypto_radar.Risk.Plan.Limits.{IsPlanned, plan-IsPlanned}
use crypto_radar.Risk.Plan.Ex1.{KeepsEx1, opened-KeepsEx1}
use crypto_radar.Risk.Account.{daily_lock_tripped, drawdown_lock_tripped, tripped_locks}
use crypto_radar.Risk.Account.Locks.{fall-locks}
use crypto_radar.Risk.Account.Marks.{IsGreatest, high_water_after, high_water-IsGreatest}

abbrev envelope : Envelope ℕ
envelope = record {
  equity = 1_000_000_000;
  currency = "EUR";
  per_entry_loss_pct = 250_000;
  aggregate_loss_pct = 500_000;
  gross_notional_pct = 10_000_000;
  cash_buffer_pct = 10_000_000;
  daily_loss_pct = 1_000_000;
  drawdown_pct = 3_000_000;
  per_entry_abs_cap = none;
  max_positions = 1;
  leverage = 0;
}

abbrev pair_entry : Entry ℕ
pair_entry =
    ("lot_decimals", Raw.integer 2)
    ∷ ("ordermin", Raw.decimal 1_000_000)
    ∷ ("costmin", Raw.decimal 500_000)
    ∷ ("tick_size", Raw.decimal 10_000)
    ∷ []

abbrev planned : Result Field (EntryPlan ℕ)
planned =
    plan_long_entry fixed envelope (some "EUR") (Raw.decimal 9_990_000) (Raw.decimal 10_000_000)
      (Status.named "online") (Raw.decimal 50_000) (some pair_entry) (Raw.decimal 1_000_000_000)
      (Raw.decimal 1_000_000_000) 0 0 25_000_000

abbrev plan_of : Result Field (EntryPlan ℕ) → Option (EntryPlan ℕ)
plan_of (ok plan) = some plan
plan_of (err field) = none

abbrev is_open : Result Field (EntryPlan ℕ) → Bool
is_open (ok plan) = opened plan
is_open (err field) = false

envelope_ok : check_envelope fixed envelope ≡ ok tt
unfolding check_envelope is_space
envelope_ok = refl

planned_open : is_open planned ≡ true
unfolding plan_long_entry is_space plan_steps read_market validate_quote is_offline price
    parse_pair_rules decimals_field lookup decimal_text_field tick_of given_tick set_levels
    exit_levels levels_of floor_to_step stress_exit_price loss_per_unit budget percent_of rooms
    find_room fit_passes size_entry below_minimum candidate_quantities final_costs fits quantity_of
planned_open = refl

open_plan :
    (m : Result Field (EntryPlan ℕ))
    → is_open m ≡ true
    → (plan : EntryPlan ℕ) × (m ≡ ok plan) × (opened plan ≡ true)
open_plan (ok plan) h = (plan, refl, h)
open_plan (err field) h = ground arith

plan-IsPlanned_example :
    IsPlanned fixed envelope
      (some "EUR")
      (Raw.decimal 9_990_000)
      (Raw.decimal 10_000_000)
      (Status.named "online")
      (Raw.decimal 50_000)
      (some pair_entry)
      1_000_000_000
      1_000_000_000
      0
      0
      25_000_000
      (open_plan planned planned_open).0
plan-IsPlanned_example =
    plan-IsPlanned fixed envelope (some "EUR") (Raw.decimal 9_990_000) (Raw.decimal 10_000_000)
      (Status.named "online") (Raw.decimal 50_000) (some pair_entry) 1_000_000_000 1_000_000_000 0 0
      25_000_000 (open_plan planned planned_open).0 (open_plan planned planned_open).1
      (open_plan planned planned_open).2

opened-KeepsEx1_example :
    (costs : FinalCosts ℕ) × ((open_plan planned planned_open).0.costs ≡ some costs)
    × KeepsEx1 fixed 1_000_000_000 1_000_000_000 0 0 costs
opened-KeepsEx1_example =
    opened-KeepsEx1 fixed fixed-IsOrder fixed-IsMonotone envelope (some "EUR")
      (Raw.decimal 9_990_000) (Raw.decimal 10_000_000) (Status.named "online") (Raw.decimal 50_000)
      (some pair_entry) 1_000_000_000 1_000_000_000 0 0 25_000_000
      (open_plan planned planned_open).0 envelope_ok (open_plan planned planned_open).1
      (open_plan planned planned_open).2

admitted_iff_example :
    (admission_refusal fixed envelope (Asked.named "LONG") false (drawdown ∷ []) 0 ≡ none)
    ↔ IsFree (Asked.named "LONG") false (drawdown ∷ []) 0
admitted_iff_example =
    admitted_iff fixed envelope (Asked.named "LONG") false (drawdown ∷ []) 0 envelope_ok

candidates-IsBinding_example : IsBinding fixed (
    candidate_quantities fixed
      (rooms fixed envelope 1_000_000_000 1_000_000_000 0 0)
      10_000_000
      199_126
      25_000_000)
candidates-IsBinding_example =
    candidates-IsBinding fixed fixed-IsOrder (rooms fixed envelope 1_000_000_000 1_000_000_000 0 0)
      10_000_000 199_126 25_000_000

abbrev entry_rules : PairRules ℕ
entry_rules = record {
  lot_decimals = 2;
  ordermin = 1_000_000;
  costmin = 500_000;
  tick = 10_000;
  tick_source = "tick_size";
}

entry_parsed : parse_pair_rules fixed (some pair_entry) ≡ ok entry_rules
unfolding parse_pair_rules decimals_field decimal_text_field tick_of given_tick lookup
entry_parsed = refl

rules-IsUsable_example : IsUsable fixed entry_rules
rules-IsUsable_example =
    rules-IsUsable fixed fixed_lot_above (some pair_entry) entry_rules entry_parsed

high_water-IsGreatest_example :
    (top : ℕ) × (high_water_after fixed 1_000_000_000
        (990_000_000 ∷ 1_020_000_000 ∷ 1_010_000_000 ∷ [])
      ≡ ok top)
    × IsGreatest fixed 1_000_000_000 (990_000_000 ∷ 1_020_000_000 ∷ 1_010_000_000 ∷ []) top
high_water-IsGreatest_example =
    high_water-IsGreatest fixed fixed-IsOrder 1_000_000_000
      (990_000_000 ∷ 1_020_000_000 ∷ 1_010_000_000 ∷ []) refl

drawn_down : drawdown_lock_tripped fixed envelope 960_000_000 1_000_000_000 ≡ ok true
unfolding drawdown_lock_tripped
drawn_down = refl

both_tripped :
    tripped_locks fixed envelope 950_000_000 1_000_000_000 1_000_000_000
    ≡ ok (daily_loss ∷ drawdown ∷ [])
unfolding tripped_locks daily_lock_tripped drawdown_lock_tripped percent_of
both_tripped = refl

fall-locks_example :
    admission_refusal fixed envelope (Asked.named "LONG") false (daily_loss ∷ drawdown ∷ []) 0
    ≢ none
fall-locks_example =
    fall-locks fixed fixed-IsOrder fixed-IsMonotone envelope 960_000_000 950_000_000 1_000_000_000
      1_000_000_000 (daily_loss ∷ drawdown ∷ []) (Asked.named "LONG") false 0 (inr drawn_down) refl
      both_tripped

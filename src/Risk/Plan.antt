-- ===== src/Risk/Plan.antt =====
-- The record of a plan of an entry, `EntryPlan` of radar_v08/domain/risk.py. A plan stops where the
-- input is one the module cannot use, or where it refuses.
pub mod Steps
pub mod Passes
pub mod Ends
pub mod Limits
pub mod Ex1
use text.Mathlib.Text.{◌==◌ as str_eq}
use crypto_radar.Base.{
  ℕ, zero, suc, ◌+◌, String, Bool, true, false, ◌||◌, not, Option, none, some, if◌then◌else◌,
}
use crypto_radar.Base.Result.{Result, ok, err, ◌>>=◌, require}
use crypto_radar.Decimal.{Context, half_even, down, ambient, Decimal, Raw, less}
use crypto_radar.Paper.Quote.{
  Direction, long, QuoteProblem, missing, not_a_number, not_finite, not_positive, crossed,
  not_online, Quote, Status, validate_quote, validate_atr,
}
use crypto_radar.Paper.Exit.{ExitLevels, exit_levels}
use crypto_radar.Risk.Envelope.{
  Field, NoTrade, NoTradeReason, Detail, code, amount, count, Envelope, Budget, budget,
  require_nonnegative,
}
use crypto_radar.Risk.Pair.{PairRules, Entry, parse_pair_rules}
use crypto_radar.Risk.Sizing.{
  Candidates, FinalCosts, floor_to_step, floor_to_lot, stress_exit_price, loss_per_unit,
  final_costs, fits, below_minimum, candidate_quantities, quantity_of,
}

-- Its three constants, the stress slippage and the two policy ids, are left out.
pub record EntryPlan (D : Type 0) : Type 0 where
  pub no_trade : Option (NoTrade D)
  pub fee_bps : D
  pub quote : Option (Quote D)
  pub atr : Option D
  pub rules : Option (PairRules D)
  pub levels : Option (ExitLevels D)
  pub stop : Option D
  pub target : Option D
  pub stress_exit_price : Option D
  pub loss_per_unit : Option D
  pub budget : Option (Budget D)
  pub candidates : Option (Candidates D)
  pub lot_quantity : Option D
  pub passes : ℕ
  pub quantity : Option D
  pub costs : Option (FinalCosts D)

-- `plan_long_entry` raises at a field, or returns a plan that refuses.
pub data Stop (D : Type 0) : Type 0 where
  raised : Field → Stop D
  refused : EntryPlan D → Stop D

-- What is known of the market once the inputs are read.
pub record Market (D : Type 0) : Type 0 where
  pub quote : Quote D
  pub atr : D
  pub rules : PairRules D
  pub equity : D
  pub cash : D

-- `QuoteProblem.value`
abbrev problem_value : QuoteProblem → String
problem_value missing = "missing"
problem_value not_a_number = "not_a_number"
problem_value not_finite = "not_finite"
problem_value not_positive = "not_positive"
problem_value crossed = "crossed"
problem_value not_online = "not_online"

abbrev pub same_currency : Option String → String → Bool
same_currency none t = false
same_currency (some s) t = str_eq s t

-- `str(quote_currency)`, of a text or `None`
abbrev pub shown_currency : Option String → String
shown_currency none = "None"
shown_currency (some t) = t

module _ {D : Type 0} where
  abbrev pub empty_plan : D → EntryPlan D
  empty_plan fee = record {
    no_trade = none;
    fee_bps = fee;
    quote = none;
    atr = none;
    rules = none;
    levels = none;
    stop = none;
    target = none;
    stress_exit_price = none;
    loss_per_unit = none;
    budget = none;
    candidates = none;
    lot_quantity = none;
    passes = 0;
    quantity = none;
    costs = none;
  }

  abbrev pub refuse : EntryPlan D → NoTrade D → EntryPlan D
  refuse plan n = record plan { no_trade = some n }

  -- `if b: return refuse(plan, reason, detail)`
  abbrev pub refuse_if : Bool → EntryPlan D → NoTradeReason → Detail D → Result (Stop D) (Unit {0})
  refuse_if b plan reason detail =
      require (not b) (refused (refuse plan (record { reason = reason; detail = detail })))

  abbrev pub raise_from {ℓ} : {A : Type ℓ} → Result Field A → Result (Stop D) A
  raise_from (ok a) = ok a
  raise_from (err field) = err (raised field)

  abbrev pub quoted {ℓ} :
      {A : Type ℓ} → EntryPlan D → NoTradeReason → Result QuoteProblem A → Result (Stop D) A
  quoted plan reason (ok a) = ok a
  quoted plan reason (err p) =
      err (refused (refuse plan (record { reason = reason; detail = code (problem_value p) })))

  abbrev pub ruled {ℓ} : {A : Type ℓ} → EntryPlan D → Result (NoTrade D) A → Result (Stop D) A
  ruled plan (ok a) = ok a
  ruled plan (err n) = err (refused (refuse plan n))

  abbrev pub known {ℓ} : {A : Type ℓ} → EntryPlan D → String → Option A → Result (Stop D) A
  known plan what (some a) = ok a
  known plan what none = err (
      refused
        (refuse plan (record { reason = NoTradeReason.equity_unavailable; detail = code what })))

  abbrev pub levelled {ℓ} : {A : Type ℓ} → EntryPlan D → Option A → Result (Stop D) A
  levelled plan (some a) = ok a
  levelled plan none = err (
      refused (
        refuse plan
          (record { reason = NoTradeReason.invalid_levels; detail = code "level_not_positive" })))

  -- A finite decimal, where only that is taken.
  abbrev pub finite_decimal : Raw D → Option D
  finite_decimal (Raw.decimal d) = some d
  finite_decimal _ = none

  -- The plan that `plan_long_entry` returns, or the field that it raises at.
  abbrev pub returned : Result (Stop D) (EntryPlan D) → Result Field (EntryPlan D)
  returned (ok plan) = ok plan
  returned (err (raised field)) = err field
  returned (err (refused plan)) = ok plan

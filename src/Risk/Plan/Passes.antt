-- ===== src/Risk/Plan/Passes.antt =====
-- The loop of `plan_long_entry`: what a plan that it opens has been checked for.
use mathlib.Core.Path.{subst}
use crypto_radar.Base.{
  ℕ, zero, suc, ◌+◌, ◌≤◌, ◌<◌, ◌≡◌, ◌∙◌, inl, inr, refl, sym, ap, Bool, true, false, none, some,
  arith, Bool-cases, Option-cases,
}
use crypto_radar.Decimal.{ambient, Decimal}
use crypto_radar.Risk.Envelope.{Budget, NoTrade}
use crypto_radar.Risk.Sizing.{fits, below_minimum}
use crypto_radar.Risk.Plan.{EntryPlan, Market}
use crypto_radar.Risk.Plan.Steps.{costs_of, fit_passes}

abbrev pub opened : {D : Type 0} → EntryPlan D → Bool
opened plan = elim plan.no_trade [ none ↦ true | some n ↦ false ]

module _ {D : Type 0} (num : Decimal D) (m : Market D) (room : Budget D) (stressed fee : D) where
  -- A quantity after so many passes of one lot less.
  abbrev pub after_passes : ℕ → D → D
  after_passes zero quantity = quantity
  after_passes (suc n) quantity =
      after_passes n (num.minus ambient quantity (num.lot_step m.rules.lot_decimals))

  abbrev pub fits_at : D → Bool
  fits_at quantity = fits num (costs_of num m stressed fee quantity) room

  -- The plan has the first quantity that fits, after so many passes.
  pub record IsSized (left passes : ℕ) (quantity : D) (plan : EntryPlan D) : Type 0 where
    pub steps : ℕ
    pub bounded : steps ≤ left
    pub counted : plan.passes ≡ passes + steps
    pub sized : plan.quantity ≡ some (after_passes steps quantity)
    pub priced : plan.costs ≡ some (costs_of num m stressed fee (after_passes steps quantity))
    pub fitting : fits_at (after_passes steps quantity) ≡ true
    pub enough : below_minimum num (after_passes steps quantity) m.quote.ask m.rules ≡ none
    pub earlier : (i : ℕ) → i < steps → fits_at (after_passes i quantity) ≡ false

  -- A quantity that fits is taken at once.
  now-IsSized :
      (left passes : ℕ) (quantity : D) (plan : EntryPlan D)
      → below_minimum num quantity m.quote.ask m.rules ≡ none
      → fits_at quantity ≡ true
      → IsSized left passes quantity (record plan {
        passes = passes;
        quantity = some quantity;
        costs = some (costs_of num m stressed fee quantity);
      })
  now-IsSized left passes quantity plan enough fit = record {
    steps = 0;
    bounded = omega arith;
    counted = omega arith;
    sized = refl;
    priced = refl;
    fitting = fit;
    enough = enough;
    earlier = λ i lt. ground arith;
  }

  earlier_all :
      (steps : ℕ) (quantity : D)
      → fits_at quantity ≡ false
      → ((i : ℕ)
          → i < steps
          → fits_at
              (after_passes i (num.minus ambient quantity (num.lot_step m.rules.lot_decimals)))
            ≡ false)
      → (i : ℕ) → i < suc steps
      → fits_at (after_passes i quantity) ≡ false
  earlier_all steps quantity bad rest zero lt = bad
  earlier_all steps quantity bad rest (suc i) lt = rest i (omega arith)

  -- One that does not is followed by the next one.
  next-IsSized :
      (left passes : ℕ) (quantity : D) (plan : EntryPlan D)
      → fits_at quantity ≡ false
      → IsSized left
          (passes + 1)
          (num.minus ambient quantity (num.lot_step m.rules.lot_decimals))
          plan
      → IsSized (suc left) passes quantity plan
  next-IsSized left passes quantity plan bad h = record {
    steps = suc h.steps;
    bounded = omega (arith, h.bounded);
    counted = omega (arith, h.counted);
    sized = h.sized;
    priced = h.priced;
    fitting = h.fitting;
    enough = h.enough;
    earlier = earlier_all h.steps quantity bad h.earlier;
  }

  abbrev next_lot : D → D
  next_lot quantity = num.minus ambient quantity (num.lot_step m.rules.lot_decimals)

  abbrev priced_plan : ℕ → D → EntryPlan D → EntryPlan D
  priced_plan passes quantity plan = record plan {
    passes = passes;
    quantity = some quantity;
    costs = some (costs_of num m stressed fee quantity);
  }

  taken :
      (left passes : ℕ) (quantity : D) (plan : EntryPlan D)
      → below_minimum num quantity m.quote.ask m.rules ≡ none
      → fits_at quantity ≡ true
      → fit_passes num m room stressed fee left passes quantity plan
        ≡ priced_plan passes quantity plan
  unfolding fit_passes
  taken zero passes quantity plan enough fit = ground arith
  taken (suc left) passes quantity plan enough fit = ground arith

  too_small :
      (left passes : ℕ) (quantity : D) (plan : EntryPlan D) (n : NoTrade D)
      → below_minimum num quantity m.quote.ask m.rules ≡ some n
      → opened (fit_passes num m room stressed fee left passes quantity plan) ≡ false
  unfolding fit_passes
  too_small zero passes quantity plan n e = ground arith
  too_small (suc left) passes quantity plan n e = ground arith

  given_up :
      (passes : ℕ) (quantity : D) (plan : EntryPlan D)
      → below_minimum num quantity m.quote.ask m.rules ≡ none
      → fits_at quantity ≡ false
      → opened (fit_passes num m room stressed fee zero passes quantity plan) ≡ false
  unfolding fit_passes
  given_up passes quantity plan enough bad = ground arith

  tried_again :
      (left passes : ℕ) (quantity : D) (plan : EntryPlan D)
      → below_minimum num quantity m.quote.ask m.rules ≡ none
      → fits_at quantity ≡ false
      → fit_passes num m room stressed fee (suc left) passes quantity plan
        ≡ fit_passes num m room stressed fee left
            (passes + 1)
            (next_lot quantity)
            (priced_plan passes quantity plan)
  unfolding fit_passes
  tried_again left passes quantity plan enough bad = ground arith

  pub fit_passes-IsSized :
      (left passes : ℕ) (quantity : D) (plan : EntryPlan D)
      → opened (fit_passes num m room stressed fee left passes quantity plan) ≡ true
      → IsSized left passes quantity (fit_passes num m room stressed fee left passes quantity plan)
  fit_passes-IsSized zero passes quantity plan done =
      elim (Option-cases (below_minimum num quantity m.quote.ask m.rules)) [
        | inl e ↦ elim (Bool-cases (fits_at quantity)) [
          | inl f ↦
              subst (IsSized zero passes quantity) (sym (taken zero passes quantity plan e f))
                (now-IsSized zero passes quantity plan e f)
          | inr f ↦ ground (arith, given_up passes quantity plan e f)
        ]
        | inr (n, e) ↦ ground (arith, too_small zero passes quantity plan n e)
      ]
  fit_passes-IsSized (suc left) passes quantity plan done =
      elim (Option-cases (below_minimum num quantity m.quote.ask m.rules)) [
        | inl e ↦ elim (Bool-cases (fits_at quantity)) [
          | inl f ↦
              subst (IsSized (suc left) passes quantity)
                (sym (taken (suc left) passes quantity plan e f))
                (now-IsSized (suc left) passes quantity plan e f)
          | inr f ↦
              let again = tried_again left passes quantity plan e f in
              subst (IsSized (suc left) passes quantity) (sym again) (
                next-IsSized left passes quantity _ f (
                  fit_passes-IsSized left (passes + 1) (next_lot quantity)
                    (priced_plan passes quantity plan) (sym (ap opened again) ∙ done)))
        ]
        | inr (n, e) ↦ ground (arith, too_small (suc left) passes quantity plan n e)
      ]

-- ===== src/Risk/Pair/Valid.antt =====
-- What the rules of a pair keep, however its entry is written (radar_v08/domain/risk.py).
use crypto_radar.Base.{ℕ, ◌≤◌, ◌≡◌, arith, String, true, false, Option, none, some}
use crypto_radar.Base.Result.{Result, ok, err, ◌>>=◌, Gives, Gives_at}
use crypto_radar.Base.Equality.{string_eq}
use crypto_radar.Decimal.{Decimal}
use crypto_radar.Risk.Envelope.{NoTrade}
use crypto_radar.Risk.Pair.{
  PairRules, Entry, decimals_field, decimal_text_field, given_tick, absent_tick, tick_of,
  parse_pair_rules,
}

module _ {D : Type 0} (num : Decimal D) where
  -- At most 18 decimals, minima that are not negative, and a tick above zero.
  pub record IsUsable (rules : PairRules D) : Type 0 where
    pub few : rules.lot_decimals ≤ 18
    pub minimum : num.leb (num.whole 0) rules.ordermin ≡ true
    pub cost : num.leb (num.whole 0) rules.costmin ≡ true
    pub tick : num.leb rules.tick (num.whole 0) ≡ false

  decimals_bounded :
      (entry : Entry D) (field : String) → Gives (λ n. n ≤ 18) (decimals_field num entry field)
  unfolding decimals_field
  decimals_bounded entry field = ground arith

  decimal_bounded :
      (entry : Entry D) (field : String)
      → Gives (λ d. num.leb (num.whole 0) d ≡ true) (decimal_text_field num entry field)
  unfolding decimal_text_field
  decimal_bounded entry field = ground arith

  given_bounded :
      (entry : Entry D) → Gives (λ x. num.leb x.0 (num.whole 0) ≡ false) (given_tick num entry)
  unfolding given_tick
  given_bounded entry = ground (arith, decimal_bounded entry "tick_size")

  module _ (lot_above : (n : ℕ) → num.leb (num.lot_step n) (num.whole 0) ≡ false) where
    stepped :
        (r : Result (NoTrade D) ℕ)
        → Gives {A = D × String}
            (λ x. num.leb x.0 (num.whole 0) ≡ false)
            (r >>= (λ n. ok (num.lot_step n, "pair_decimals")))
    stepped (ok n) = lot_above n
    stepped (err e) = tt

    absent_bounded :
        (entry : Entry D) → Gives (λ x. num.leb x.0 (num.whole 0) ≡ false) (absent_tick num entry)
    unfolding absent_tick
    absent_bounded entry = ground (arith, stepped (decimals_field num entry "pair_decimals"))

    tick_bounded :
        (entry : Entry D) → Gives (λ x. num.leb x.0 (num.whole 0) ≡ false) (tick_of num entry)
    unfolding tick_of
    tick_bounded entry = ground (arith, given_bounded entry, absent_bounded entry)

    parsed-IsUsable : (entry : Option (Entry D)) → Gives IsUsable (parse_pair_rules num entry)
    unfolding parse_pair_rules
    parsed-IsUsable none = tt
    parsed-IsUsable (some entry) = ground (
      arith,
      decimals_bounded entry "lot_decimals",
      decimal_bounded entry "ordermin",
      decimal_bounded entry "costmin",
      tick_bounded entry,
    )

    -- The pair rules that are read from an entry have at most 18 lot decimals, minima that are not
    -- negative, and a tick above zero, where every lot step is above zero.
    pub rules-IsUsable :
        (entry : Option (Entry D)) (rules : PairRules D)
        → parse_pair_rules num entry ≡ ok rules
        → IsUsable rules
    rules-IsUsable entry rules h = Gives_at IsUsable rules h (parsed-IsUsable entry)

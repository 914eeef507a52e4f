-- ===== src/Paper/Play.antt =====
-- The sums and the admission of a play, of radar_v08/domain/paper.py.
pub mod Run
use text.Mathlib.Text.{◌==◌ as str_eq}
use crypto_radar.Base.{
  ℕ, String, Bool, true, false, Option, none, some, List, [], ◌∷◌, any, length, leb, if◌then◌else◌,
}
use crypto_radar.Base.Result.{Result, ok, err, ◌>>=◌, require}
use crypto_radar.Decimal.{Context, half_even, Decimal, less}
use crypto_radar.Paper.Quote.{Direction, long, short, Quote, mid, parse_direction}
use crypto_radar.Paper.Exit.{Field, require_amount, require_amount_or_zero}

pub data SkipReason : Type 0 where
  already_recorded no_direction invalid_price no_valid_atr invalid_levels : SkipReason
  asset_already_open max_open insufficient_cash : SkipReason

pub data Outcome : Type 0 where
  win loss flat : Outcome

pub record PlayResult (D : Type 0) : Type 0 where
  pub entry_price : D
  pub exit_price : D
  pub gross_mid : D
  pub spread_cost : D
  pub fees : D
  pub net : D
  pub outcome : Outcome

pub record OpenPosition (D : Type 0) : Type 0 where
  pub asset : String
  pub stake : D

module _ {D : Type 0} (num : Decimal D) where
  abbrev pub outcome_of : D → Outcome
  outcome_of net =
      if less num (num.whole 0) net
      then Outcome.win
      else if less num net (num.whole 0)
      then Outcome.loss
      else Outcome.flat

  -- The prices of a play, its gain at the mid and the one at its prices.
  unfoldable pub gains : Direction → D → Quote D → Quote D → D × D × D × D
  gains long stake entry exit =
      let move = num.over half_even (mid num exit) (mid num entry) in
      (
        entry.ask,
        exit.bid,
        num.times half_even stake (num.minus half_even move (num.whole 1)),
        num.times half_even stake
            (num.minus half_even (num.over half_even exit.bid entry.ask) (num.whole 1)),
      )
  gains short stake entry exit =
      let move = num.over half_even (mid num exit) (mid num entry) in
      (
        entry.bid,
        exit.ask,
        num.times half_even stake (num.minus half_even (num.whole 1) move),
        num.over half_even (num.times half_even stake (num.minus half_even entry.bid exit.ask))
            entry.bid,
      )

  -- `settle`
  unfoldable pub settle : Direction → D → D → Quote D → Quote D → Result Field (PlayResult D)
  settle direction stake fee_bps entry exit = do
    _ ← require_amount num "stake" stake
    _ ← require_amount_or_zero num "fee_bps" fee_bps
    let fraction = num.over half_even fee_bps (num.whole 10_000)
    let (entry_price, exit_price, gross_mid, price_result) = gains direction stake entry exit
    let exit_notional = num.over half_even (num.times half_even stake exit_price) entry_price
    let fees = num.cents (
        num.plus half_even (num.times half_even stake fraction)
          (num.times half_even exit_notional fraction))
    let gross = num.cents gross_mid
    let spread = num.cents (num.minus half_even gross_mid price_result)
    let net = num.minus half_even (num.minus half_even gross spread) fees
    ok (record {
      entry_price = entry_price;
      exit_price = exit_price;
      gross_mid = gross;
      spread_cost = spread;
      fees = fees;
      net = net;
      outcome = outcome_of net;
    })

  -- The running total of a loop `total += x`.
  unfoldable pub add_all : D → List D → D
  add_all total [] = total
  add_all total (x ∷ xs) = add_all (num.plus half_even total x) xs

  -- `balance`
  unfoldable pub balance : D → List D → Result Field D
  balance start nets = do _ ← require_amount num "start_balance" start; ok (add_all start nets)

  abbrev stakes : List (OpenPosition D) → List D
  stakes [] = []
  stakes (p ∷ ps) = p.stake ∷ stakes ps

  -- `available_cash`
  unfoldable pub available_cash : D → List (OpenPosition D) → D
  available_cash current positions =
      num.minus half_even current (add_all (num.whole 0) (stakes positions))

  abbrev pub is_open : String → List (OpenPosition D) → Bool
  is_open asset = any (λ p. str_eq p.asset asset)

  abbrev refusal : Option Direction → String → List (OpenPosition D) → D → D → ℕ → Option SkipReason
  refusal none asset positions current stake max = some SkipReason.no_direction
  refusal (some d) asset positions current stake max =
      if is_open asset positions
      then some SkipReason.asset_already_open
      else if leb max (length positions)
      then some SkipReason.max_open
      else if less num (available_cash current positions) stake
      then some SkipReason.insufficient_cash
      else none

  -- `admit`
  unfoldable pub admit :
      Option String → String → List (OpenPosition D) → D → D → ℕ → Result Field (Option SkipReason)
  admit direction asset positions current stake max = do
    _ ← require_amount num "stake" stake
    _ ← require (leb 1 max) "max_open"
    ok (refusal (parse_direction direction) asset positions current stake max)

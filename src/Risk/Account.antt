-- ===== src/Risk/Account.antt =====
-- The equity, the locks and the settlement of radar_v08/domain/risk.py.
pub mod Locks
pub mod Marks
use crypto_radar.Base.{ℕ, String, Bool, true, false, not, List, [], ◌∷◌, ◌++◌, if◌then◌else◌}
use crypto_radar.Base.Result.{Result, ok, err, ◌>>=◌, require}
use crypto_radar.Decimal.{Context, half_even, Decimal, less}
use crypto_radar.Paper.Play.{Outcome, outcome_of, add_all}
use crypto_radar.Risk.Envelope.{
  Field, Envelope, LockKind, daily_loss, drawdown, percent_of, require_positive,
  require_nonnegative,
}
use crypto_radar.Risk.Sizing.{bps}

pub record Settlement (D : Type 0) : Type 0 where
  pub quantity : D
  pub entry_price : D
  pub exit_price : D
  pub gross : D
  pub entry_fee : D
  pub exit_fee : D
  pub fees : D
  pub net : D
  pub outcome : Outcome

module _ {D : Type 0} (num : Decimal D) where
  -- `entry_cost_basis`
  unfoldable pub entry_cost_basis : D → D → D → Result Field D
  entry_cost_basis quantity entry_ask fee_bps = do
    _ ← require_positive num "quantity" quantity
    _ ← require_positive num "entry_ask" entry_ask
    _ ← require_nonnegative num "fee_bps" fee_bps
    let notional = num.times half_even quantity entry_ask
    ok (
        num.plus half_even notional
          (num.cents (num.over half_even (num.times half_even notional fee_bps) (bps num))))

  -- `unrealized_mark`
  unfoldable pub unrealized_mark : D → D → D → D → Result Field D
  unrealized_mark quantity bid cost_basis fee_bps = do
    _ ← require_positive num "quantity" quantity
    _ ← require_positive num "bid" bid
    _ ← require_positive num "cost_basis" cost_basis
    _ ← require_nonnegative num "fee_bps" fee_bps
    let proceeds = num.times half_even quantity bid
    let fee = num.cents_up (num.over half_even (num.times half_even proceeds fee_bps) (bps num))
    ok (num.minus half_even (num.minus half_even proceeds fee) cost_basis)

  -- `_sum`
  abbrev sum_d : List D → D
  sum_d xs = add_all num (num.whole 0) xs

  -- `account_equity`
  unfoldable pub account_equity : D → List D → List D → Result Field D
  account_equity assigned nets marks = do
    _ ← require_positive num "assigned" assigned
    ok (num.plus half_even (num.plus half_even assigned (sum_d nets)) (sum_d marks))

  -- `available_cash`
  unfoldable pub available_cash : D → List D → List D → Result Field D
  available_cash assigned nets bases = do
    _ ← require_positive num "assigned" assigned
    ok (num.minus half_even (num.plus half_even assigned (sum_d nets)) (sum_d bases))

  -- `daily_lock_tripped`
  unfoldable pub daily_lock_tripped : Envelope D → D → D → Result Field Bool
  daily_lock_tripped e equity day_start = do
    _ ← require_positive num "day_start_equity" day_start
    ok (
        num.leb (num.minus half_even equity day_start)
          (num.opposite half_even (percent_of num day_start e.daily_loss_pct)))

  -- `drawdown_lock_tripped`
  unfoldable pub drawdown_lock_tripped : Envelope D → D → D → Result Field Bool
  drawdown_lock_tripped e equity high_water = do
    _ ← require_positive num "high_water" high_water
    ok (
        num.leb equity (
          num.times half_even high_water (
            num.minus half_even (num.whole 1) (num.over half_even e.drawdown_pct (num.whole 100)))))

  abbrev pub when_tripped : Bool → LockKind → List LockKind
  when_tripped true k = k ∷ []
  when_tripped false k = []

  -- `tripped_locks`
  unfoldable pub tripped_locks : Envelope D → D → D → D → Result Field (List LockKind)
  tripped_locks e equity day_start high_water = do
    daily ← daily_lock_tripped e equity day_start
    drawn ← drawdown_lock_tripped e equity high_water
    ok (when_tripped daily daily_loss ++ when_tripped drawn drawdown)

  -- `next_high_water`
  unfoldable pub next_high_water : D → D → Result Field D
  next_high_water high_water equity = do
    _ ← require_positive num "high_water" high_water
    ok (if less num high_water equity then equity else high_water)

  -- `settle_long`
  unfoldable pub settle_long : D → D → D → D → Result Field (Settlement D)
  settle_long quantity entry_ask exit_bid fee_bps = do
    _ ← require_positive num "quantity" quantity
    _ ← require_positive num "entry_ask" entry_ask
    _ ← require_positive num "exit_bid" exit_bid
    _ ← require_nonnegative num "fee_bps" fee_bps
    let fee = num.over half_even fee_bps (bps num)
    let gross = num.cents (num.times half_even quantity (num.minus half_even exit_bid entry_ask))
    let entry = num.cents (num.times half_even (num.times half_even quantity entry_ask) fee)
    let exit = num.cents (num.times half_even (num.times half_even quantity exit_bid) fee)
    let fees = num.plus half_even entry exit
    let net = num.minus half_even gross fees
    ok (record {
      quantity = quantity;
      entry_price = entry_ask;
      exit_price = exit_bid;
      gross = gross;
      entry_fee = entry;
      exit_fee = exit;
      fees = fees;
      net = net;
      outcome = outcome_of num net;
    })

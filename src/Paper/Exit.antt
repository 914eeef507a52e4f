-- ===== src/Paper/Exit.antt =====
-- The exit policy of radar_v08/domain/paper.py.
pub mod Due
use crypto_radar.Base.{
  ℕ, ◌+◌, ◌*◌, String, Bool, true, false, ◌||◌, not, Option, none, some, leb, ltb, if◌then◌else◌,
}
use crypto_radar.Base.Result.{Result, ok, err, ◌>>=◌, require}
use crypto_radar.Invocation.Lease.{Instant}
use crypto_radar.Decimal.{Context, half_even, Decimal, less}
use crypto_radar.Paper.Quote.{Direction, long, short, Quote}

-- `PaperInputError.field`
abbrev pub Field : Type 0
Field = String

pub data ExitReason : Type 0 where
  stop target time : ExitReason

pub record ExitLevels (D : Type 0) : Type 0 where
  pub policy_id : String
  pub atr : D
  pub entry_price : D
  pub stop : D
  pub target : D
  pub hold_minutes : ℕ

abbrev pub hold_limit : ℕ
hold_limit = 24 * 60

-- `due_at`, of an aware moment or a naive one
unfoldable pub due_at : Option Instant → ℕ → Result Field Instant
due_at none minutes = err "entry_ts"
due_at (some t) minutes =
    if leb minutes 0 then err "hold_minutes" else ok (t + minutes * 60_000_000)

module _ {D : Type 0} (num : Decimal D) where
  -- `_require_amount`, of a finite decimal
  abbrev pub require_amount : Field → D → Result Field (Unit {0})
  require_amount field d = require (less num (num.whole 0) d) field

  abbrev pub require_amount_or_zero : Field → D → Result Field (Unit {0})
  require_amount_or_zero field d = require (num.leb (num.whole 0) d) field

  -- The prices of `exit_levels`: the entry, the stop and the target.
  unfoldable pub levels_of : Direction → Quote D → D → D × D × D
  levels_of long entry atr =
      let distance = num.times half_even (num.whole 2) atr in
      let reward = num.times half_even (num.whole 2) distance in
      (entry.ask, num.minus half_even entry.ask distance, num.plus half_even entry.ask reward)
  levels_of short entry atr =
      let distance = num.times half_even (num.whole 2) atr in
      let reward = num.times half_even (num.whole 2) distance in
      (entry.bid, num.plus half_even entry.bid distance, num.minus half_even entry.bid reward)

  -- `exit_levels`
  unfoldable pub exit_levels : Direction → Quote D → D → Result Field (Option (ExitLevels D))
  exit_levels direction entry atr = do
    _ ← require_amount "atr" atr
    let (price, stop_at, target_at) = levels_of direction entry atr
    ok (
        if num.leb stop_at (num.whole 0) || num.leb target_at (num.whole 0)
        then none
        else some (record {
          policy_id = "ex1_initial_paper_v1";
          atr = atr;
          entry_price = price;
          stop = stop_at;
          target = target_at;
          hold_minutes = hold_limit;
        }))

  -- What `exit_decision` sees: the quote touches the stop, and it touches the target.
  abbrev pub touches_stop : Direction → D → Quote D → Bool
  touches_stop long level quote = num.leb quote.bid level
  touches_stop short level quote = num.leb level quote.ask

  abbrev pub touches_target : Direction → D → Quote D → Bool
  touches_target long level quote = num.leb level quote.bid
  touches_target short level quote = num.leb quote.ask level

  -- `exit_decision`
  unfoldable pub exit_decision :
      Direction → D → D → Instant → Instant → Quote D → Result Field (Option ExitReason)
  exit_decision direction stop_at target_at due observed quote = do
    _ ← require_amount "stop" stop_at
    _ ← require_amount "target" target_at
    ok (
        if touches_stop direction stop_at quote
        then some ExitReason.stop
        else if touches_target direction target_at quote
        then some ExitReason.target
        else if leb due observed
        then some ExitReason.time
        else none)

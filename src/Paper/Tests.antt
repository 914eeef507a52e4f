-- ===== src/Paper/Tests.antt =====
-- Two plays, and the close of one a day after it was entered.
use crypto_radar.Base.{ℕ, ◌≡◌, ◌≤◌, refl, arith, none, some, [], ◌∷◌, length}
use crypto_radar.Base.Result.{ok}
use crypto_radar.Invocation.Lease.{Instant}
use crypto_radar.Decimal.Fixed.{fixed}
use crypto_radar.Paper.Quote.{Direction, Quote, parse_direction}
use crypto_radar.Paper.Exit.{ExitLevels, ExitReason, exit_levels, exit_decision, levels_of, due_at}
use crypto_radar.Paper.Exit.Due.{closes_by_due}
use crypto_radar.Paper.Play.{OpenPosition, admit, available_cash, add_all}
use crypto_radar.Paper.Play.Run.{Game, Move, IsSpread, plays-IsSpread}

abbrev touch : Quote ℕ
touch = record { bid = 99_000_000; ask = 100_000_000 }

abbrev levels : ExitLevels ℕ
levels = record {
  policy_id = "ex1_initial_paper_v1";
  atr = 1_000_000;
  entry_price = 100_000_000;
  stop = 98_000_000;
  target = 104_000_000;
  hold_minutes = 1_440;
}

levels_set : exit_levels fixed Direction.long touch 1_000_000 ≡ ok (some levels)
unfolding exit_levels levels_of
levels_set = refl

closes_by_due_example :
    (due : Instant) × (due_at (some 5) 1_440 ≡ ok due)
    × ((reason : ExitReason) × (exit_decision fixed Direction.long 98_000_000 104_000_000 due
            86_400_000_007 touch
          ≡ ok (some reason)))
closes_by_due_example =
    closes_by_due fixed Direction.long touch 1_000_000 levels 5 86_400_000_007 touch levels_set
      (omega arith)

abbrev first_play : OpenPosition ℕ
first_play = record { asset = "BTC"; stake = 50_000_000 }

abbrev second_play : OpenPosition ℕ
second_play = record { asset = "ETH"; stake = 40_000_000 }

first_admitted : admit fixed (some "LONG") "BTC" [] 100_000_000 50_000_000 2 ≡ ok none
unfolding admit parse_direction available_cash add_all
first_admitted = refl

second_admitted :
    admit fixed (some "SHORT") "ETH" (first_play ∷ []) 100_000_000 40_000_000 2 ≡ ok none
unfolding admit parse_direction available_cash add_all
second_admitted = refl

two_plays : Game fixed 2 (second_play ∷ first_play ∷ [])
two_plays =
    Game.next
      (Game.next Game.start (Move.enter (some "LONG") first_play 100_000_000 first_admitted))
      (Move.enter (some "SHORT") second_play 100_000_000 second_admitted)

plays-IsSpread_example :
    IsSpread fixed (second_play ∷ first_play ∷ []) × (length (second_play ∷ first_play ∷ []) ≤ 2)
plays-IsSpread_example = plays-IsSpread fixed 2 two_plays

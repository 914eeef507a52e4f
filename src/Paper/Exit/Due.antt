-- ===== src/Paper/Exit/Due.antt =====
-- A play of radar_v08/domain/paper.py does not outlive its time limit.
use crypto_radar.Base.{◌+◌, ◌≤◌, ◌≡◌, refl, arith, true, false, inl, inr, Bool-cases, some, leb}
use crypto_radar.Base.Result.{ok}
use crypto_radar.Invocation.Lease.{Instant}
use crypto_radar.Decimal.{Decimal}
use crypto_radar.Paper.Quote.{Direction, Quote}
use crypto_radar.Paper.Exit.{
  ExitLevels, ExitReason, exit_levels, exit_decision, due_at, touches_stop, touches_target,
}

module _ {D : Type 0} (num : Decimal D) where
  -- The levels of a play are positive, and it is held for a day.
  record IsFrozen (levels : ExitLevels D) : Type 0 where
    stop_above : num.leb levels.stop (num.whole 0) ≡ false
    target_above : num.leb levels.target (num.whole 0) ≡ false
    day : levels.hold_minutes ≡ 1_440

  exit_levels-IsFrozen :
      (direction : Direction) (entry : Quote D) (atr : D) (levels : ExitLevels D)
      → exit_levels num direction entry atr ≡ ok (some levels)
      → IsFrozen levels
  unfolding exit_levels
  exit_levels-IsFrozen direction entry atr levels h = ground arith

  decided :
      (direction : Direction) (low high : D) (due observed : Instant) (quote : Quote D)
      → num.leb low (num.whole 0) ≡ false
      → num.leb high (num.whole 0) ≡ false
      → due ≤ observed
      → (reason : ExitReason) × (exit_decision num direction low high due observed quote
          ≡ ok (some reason))
  unfolding exit_decision
  decided direction low high due observed quote a b le =
      let late : leb due observed ≡ true = ground arith in
      elim (Bool-cases (touches_stop num direction low quote)) [
        | inl hit ↦ (ExitReason.stop, rw (a, b, hit) refl)
        | inr miss ↦ elim (Bool-cases (touches_target num direction high quote)) [
          | inl hit ↦ (ExitReason.target, rw (a, b, miss, hit) refl)
          | inr away ↦ (ExitReason.time, rw (a, b, miss, away, late) refl)
        ]
      ]

  -- A play with the levels that the exit policy set is closed by any quote observed a day or more
  -- after it was opened: its due moment exists and the exit decision names a reason.
  pub closes_by_due :
      (direction : Direction) (entry : Quote D) (atr : D) (levels : ExitLevels D)
      (opened observed : Instant)
      → (quote : Quote D) → exit_levels num direction entry atr ≡ ok (some levels)
      → opened + 86_400_000_000 ≤ observed
      → (due : Instant) × (due_at (some opened) levels.hold_minutes ≡ ok due)
        × ((reason : ExitReason) × (exit_decision num direction levels.stop levels.target due
                observed quote
              ≡ ok (some reason)))
  unfolding due_at
  closes_by_due direction entry atr levels opened observed quote h late =
      let set = exit_levels-IsFrozen direction entry atr levels h in
      (
        opened + 86_400_000_000,
        ground (arith, set.day),
        decided direction levels.stop levels.target (opened + 86_400_000_000) observed quote
            set.stop_above set.target_above late,
      )

-- ===== src/Paper/Play/Run.antt =====
-- The open plays of radar_v08/domain/paper.py when each is admitted.
use mathlib.Core.Path.{subst}
use crypto_radar.Base.{
  ℕ, ◌+◌, ◌≤◌, ◌≡◌, arith, String, false, Option, none, List, [], ◌∷◌, ◌++◌, length,
}
use crypto_radar.Base.Result.{ok}
use crypto_radar.Decimal.{Decimal}
use crypto_radar.Paper.Play.{OpenPosition, is_open, admit}

module _ {D : Type 0} (num : Decimal D) where
  -- No two plays are on one asset.
  abbrev pub IsSpread : List (OpenPosition D) → Type 0
  IsSpread [] = Unit
  IsSpread (p ∷ ps) = (is_open num p.asset ps ≡ false) × IsSpread ps

  still_closed :
      (asset : String) (front : List (OpenPosition D)) (p : OpenPosition D)
      (back : List (OpenPosition D))
      → is_open num asset (front ++ (p ∷ back)) ≡ false
      → is_open num asset (front ++ back) ≡ false
  still_closed asset [] p back h = ground arith
  still_closed asset (q ∷ front) p back h = ground (arith, still_closed asset front p back)

  IsSpread-less :
      (front : List (OpenPosition D)) (p : OpenPosition D) (back : List (OpenPosition D))
      → IsSpread (front ++ (p ∷ back))
      → IsSpread (front ++ back)
  IsSpread-less [] p back h = h.1
  IsSpread-less (q ∷ front) p back h =
      (still_closed q.asset front p back h.0, IsSpread-less front p back h.1)

  length_less :
      (front : List (OpenPosition D)) (p : OpenPosition D) (back : List (OpenPosition D))
      → length (front ++ back) ≤ length (front ++ (p ∷ back))
  length_less [] p back = omega arith
  length_less (q ∷ front) p back = omega (arith, length_less front p back)

  module _ (max : ℕ) where
    -- A play is admitted and opened, or an open one is closed.
    pub data Move (ps : List (OpenPosition D)) : List (OpenPosition D) → Type 0 where
      enter :
          (direction : Option String) (p : OpenPosition D) (current : D)
          → admit num direction p.asset ps current p.stake max ≡ ok none
          → Move ps (p ∷ ps)
      leave :
          (front : List (OpenPosition D)) (p : OpenPosition D) (back : List (OpenPosition D))
          → ps ≡ front ++ (p ∷ back)
          → Move ps (front ++ back)

    pub data Game : List (OpenPosition D) → Type 0 where
      start : Game []
      next : {ps qs : List (OpenPosition D)} → Game ps → Move ps qs → Game qs

    admitted_spread :
        (direction : Option String) (p : OpenPosition D) (ps : List (OpenPosition D)) (current : D)
        → admit num direction p.asset ps current p.stake max ≡ ok none
        → (is_open num p.asset ps ≡ false) × (length ps + 1 ≤ max)
    unfolding admit
    admitted_spread direction p ps current h = ground arith

    -- However plays are admitted and closed, no two open plays are on one asset, and there are
    -- never more of them than the maximum.
    pub plays-IsSpread : {ps : List (OpenPosition D)} → Game ps → IsSpread ps × (length ps ≤ max)
    plays-IsSpread start = (tt, omega arith)
    plays-IsSpread (next {ps} game (enter direction p current h)) =
        let (spread, few) = plays-IsSpread game in
        let (apart, room) = admitted_spread direction p ps current h in
        ((apart, spread), omega (arith, room))
    plays-IsSpread (next {ps} game (leave front p back e)) =
        let (spread, few) = plays-IsSpread game in
        (
          IsSpread-less front p back (subst IsSpread e spread),
          omega (arith, length_less front p back, subst (λ l. length l ≤ max) e few),
        )

-- ===== src/Setups/Directions.antt =====
-- What a class of setup says of its direction and of the volume behind it.
use text.Mathlib.Text.{◌==◌}
use crypto_radar.Base.{
  ◌≡◌, ◌≢◌, refl, Bool, true, false, ◌&&◌, not, &&-eq-true, Option-cases, inl, inr, arith,
  if◌then◌else◌,
}
use crypto_radar.Float.{Float, is_true}
use crypto_radar.Setups.{
  Thresholds, L1Features, L2Features, SetupType, SetupResult, Direction, Sign, sign,
  direction_from_sign, volume_confirmed, reversal_confirmed, squeeze_release_confirmed,
  breakout_confirmed, continuation_confirmed, classify_setup,
}

module _ {F : Type 0} (num : Float F) (thresholds : Thresholds F) (l1 : L1Features F)
    (l2 : L2Features F) where
  reversal_lem :
      reversal_confirmed num thresholds l1 l2 ≡ true
      → (volume_confirmed num thresholds l1 ≡ true) × (sign num l2.return_15m_atr ≢ Sign.flat)
  unfolding reversal_confirmed
  reversal_lem h = elim (Option-cases l2.return_1h_atr) [
    | inl missing ↦ ground arith
    | inr (hourly, there_is) ↦ ground arith
  ]

  squeeze_lem :
      squeeze_release_confirmed num thresholds l1 l2 ≡ true
      → volume_confirmed num thresholds l1 ≡ true
  unfolding squeeze_release_confirmed
  squeeze_lem h = ground arith

  continuation_lem :
      continuation_confirmed num thresholds l2 ≡ true → sign num l2.return_1h_atr ≢ Sign.flat
  unfolding continuation_confirmed
  continuation_lem h = ground arith

  direction_lem : (s : Sign) → s ≢ Sign.flat → direction_from_sign s ≢ Direction.undirected
  direction_lem s h = ground arith

  -- What the class of a result promises of its direction and of the confirmed volume.
  abbrev Promised : SetupType → Direction → Type 0
  Promised SetupType.breakout d =
      (d ≢ Direction.undirected) × (volume_confirmed num thresholds l1 ≡ true)
  Promised SetupType.reversal d =
      (d ≢ Direction.undirected) × (volume_confirmed num thresholds l1 ≡ true)
  Promised SetupType.squeeze_release d = volume_confirmed num thresholds l1 ≡ true
  Promised SetupType.continuation d = d ≢ Direction.undirected
  Promised SetupType.exhausted d = d ≡ Direction.undirected
  Promised SetupType.no_setup d = d ≡ Direction.undirected

  abbrev pub IsMeant : SetupResult → Type 0
  IsMeant r = Promised r.setup_type r.direction

  first_match :
      (b : Bool) (r r' : SetupResult)
      → (b ≡ true → IsMeant r)
      → IsMeant r'
      → IsMeant (if b then r else r')
  first_match true r r' h h' = h refl
  first_match false r r' h h' = h'

  reversal_meant :
      reversal_confirmed num thresholds l1 l2 ≡ true
      → (direction_from_sign (sign num l2.return_15m_atr) ≢ Direction.undirected)
        × (volume_confirmed num thresholds l1 ≡ true)
  reversal_meant h =
      let (v, s) = reversal_lem h in (direction_lem (sign num l2.return_15m_atr) s, v)

  breakout_directed :
      (b : Bool) → (if b then Direction.long else Direction.short) ≢ Direction.undirected
  breakout_directed b = ground arith

  -- A breakout, a reversal and a continuation have a direction, an exhaustion and no setup have
  -- none; and a breakout, a reversal and a squeeze release have their volume confirmed.
  pub setup-IsMeant : IsMeant (classify_setup num thresholds l1 l2)
  unfolding classify_setup
  setup-IsMeant =
      let reverses = reversal_confirmed num thresholds l1 l2 in
      let volume = volume_confirmed num thresholds l1 in
      first_match l2.l2_warmup _ _ (λ e. refl)
        (first_match (l2.exhaustion && reverses) _ _
          (λ e. reversal_meant (&&-eq-true l2.exhaustion reverses e).1)
          (first_match (squeeze_release_confirmed num thresholds l1 l2) _ _ (λ e. squeeze_lem e)
            (first_match
              (breakout_confirmed num thresholds l2 && volume && is_true l2.range_expansion) _ _
              (λ e. (breakout_directed (l2.breakout_state == "BREAKOUT_UP"), ground arith))
              (first_match (not l2.exhaustion && reverses) _ _
                (λ e. reversal_meant (&&-eq-true (not l2.exhaustion) reverses e).1)
                (first_match (not l2.exhaustion && continuation_confirmed num thresholds l2) _ _
                  (λ e. direction_lem (sign num l2.return_1h_atr) (
                    continuation_lem
                      (&&-eq-true (not l2.exhaustion) (continuation_confirmed num thresholds l2)
                        e).1))
                  (first_match l2.exhaustion _ _ (λ e. refl) refl))))))

-- ===== src/Setups.antt =====
-- radar_v08/setups.py: the class and direction of a setup, first match wins. Python's floats and the
-- thresholds of radar_v08/config.py are parameters.
pub mod Directions
pub mod Tests
use text.Mathlib.Text.{◌==◌}
use crypto_radar.Base.{
  String, ◌≡◌, Bool, true, false, ◌&&◌, ◌||◌, not, Option, none, some, List, [], ◌∷◌, arith,
  if◌then◌else◌,
}
use crypto_radar.Float.{Float, is_true, reaches}

-- The thresholds of `SETUP_THRESHOLDS` that the classification reads.
pub record Thresholds (F : Type 0) : Type 0 where
  pub volume_confirm_intensity : F
  pub reversal_min_atr_15m : F
  pub momentum_min_atr_15m : F
  pub momentum_min_atr_1h : F

-- The fields of `Features` and `L2Features` that the classification reads.
pub record L1Features (F : Type 0) : Type 0 where
  pub volume_intensity_15m : Option F

pub record L2Features (F : Type 0) : Type 0 where
  pub l2_warmup : Bool
  pub return_5m_atr : Option F
  pub return_15m_atr : Option F
  pub return_1h_atr : Option F
  pub range_compression : Option Bool
  pub range_expansion : Option Bool
  pub breakout_state : String
  pub rejection_state : String
  pub exhaustion : Bool

pub data SetupType : Type 0 where
  breakout continuation reversal squeeze_release exhausted no_setup : SetupType

pub data Direction : Type 0 where
  long short undirected : Direction

pub record SetupResult : Type 0 where
  pub setup_type : SetupType
  pub direction : Direction
  pub notes : List String

-- The results of `sign`: 1, -1 and 0.
pub data Sign : Type 0 where
  positive negative flat : Sign

abbrev pub sign_eq : Sign → Sign → Bool
sign_eq positive positive = true
sign_eq negative negative = true
sign_eq flat flat = true
sign_eq _ _ = false

-- `_direction_from_sign`
abbrev pub direction_from_sign : Sign → Direction
direction_from_sign positive = long
direction_from_sign negative = short
direction_from_sign flat = undirected

abbrev result : SetupType → Direction → String → SetupResult
result t d note = record { setup_type = t; direction = d; notes = note ∷ [] }

module _ {F : Type 0} (num : Float F) where
  -- `sign` of radar_v08/l2_features.py
  abbrev pub sign : Option F → Sign
  sign none = flat
  sign (some x) =
      if num.above x (num.whole 0)
      then positive
      else if num.above (num.whole 0) x
      then negative
      else flat

  abbrev pub below : Option F → F → Bool
  below none y = true
  below (some x) y = num.above y (num.magnitude x)

  module _ (thresholds : Thresholds F) where
    unfoldable pub volume_confirmed : L1Features F → Bool
    volume_confirmed l1 = reaches num l1.volume_intensity_15m thresholds.volume_confirm_intensity

    -- The tests for a missing return come first: `below` holds of one, and a sign of one is 0.
    unfoldable pub reversal_confirmed : L1Features F → L2Features F → Bool
    unfolding volume_confirmed
    reversal_confirmed l1 l2 = elim l2.return_1h_atr [
      | none ↦ false
      | some hourly ↦
          if below l2.return_15m_atr thresholds.reversal_min_atr_15m
          then false
          else not (sign_eq (sign l2.return_15m_atr) flat)
            && not (sign_eq (sign l2.return_15m_atr) (sign (some hourly)))
            && (l2.rejection_state == "REJECTION_AT_HIGH"
                || l2.rejection_state == "REJECTION_AT_LOW")
            && volume_confirmed l1
    ]

    unfoldable pub squeeze_release_confirmed : L1Features F → L2Features F → Bool
    unfolding volume_confirmed
    squeeze_release_confirmed l1 l2 =
        is_true l2.range_compression && is_true l2.range_expansion && volume_confirmed l1

    abbrev pub breakout_confirmed : L2Features F → Bool
    breakout_confirmed l2 =
        l2.breakout_state == "BREAKOUT_UP" || l2.breakout_state == "BREAKOUT_DOWN"

    unfoldable pub continuation_confirmed : L2Features F → Bool
    continuation_confirmed l2 =
        let five = sign l2.return_5m_atr in
        let quarter = sign l2.return_15m_atr in
        let hourly = sign l2.return_1h_atr in
        if sign_eq five flat || sign_eq quarter flat || sign_eq hourly flat
        then false
        else if not (sign_eq five quarter && sign_eq quarter hourly)
        then false
        else if below l2.return_15m_atr thresholds.momentum_min_atr_15m
        then false
        else not (below l2.return_1h_atr thresholds.momentum_min_atr_1h)

    unfoldable pub classify_setup : L1Features F → L2Features F → SetupResult
    unfolding reversal_confirmed squeeze_release_confirmed continuation_confirmed volume_confirmed
    classify_setup l1 l2 =
        let recent = direction_from_sign (sign l2.return_15m_atr) in
        if l2.l2_warmup
        then result no_setup undirected "l2_warmup"
        else if l2.exhaustion && reversal_confirmed l1 l2
        then result reversal recent "exhaustion_with_reversal_confirmation"
        else if squeeze_release_confirmed l1 l2
        then result squeeze_release recent
            "squeeze_release: compression then expansion, volume-confirmed"
        else if breakout_confirmed l2 && volume_confirmed l1 && is_true l2.range_expansion
        then result breakout (if l2.breakout_state == "BREAKOUT_UP" then long else short)
            "breakout: range clear + volume + range expansion"
        else if not l2.exhaustion && reversal_confirmed l1 l2
        then result reversal recent "reversal: divergence + rejection + volume"
        else if not l2.exhaustion && continuation_confirmed l2
        then result continuation (direction_from_sign (sign l2.return_1h_atr))
            "continuation: coherent momentum across 5m/15m/1h"
        else if l2.exhaustion
        then result exhausted undirected
            "exhaustion: extreme move + fading volume, no reversal confirmation yet"
        else record { setup_type = no_setup; direction = undirected; notes = [] }

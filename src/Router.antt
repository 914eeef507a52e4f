-- ===== src/Router.antt =====
-- radar_v08/router.py: the decision IGNORE, SONNET or FABLE for one asset. Python's floats and the
-- thresholds of radar_v08/config.py, which the environment sets, are parameters.
pub mod Decision
pub mod Tests
use text.Mathlib.Text.{◌==◌}
use crypto_radar.Base.{
  ℕ, zero, suc, ◌+◌, String, ◌≡◌, Bool, true, false, ◌&&◌, ◌||◌, not, Option, none, some, List, [],
  ◌∷◌, ◌++◌, map, arith, length, leb, if◌then◌else◌,
}
use crypto_radar.Float.{Float, is_true, reaches, when}

pub record Config (F : Type 0) : Type 0 where
  pub volume_confirm_intensity : F
  pub sonnet_min_opportunity : F
  pub fable_min_opportunity : F
  pub fable_min_confirmations : ℕ
  pub taker_imbalance_confirm_ratio : F

pub record RouterContext (F : Type 0) : Type 0 where
  pub asset : String
  pub anomaly_score : Option F
  pub opportunity_score : Option F
  pub tradeability_score : Option F
  pub tradeability_state : String
  pub setup_type : String
  pub direction : String
  pub momentum_1h_atr : Option F
  pub momentum_coherence : F
  pub volume_intensity_15m : Option F
  pub range_expansion : Option Bool
  pub breakout_state : String
  pub derivatives_coherence_credit : F
  pub taker_buy_ratio : Option F
  pub qwen_status : String
  pub qwen_veto : Bool
  pub qwen_call_sonnet : Bool
  pub qwen_call_fable : Bool
  pub qwen_confidence : Option String
  pub qwen_direction : Option String

pub data Choice : Type 0 where
  ignore sonnet fable : Choice

pub data Confidence : Type 0 where
  low medium high : Confidence

-- The texts of `reasons`; the ones that quote a number or a name carry it.
pub data Reason : Type 0 where
  tradeability_untradeable no_setup_confirmed qwen_veto_high_confidence : Reason
  signal_conflict material_conflict qwen_recommended_fable qwen_recommended_sonnet : Reason
  opportunity_with_confirmations : ℕ → Reason
  opportunity_with_tradeability : String → Reason
  confirmation : String → Reason
  below_router_thresholds : Reason

pub record RouterResult (F : Type 0) : Type 0 where
  pub decision : Choice
  pub model_demand_score : F
  pub confidence : Confidence
  pub confirmations : List String
  pub reasons : List Reason

abbrev pub is_text : Option String → String → Bool
is_text none t = false
is_text (some s) t = s == t

module _ {F : Type 0} (num : Float F) where
  -- `valid_taker_buy_ratio`, of a float or nothing
  unfoldable pub valid_taker_buy_ratio : Option F → Option F
  valid_taker_buy_ratio none = none
  valid_taker_buy_ratio (some x) =
      if not (num.is_finite x) || not (num.at_least x (num.whole 0) && num.at_least (num.whole 1) x)
      then none
      else some x

  module _ (config : Config F) where
    -- The taker imbalance confirms a direction, and only a known one.
    abbrev taker_confirms : RouterContext F → Bool
    taker_confirms ctx = elim (valid_taker_buy_ratio ctx.taker_buy_ratio) [
      | none ↦ false
      | some ratio ↦
          (ctx.direction == "LONG" && num.at_least ratio config.taker_imbalance_confirm_ratio)
          || (ctx.direction == "SHORT"
              && num.at_least (num.minus (num.whole 1) ratio) config.taker_imbalance_confirm_ratio)
    ]

    abbrev momentum_confirms : RouterContext F → Bool
    momentum_confirms ctx = elim ctx.momentum_1h_atr [
      | none ↦ false
      | some m ↦
          num.at_least (num.magnitude m) (num.whole 2)
          && num.at_least ctx.momentum_coherence (num.whole 1)
    ]

    -- The names that `count_confirmations` collects; the count is their number.
    unfoldable pub count_confirmations : RouterContext F → List String
    unfolding valid_taker_buy_ratio
    count_confirmations ctx =
        when (momentum_confirms ctx) "momentum_2atr_coherent"
        ++ when (reaches num ctx.volume_intensity_15m (num.whole 3) && is_true ctx.range_expansion)
            "volume_3x_range_confirmed"
        ++ when
            ((ctx.breakout_state == "BREAKOUT_UP" || ctx.breakout_state == "BREAKOUT_DOWN")
              && reaches num ctx.volume_intensity_15m config.volume_confirm_intensity)
            "breakout_with_volume"
        ++ when (ctx.setup_type == "SQUEEZE_RELEASE") "squeeze_release"
        ++ when (num.at_least ctx.derivatives_coherence_credit (num.whole 1)) "derivatives_coherent"
        ++ when (taker_confirms ctx) "taker_imbalance"
        ++ when
            (ctx.qwen_status == "OK" && ctx.qwen_call_fable && is_text ctx.qwen_confidence "HIGH")
            "qwen_call_fable_high"

    unfoldable pub compute_confidence : Bool → ℕ → Confidence
    compute_confidence data_quality_ok n =
        if not data_quality_ok
        then low
        else if leb 3 n
        then high
        else if leb 1 n
        then medium
        else low

    unfoldable pub model_demand_score : RouterContext F → ℕ → F
    model_demand_score ctx n =
        let opp : F = elim ctx.opportunity_score [ none ↦ num.whole 0 | some x ↦ x ] in
        let tradeability =
          if ctx.tradeability_state == "TRADEABLE"
          then num.whole 1
          else if ctx.tradeability_state == "CONSTRAINED"
          then num.tenths 5
          else num.whole 0 in
        let confirmed = num.smaller (num.over (num.whole n) (num.whole 4)) (num.whole 1) in
        let weighted =
          num.plus
            (num.plus (num.times (num.tenths 5) (num.over opp (num.whole 100)))
              (num.times (num.tenths 3) confirmed))
            (num.times (num.tenths 2) tradeability) in
        num.round_2 (
          num.larger (num.whole 0)
            (num.smaller (num.whole 100) (num.times weighted (num.whole 100))))

    abbrev pub min_fable_confirmations : RouterContext F → ℕ
    min_fable_confirmations ctx =
        if ctx.qwen_status == "OK"
        then config.fable_min_confirmations
        else config.fable_min_confirmations + 1

    abbrev pub conflicts : RouterContext F → Bool
    conflicts ctx = ctx.qwen_status == "OK" && (elim ctx.qwen_direction [
      | none ↦ false
      | some d ↦ not (d == "NONE") && not (ctx.direction == "NONE") && not (d == ctx.direction)
    ])

    abbrev pub fable_by_score : RouterContext F → ℕ → Bool
    fable_by_score ctx n =
        reaches num ctx.opportunity_score config.fable_min_opportunity
        && leb (min_fable_confirmations ctx) n

    abbrev pub sonnet_by_score : RouterContext F → Bool
    sonnet_by_score ctx =
        reaches num ctx.opportunity_score config.sonnet_min_opportunity
        && (ctx.tradeability_state == "TRADEABLE" || ctx.tradeability_state == "CONSTRAINED")

    abbrev pub ignored : Reason → RouterResult F
    ignored why = record {
      decision = ignore;
      model_demand_score = num.whole 0;
      confidence = low;
      confirmations = [];
      reasons = why ∷ [];
    }

    -- `route` after its three early returns.
    unfoldable pub route_scored : RouterContext F → Bool → RouterResult F
    unfolding count_confirmations compute_confidence model_demand_score
    route_scored ctx data_quality_ok =
        let names = count_confirmations ctx in
        let n = length names in
        let conflict = conflicts ctx in
        let by_score = fable_by_score ctx n in
        let wants_fable = ctx.qwen_status == "OK" && ctx.qwen_call_fable in
        let wants_sonnet = ctx.qwen_status == "OK" && ctx.qwen_call_sonnet in
        let noted = when conflict signal_conflict in
        let result : Choice → List Reason → RouterResult F = λ decision reasons. record {
          decision = decision;
          model_demand_score = model_demand_score ctx n;
          confidence = compute_confidence data_quality_ok n;
          confirmations = names;
          reasons = noted ++ reasons;
        } in
        if by_score || wants_fable || conflict
        then result fable (
            when by_score (opportunity_with_confirmations n)
            ++ when wants_fable qwen_recommended_fable
            ++ when conflict material_conflict
            ++ map confirmation names)
        else if sonnet_by_score ctx || wants_sonnet
        then result sonnet (
            when (sonnet_by_score ctx) (opportunity_with_tradeability ctx.tradeability_state)
            ++ when wants_sonnet qwen_recommended_sonnet
            ++ map confirmation names)
        else result ignore (below_router_thresholds ∷ [])

    unfoldable pub route : RouterContext F → Bool → RouterResult F
    route ctx data_quality_ok =
        if ctx.tradeability_state == "UNTRADEABLE"
        then ignored tradeability_untradeable
        else if ctx.setup_type == "NONE"
        then ignored no_setup_confirmed
        else if ctx.qwen_status == "OK" && ctx.qwen_veto && is_text ctx.qwen_confidence "HIGH"
        then ignored qwen_veto_high_confidence
        else route_scored ctx data_quality_ok

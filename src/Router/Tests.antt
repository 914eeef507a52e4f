-- ===== src/Router/Tests.antt =====
-- Contexts whose numbers are hundredths, and the decisions on them.
use text.Mathlib.Text.{◌==◌}
use crypto_radar.Base.{
  ℕ, ◌+◌, ◌-◌, ◌*◌, ◌/◌, ◌≤◌, ◌≡◌, refl, true, false, none, some, [], length, leb, ltb,
  if◌then◌else◌,
}
use crypto_radar.Float.{Float, reaches}
use crypto_radar.Router.{
  Config, RouterContext, ignore, fable, route, route_scored, count_confirmations,
}
use crypto_radar.Router.Decision.{
  level, asking_fable, request_escalates, fable_unreviewed, blocked_ignored,
}

abbrev pub hundredths : Float ℕ
hundredths = record {
  at_least = λ x y. leb y x;
  above = λ x y. ltb y x;
  magnitude = λ x. x;
  smaller = λ x y. if leb x y then x else y;
  larger = λ x y. if leb x y then y else x;
  is_finite = λ x. true;
  plus = λ x y. x + y;
  minus = λ x y. x - y;
  times = λ x y. x * y / 100;
  over = λ x y. x * 100 / y;
  round_2 = λ x. x;
  whole = λ n. n * 100;
  tenths = λ n. n * 10;
}

abbrev defaults : Config ℕ
defaults = record {
  volume_confirm_intensity = 150;
  sonnet_min_opportunity = 5_000;
  fable_min_opportunity = 7_000;
  fable_min_confirmations = 2;
  taker_imbalance_confirm_ratio = 65;
}

-- A strong asset that no review has seen.
abbrev strong : RouterContext ℕ
strong = record {
  asset = "BTC";
  anomaly_score = some 8_000;
  opportunity_score = some 8_200;
  tradeability_score = some 9_000;
  tradeability_state = "TRADEABLE";
  setup_type = "SQUEEZE_RELEASE";
  direction = "LONG";
  momentum_1h_atr = some 250;
  momentum_coherence = 100;
  volume_intensity_15m = some 350;
  range_expansion = some true;
  breakout_state = "BREAKOUT_UP";
  derivatives_coherence_credit = 0;
  taker_buy_ratio = some 70;
  qwen_status = "UNAVAILABLE";
  qwen_veto = false;
  qwen_call_sonnet = false;
  qwen_call_fable = false;
  qwen_confidence = none;
  qwen_direction = none;
}

abbrev vetoed : RouterContext ℕ
vetoed = record strong { qwen_status = "OK"; qwen_veto = true; qwen_confidence = some "HIGH" }

strong_decision : (route hundredths defaults strong true).decision ≡ fable
unfolding route route_scored
strong_decision = refl

request_escalates_example :
    level (route hundredths defaults strong true).decision
    ≤ level (route hundredths defaults (asking_fable strong) true).decision
request_escalates_example = request_escalates hundredths defaults strong true

fable_unreviewed_example :
    (reaches hundredths (some 8_200) 7_000 ≡ true)
    × (3 ≤ length (count_confirmations hundredths defaults strong))
    × ((strong.tradeability_state == "UNTRADEABLE") ≡ false)
    × ((strong.setup_type == "NONE") ≡ false)
fable_unreviewed_example = fable_unreviewed hundredths defaults strong true refl strong_decision

blocked_ignored_example :
    ((route hundredths defaults vetoed true).decision ≡ ignore)
    × ((route hundredths defaults vetoed true).model_demand_score ≡ 0)
    × ((route hundredths defaults vetoed true).confirmations ≡ [])
blocked_ignored_example = blocked_ignored hundredths defaults vetoed true refl

-- ===== src/Setups/Tests.antt =====
-- Features whose numbers are hundredths above 1000, and their class.
use crypto_radar.Base.{ℕ, ◌+◌, ◌-◌, ◌*◌, ◌/◌, ◌≡◌, refl, true, false, some, leb, ltb, if◌then◌else◌}
use crypto_radar.Float.{Float}
use crypto_radar.Setups.{
  Thresholds, L1Features, L2Features, SetupType, classify_setup, volume_confirmed,
  reversal_confirmed, squeeze_release_confirmed, continuation_confirmed,
}
use crypto_radar.Setups.Directions.{IsMeant, setup-IsMeant}

-- The number n stands for (n - 1000) / 100.
abbrev shifted : Float ℕ
shifted = record {
  at_least = λ x y. leb y x;
  above = λ x y. ltb y x;
  magnitude = λ x. if leb 1_000 x then x else 2_000 - x;
  smaller = λ x y. if leb x y then x else y;
  larger = λ x y. if leb x y then y else x;
  is_finite = λ x. true;
  plus = λ x y. x + y - 1_000;
  minus = λ x y. x + 1_000 - y;
  times = λ x y. x * y / 1_000;
  over = λ x y. x * 1_000 / y;
  round_2 = λ x. x;
  whole = λ n. n * 100 + 1_000;
  tenths = λ n. n * 10 + 1_000;
}

abbrev thresholds : Thresholds ℕ
thresholds = record {
  volume_confirm_intensity = 1_150;
  reversal_min_atr_15m = 1_100;
  momentum_min_atr_15m = 1_050;
  momentum_min_atr_1h = 1_080;
}

abbrev l1 : L1Features ℕ
l1 = record { volume_intensity_15m = some 1_200 }

-- A fall of the last quarter against a rising hour, rejected at a high.
abbrev l2 : L2Features ℕ
l2 = record {
  l2_warmup = false;
  return_5m_atr = some 950;
  return_15m_atr = some 850;
  return_1h_atr = some 1_200;
  range_compression = some false;
  range_expansion = some false;
  breakout_state = "INSIDE";
  rejection_state = "REJECTION_AT_HIGH";
  exhaustion = false;
}

is_reversal : (classify_setup shifted thresholds l1 l2).setup_type ≡ SetupType.reversal
unfolding classify_setup volume_confirmed reversal_confirmed squeeze_release_confirmed
    continuation_confirmed
is_reversal = refl

setup-IsMeant_example : IsMeant shifted thresholds l1 l2 (classify_setup shifted thresholds l1 l2)
setup-IsMeant_example = setup-IsMeant shifted thresholds l1 l2

-- ===== src/Scheduler/Policy.antt =====
-- `SchedulerPolicy`: its limits, their validation and the score bands. A score is a finite double
-- from 0 to 100, which is a whole number of units of 2^-1074; Python compares them exactly.
use crypto_radar.Base.{
  ℕ, ◌+◌, ◌*◌, ◌^◌, Bool, true, false, ◌&&◌, not, Option, none, some, List, [], ◌∷◌, ltb, leb, all,
  if◌then◌else◌, sum_of,
}
use crypto_radar.Scheduler.Types.{
  Horizon, min_15, hour_1, hour_4, hour_24, Band, Role, screener, challenger, deep_analyst,
  HorizonLimits, RoleProfile,
}
use Prim.Native.Nat.{max}

-- A whole number of points as a score.
unfoldable pub points : ℕ → ℕ
points n = n * 2 ^ 1074

abbrev pub max_policy_seconds : ℕ
max_policy_seconds = 86_400

pub record SchedulerPolicy : Type 0 where
  pub max_queued : ℕ
  pub high_band_min : ℕ
  pub eligible_band_min : ℕ
  pub fair_slot_every : ℕ
  pub finalization_reserve_seconds : ℕ
  pub max_invocations : ℕ
  pub max_repairs : ℕ
  pub max_prompt_tokens : ℕ
  pub max_output_tokens : ℕ
  pub horizon_limits : Horizon → HorizonLimits
  pub role_profiles : Role → RoleProfile

-- `OC1_HORIZON_LIMITS`
abbrev pub oc1_horizon_limits : Horizon → HorizonLimits
oc1_horizon_limits min_15 = record { analysis_deadline_seconds = 60; max_queued_age_seconds = 15 }
oc1_horizon_limits hour_1 = record { analysis_deadline_seconds = 120; max_queued_age_seconds = 30 }
oc1_horizon_limits hour_4 = record { analysis_deadline_seconds = 180; max_queued_age_seconds = 45 }
oc1_horizon_limits hour_24 = record { analysis_deadline_seconds = 180; max_queued_age_seconds = 45 }

-- `OC1_ROLE_PROFILES`
abbrev pub oc1_role_profiles : Role → RoleProfile
oc1_role_profiles screener = record {
  hard_timeout_seconds = 30;
  max_input_tokens = 2800;
  output_cap_tokens = 768;
  enabled = true;
}
oc1_role_profiles challenger = record {
  hard_timeout_seconds = 45;
  max_input_tokens = 5600;
  output_cap_tokens = 1536;
  enabled = false;
}
oc1_role_profiles deep_analyst = record {
  hard_timeout_seconds = 90;
  max_input_tokens = 5600;
  output_cap_tokens = 2048;
  enabled = false;
}

-- `SchedulerPolicy()`, every default.
unfoldable pub oc1_policy : SchedulerPolicy
unfolding points
oc1_policy = record {
  max_queued = 16;
  high_band_min = points 70;
  eligible_band_min = points 50;
  fair_slot_every = 4;
  finalization_reserve_seconds = 10;
  max_invocations = 4;
  max_repairs = 1;
  max_prompt_tokens = 15_000;
  max_output_tokens = 4_500;
  horizon_limits = oc1_horizon_limits;
  role_profiles = oc1_role_profiles;
}

abbrev pub horizons : List Horizon
horizons = min_15 ∷ hour_1 ∷ hour_4 ∷ hour_24 ∷ []

abbrev pub roles : List Role
roles = screener ∷ challenger ∷ deep_analyst ∷ []

-- `PRODUCTION_DISABLED_ROLES`
abbrev pub production_disabled : Role → Bool
production_disabled screener = false
production_disabled challenger = true
production_disabled deep_analyst = true

abbrev within : ℕ → ℕ → ℕ → Bool
within low high n = leb low n && leb n high

abbrev valid_limits : HorizonLimits → Bool
valid_limits limits =
    within 1 max_policy_seconds limits.analysis_deadline_seconds
    && leb limits.max_queued_age_seconds max_policy_seconds

abbrev valid_profile : Role → RoleProfile → Bool
valid_profile role profile =
    within 1 max_policy_seconds profile.hard_timeout_seconds
    && not (production_disabled role && profile.enabled)

-- `SchedulerPolicy.__post_init__` raises `INVALID_POLICY` exactly where this is false.
unfoldable pub valid_policy : SchedulerPolicy → Bool
valid_policy p =
    leb 1 p.max_queued
    && leb 2 p.fair_slot_every
    && leb p.finalization_reserve_seconds max_policy_seconds
    && ltb p.eligible_band_min p.high_band_min
    && leb p.high_band_min (points 100)
    && all (λ h. valid_limits (p.horizon_limits h)) horizons
    && all (λ r. valid_profile r (p.role_profiles r)) roles

-- `SchedulerPolicy.max_span_seconds`
unfoldable pub max_span_seconds : SchedulerPolicy → ℕ
max_span_seconds p =
    let path_span = sum_of (λ r. (p.role_profiles r).hard_timeout_seconds) roles in
    max (path_span + p.finalization_reserve_seconds) (
      max ((p.horizon_limits min_15).analysis_deadline_seconds) (
        max ((p.horizon_limits hour_1).analysis_deadline_seconds) (
          max ((p.horizon_limits hour_4).analysis_deadline_seconds)
            ((p.horizon_limits hour_24).analysis_deadline_seconds))))

-- `SchedulerPolicy.band`
unfoldable pub band : SchedulerPolicy → ℕ → Option Band
band p score =
    if leb p.high_band_min score
    then some Band.high
    else if leb p.eligible_band_min score
    then some Band.eligible
    else none

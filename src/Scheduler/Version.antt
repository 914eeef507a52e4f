-- ===== src/Scheduler/Version.antt =====
-- `OpportunityVersion`: one sealed version offered for analysis, and what its constructor accepts.
use crypto_radar.Base.{
  ℕ, String, ◌≡◌, ◌↔◌, Bool, true, false, ◌&&◌, ◌||◌, not, Option, none, some, List, [], ◌∷◌, arith,
  leb, any,
}
use crypto_radar.Base.Equality.{Eq}
use text.Mathlib.Text.{◌==◌ as str_eq}
use text.Mathlib.TextEquality.{eq_iff}
use crypto_radar.Invocation.Text.{valid_text}
use crypto_radar.Invocation.Identity.{
  InvocationIdentity, InstrumentKind, Direction, kind_eq, kind_eq_iff, direction_eq,
  direction_eq_iff,
}
use crypto_radar.Scheduler.Time.{Instant, has_room}
use crypto_radar.Scheduler.Types.{
  Horizon, Role, screener, challenger, deep_analyst, Outcome, ok, err, ◌>>=◌, SchedulerFailure,
}
use crypto_radar.Scheduler.Policy.{points, max_policy_seconds}

pub record OpportunityVersion : Type 0 where
  pub item_id : String
  pub identity : InvocationIdentity
  pub horizon : Horizon
  pub opportunity_score : ℕ
  pub sealed_at : Instant
  pub integrity_valid : Bool
  pub deterministic_path_eligible : Bool
  pub requested_roles : List Role
  pub origin_sealed_at : Option Instant

abbrev pub role_eq : Role → Role → Bool
role_eq screener screener = true
role_eq challenger challenger = true
role_eq deep_analyst deep_analyst = true
role_eq _ _ = false

abbrev repeats_role : List Role → Bool
repeats_role [] = false
repeats_role (r ∷ rs) = any (role_eq r) rs || repeats_role rs

abbrev no_roles : List Role → Bool
no_roles [] = true
no_roles (r ∷ rs) = false

-- A moment that a caller passes: `none` is one that is naive or has no place in UTC.
abbrev pub require_aware : Option Instant → SchedulerFailure → Outcome Instant
require_aware none failure = err failure
require_aware (some moment) failure = ok moment

abbrev pub require : Bool → SchedulerFailure → Outcome (Unit {0})
require true failure = ok tt
require false failure = err failure

-- The part of `__post_init__` about the origin seal; the caller left it out if it is `none`.
abbrev accept_origin : Option (Option Instant) → Instant → Outcome (Option Instant)
accept_origin none sealed_at = ok none
accept_origin (some given) sealed_at = do
  origin ← require_aware given SchedulerFailure.invalid_field
  _ ← require (leb origin sealed_at) SchedulerFailure.invalid_field
  ok (some origin)

-- `OpportunityVersion(...)`. The types of the arguments are those of the fields; a moment may be
-- naive, and a score that is no finite number from 0 to 100 fails the test on `points 100`.
unfoldable pub make_version :
    String
    → InvocationIdentity
    → Horizon
    → ℕ
    → Option Instant
    → Bool
    → Bool
    → List Role
    → Option (Option Instant)
    → Outcome OpportunityVersion
make_version item_id identity horizon score sealed integrity deterministic requested origin = do
  _ ← require (valid_text item_id) SchedulerFailure.invalid_field
  _ ← require (leb score (points 100)) SchedulerFailure.invalid_field
  sealed_at ← require_aware sealed SchedulerFailure.invalid_field
  _ ← require (has_room sealed_at max_policy_seconds) SchedulerFailure.invalid_field
  _ ← require (not (no_roles requested)) SchedulerFailure.invalid_field
  _ ← require (not (repeats_role requested)) SchedulerFailure.invalid_field
  origin_sealed_at ← accept_origin origin sealed_at
  ok (record {
    item_id = item_id;
    identity = identity;
    horizon = horizon;
    opportunity_score = score;
    sealed_at = sealed_at;
    integrity_valid = integrity;
    deterministic_path_eligible = deterministic;
    requested_roles = requested;
    origin_sealed_at = origin_sealed_at;
  })

-- `group_key`: the slot of an instrument, a setup and a direction.
pub record GroupKey : Type 0 where
  pub venue : String
  pub market_kind : InstrumentKind
  pub native_instrument : String
  pub setup : String
  pub direction : Direction

unfoldable pub group_key : OpportunityVersion → GroupKey
group_key v = record {
  venue = v.identity.venue;
  market_kind = v.identity.market_kind;
  native_instrument = v.identity.native_instrument;
  setup = v.identity.setup;
  direction = v.identity.direction;
}

unfoldable pub group_eq : GroupKey → GroupKey → Bool
group_eq a b =
    str_eq a.venue b.venue
    && kind_eq a.market_kind b.market_kind
    && str_eq a.native_instrument b.native_instrument
    && str_eq a.setup b.setup
    && direction_eq a.direction b.direction

pub group_eq_iff : (a b : GroupKey) → (group_eq a b ≡ true) ↔ (a ≡ b)
unfolding group_eq
group_eq_iff a b = ground (
  arith,
  eq_iff a.venue b.venue,
  kind_eq_iff a.market_kind b.market_kind,
  eq_iff a.native_instrument b.native_instrument,
  eq_iff a.setup b.setup,
  direction_eq_iff a.direction b.direction,
)

instance abbrev pub group_equality : Eq GroupKey
group_equality = record { test = group_eq; test_iff = group_eq_iff }

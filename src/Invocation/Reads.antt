-- ===== src/Invocation/Reads.antt =====
-- The checked inputs of radar_v08/domain/invocation.py and the reads of
-- radar_v08/adapters/invocation_store.py. A typed argument passes the tests on its type.
use crypto_radar.Base.{ℕ, String, Bool, ◌&&◌, not, Option, none, some, leb, if◌then◌else◌}
use crypto_radar.Base.Equality.{string_eq}
use crypto_radar.Base.Dict.{Dict, lookup}
use crypto_radar.Invocation.Text.{valid_text}
use crypto_radar.Invocation.Identity.{valid_identity}
use crypto_radar.Invocation.Lease.{
  Instant, Result, ok, err, InvocationFailure, ModelBudget, BudgetWindows, BudgetUsage,
  budget_windows, Lease, InvocationRecord, WindowKey, window_equality,
}
use crypto_radar.Invocation.Store.{Store, Demand, usage_of, hour_key, day_key}
use crypto_radar.Invocation.Claim.{Request}

-- `InvocationRequest.__post_init__`
unfoldable pub valid_request : Request → Bool
valid_request q = valid_identity q.identity && valid_text q.model

-- `ModelBudget.__post_init__`: a count is never negative here.
unfoldable pub valid_budget : ModelBudget → Bool
valid_budget b = valid_text b.model

-- `Lease.__post_init__`
unfoldable pub valid_lease : Lease → Bool
valid_lease lease =
    valid_text lease.invocation_id && leb 1 lease.generation && valid_text lease.owner

-- What a read meets: a database that is not migrated, or one that is busy.
pub record Reader : Type 0 where
  pub migrated : Bool
  pub busy : Bool

-- `_read`
unfoldable pub read : {A : Type 0} → Reader → A → Result A
read c value =
    if not c.migrated
    then err InvocationFailure.schema_not_migrated
    else if c.busy
    then err InvocationFailure.busy
    else ok value

-- `load_invocation`
unfoldable pub load_invocation : Reader → String → Store → Result (Option InvocationRecord)
unfolding read
load_invocation c id s = read c (lookup id s.invocations)

-- `budget_usage`
unfoldable pub budget_usage : Reader → ModelBudget → Instant → Store → Result BudgetUsage
unfolding read
budget_usage c b now s = read c (usage_of b (budget_windows now) s)

pub record DemandCounts : Type 0 where
  pub model : String
  pub windows : BudgetWindows
  pub hourly_observed : ℕ
  pub hourly_refused : ℕ
  pub daily_observed : ℕ
  pub daily_refused : ℕ

abbrev demand_at : WindowKey → Dict WindowKey Demand → Demand
demand_at k d = elim (lookup k d) [ none ↦ record { observed = 0; refused = 0 } | some row ↦ row ]

-- `demand_counts`
unfoldable pub demand_counts : Reader → String → Instant → Store → Result DemandCounts
unfolding read
demand_counts c model now s =
    let w = budget_windows now in
    let h = demand_at (hour_key model w) s.demand in
    let d = demand_at (day_key model w) s.demand in
    read c record {
      model = model;
      windows = w;
      hourly_observed = h.observed;
      hourly_refused = h.refused;
      daily_observed = d.observed;
      daily_refused = d.refused;
    }

-- ===== src/Invocation/Store.antt =====
-- radar_v08/adapters/invocation_store.py over the three tables of `INVOCATION_MIGRATION`. A write is
-- one transaction: its work returns the new tables, or raises and they stay as they were.
pub mod Ready
use crypto_radar.Base.{
  ℕ, zero, suc, ◌+◌, ◌*◌, ◌-◌, String, ◌≡◌, Bool, true, false, ◌&&◌, ◌||◌, not, Option, none, some,
  List, [], ◌∷◌, ◌++◌, arith, ltb, leb, nat_beq, if◌then◌else◌,
}
use crypto_radar.Base.Equality.{◌==◌, string_eq}
use crypto_radar.Base.Dict.{Dict, values, lookup, insert}
use crypto_radar.Base.Order.{Key, sort_by}
use crypto_radar.Invocation.Text.{codes, valid_text}
use crypto_radar.Invocation.Identity.{InvocationIdentity, identity_equality}
use crypto_radar.Invocation.Lease.{
  Instant, InvocationState, claimed, completed, released, is_active, ReleaseReason, WindowKind,
  hour, day, RefusalReason, TransitionStatus, InvocationFailure, Result, ok, err, ◌>>=◌, require,
  ModelBudget, BudgetWindows, budget_windows, BudgetUsage, refusal_reason, lease_expiry, Lease,
  ClaimResult, won, duplicate, refused, Transition, InvocationRecord, fence_status, WindowKey,
  window_equality,
}

-- A row of `invocation_demand`.
pub record Demand : Type 0 where
  pub observed : ℕ
  pub refused : ℕ

pub record Store : Type 0 where
  pub invocations : Dict String InvocationRecord
  pub budget : Dict WindowKey ℕ
  pub demand : Dict WindowKey Demand

abbrev pub Work : Type 0 → Type 0
Work A = Store → Result (A × Store)

-- What a write meets: an open transaction of the caller, a database that is not migrated, and how
-- many tries find it busy or locked.
pub record Connection : Type 0 where
  pub in_transaction : Bool
  pub migrated : Bool
  pub busy_tries : ℕ

-- `BUSY_RETRY_DELAYS`, in milliseconds
abbrev pub busy_retry_delays : List ℕ
busy_retry_delays = 50 ∷ 100 ∷ 200 ∷ []

-- The tries of `_write`: one, and one more after each delay.
unfoldable pub tries {ℓ} : {A : Type ℓ} → List ℕ → ℕ → Result A → Result A
tries delays zero work = work
tries [] (suc busy) work = err InvocationFailure.busy
tries (d ∷ delays) (suc busy) work = tries delays busy work

-- `_write`
unfoldable pub write : {A : Type 0} → Connection → Work A → Work A
unfolding tries
write c work s =
    if c.in_transaction
    then err InvocationFailure.open_transaction
    else if not c.migrated
    then err InvocationFailure.schema_not_migrated
    else tries busy_retry_delays c.busy_tries (work s)

abbrev pub hour_key : String → BudgetWindows → WindowKey
hour_key model w = record { model = model; kind = hour; start = w.hour_start }

abbrev pub day_key : String → BudgetWindows → WindowKey
day_key model w = record { model = model; kind = day; start = w.day_start }

-- `SELECT reserved`, with no row as 0
unfoldable pub reserved : WindowKey → Dict WindowKey ℕ → ℕ
reserved k d = elim (lookup k d) [ none ↦ 0 | some n ↦ n ]

-- `_usage`
unfoldable pub usage_of : ModelBudget → BudgetWindows → Store → BudgetUsage
usage_of b w s = record {
  model = b.model;
  windows = w;
  hourly_reserved = reserved (hour_key b.model w) s.budget;
  hourly_limit = b.hourly_limit;
  daily_reserved = reserved (day_key b.model w) s.budget;
  daily_limit = b.daily_limit;
}

-- The upsert `reserved = reserved + 1` of one window
unfoldable pub reserve_one : WindowKey → Dict WindowKey ℕ → Dict WindowKey ℕ
unfolding reserved
reserve_one k d = insert k (reserved k d + 1) d

-- `_reserve`
unfoldable pub reserve : String → BudgetWindows → Store → Store
reserve model w s = record s {
  budget = reserve_one (day_key model w) (reserve_one (hour_key model w) s.budget);
}

abbrev pub observe_one : WindowKey → Dict WindowKey Demand → Dict WindowKey Demand
observe_one k d = elim (lookup k d) [
  | none ↦ insert k (record { observed = 1; refused = 0 }) d
  | some row ↦ insert k (record row { observed = row.observed + 1 }) d
]

-- `_observe_demand(refused=False)`
unfoldable pub observe : String → BudgetWindows → Store → Store
observe model w s = record s {
  demand = observe_one (day_key model w) (observe_one (hour_key model w) s.demand);
}

-- An update of one row raises when there is none.
abbrev pub refuse_one : WindowKey → Dict WindowKey Demand → Result (Dict WindowKey Demand)
refuse_one k d = elim (lookup k d) [
  | none ↦ err InvocationFailure.storage_error
  | some row ↦ ok (insert k (record row { refused = row.refused + 1 }) d)
]

-- `_observe_demand(refused=True)`
unfoldable pub observe_refused : String → BudgetWindows → Store → Result Store
observe_refused model w s = do
  hourly ← refuse_one (hour_key model w) s.demand
  daily ← refuse_one (day_key model w) hourly
  ok (record s { demand = daily })

-- ===== src/Invocation/Sound.antt =====
-- The invariant of the tables of adapters/invocation_store.py, as predicates.
pub mod Rows
pub mod Spend
use crypto_radar.Base.{ℕ, zero, suc, ◌+◌, ◌≤◌, String, ◌≡◌, true, some, if◌then◌else◌, arith}
use crypto_radar.Base.Equality.{◌==◌, string_eq}
use crypto_radar.Base.Dict.{Dict, lookup}
use crypto_radar.Base.Dict.Unique.{IsUnique}
use crypto_radar.Base.Dict.Total.{total}
use crypto_radar.Invocation.Lease.{
  is_active, ModelBudget, InvocationRecord, Instant, WindowKind, hour, day, WindowKey,
  window_equality,
}
use crypto_radar.Invocation.Store.{Store, reserved}

-- Each row stands under its own id, and no two active rows have the same identity.
pub record IsTable (d : Dict String InvocationRecord) : Type 0 where
  pub unique : IsUnique d
  pub keyed : (id : String) (r : InvocationRecord) → lookup id d ≡ some r → r.invocation_id ≡ id
  pub exclusive :
      (id id' : String) (r r' : InvocationRecord)
      → lookup id d ≡ some r
      → lookup id' d ≡ some r'
      → is_active r.state ≡ true
      → is_active r'.state ≡ true
      → r.identity ≡ r'.identity
      → id ≡ id'

-- No window of a model has more reserved units than its limit.
pub record IsWithin (limits : String → ModelBudget) (d : Dict WindowKey ℕ) : Type 0 where
  pub hourly :
      (m : String) (t : Instant)
      → reserved (record { model = m; kind = hour; start = t }) d ≤ (limits m).hourly_limit
  pub daily :
      (m : String) (t : Instant)
      → reserved (record { model = m; kind = day; start = t }) d ≤ (limits m).daily_limit

abbrev kind_is : WindowKind → WindowKind → ℕ → ℕ
kind_is hour hour n = n
kind_is day day n = n
kind_is _ _ n = 0

-- The units of one window in the sum over a model's windows of one kind.
abbrev pub units : String → WindowKind → WindowKey → ℕ → ℕ
units m k w n = if w.model == m then kind_is k w.kind n else 0

-- All the units a model has reserved in windows of a kind.
abbrev pub spent : String → WindowKind → Dict WindowKey ℕ → ℕ
spent m k d = total (units m k) d

-- The attempts of a row that are paid: the claim pays for the first, made or not.
abbrev pub paid : ℕ → ℕ
paid zero = 1
paid (suc n) = suc n

abbrev pub owed : String → String → InvocationRecord → ℕ
owed m id r = if r.model == m then paid r.attempt_count else 0

pub record IsSound (limits : String → ModelBudget) (s : Store) : Type 0 where
  pub table : IsTable s.invocations
  pub within : IsWithin limits s.budget
  pub balanced : (m : String) (k : WindowKind) → spent m k s.budget ≡ total (owed m) s.invocations

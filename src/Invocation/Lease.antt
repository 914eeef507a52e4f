-- ===== src/Invocation/Lease.antt =====
-- radar_v08/domain/invocation.py: budgets, leases and the fence. A moment is in UTC, as
-- microseconds since 0001-01-01; its fixed-width text orders in the same way.
use crypto_radar.Base.{
  ℕ, ◌+◌, ◌*◌, ◌-◌, ◌%◌, String, ◌≡◌, ◌↔◌, Bool, true, false, ◌&&◌, ◌||◌, not, Option, none, some,
  arith, leb, nat_beq, if◌then◌else◌,
}
use crypto_radar.Base.Equality.{Eq, ◌==◌, string_eq}
use crypto_radar.Invocation.Identity.{InvocationIdentity}
use text.Mathlib.Text.{◌==◌ as str_eq}
use text.Mathlib.TextEquality.{eq_iff}

abbrev pub Instant : Type 0
Instant = ℕ

abbrev pub second : ℕ
second = 1_000_000

pub data InvocationState : Type 0 where
  claimed completed released : InvocationState

-- `ACTIVE_STATES`
abbrev pub is_active : InvocationState → Bool
is_active claimed = true
is_active completed = false
is_active released = false

pub data ReleaseReason : Type 0 where
  cancelled deadline_expired failed : ReleaseReason

pub data WindowKind : Type 0 where
  hour day : WindowKind

pub data RefusalReason : Type 0 where
  hourly_budget_exhausted daily_budget_exhausted : RefusalReason

pub data TransitionStatus : Type 0 where
  applied fenced lease_expired not_active not_found budget_exhausted : TransitionStatus

pub data InvocationFailure : Type 0 where
  invalid_field invalid_clock open_transaction schema_not_migrated busy corrupt_row :
      InvocationFailure
  storage_error : InvocationFailure
  -- Python's own `OverflowError`, where a moment is past the last datetime
  overflow_error : InvocationFailure

-- A call that raises `InvocationError` has written nothing.
pub data Result {ℓ} (A : Type ℓ) : Type ℓ where
  ok : A → Result A
  err : InvocationFailure → Result A

infixl 5 ◌>>=◌
abbrev pub ◌>>=◌ {ℓ κ} : {A : Type ℓ} {B : Type κ} → Result A → (A → Result B) → Result B
ok a >>= f = f a
err e >>= f = err e

abbrev pub require : Bool → InvocationFailure → Result (Unit {0})
require true e = ok tt
require false e = err e

pub record ModelBudget : Type 0 where
  pub model : String
  pub hourly_limit : ℕ
  pub daily_limit : ℕ

pub record BudgetWindows : Type 0 where
  pub hour_start : Instant
  pub day_start : Instant

-- The UTC hour and day that contain a moment.
unfoldable pub budget_windows : Instant → BudgetWindows
budget_windows now = record {
  hour_start = now - now % (3_600 * second);
  day_start = now - now % (86_400 * second);
}

pub record BudgetUsage : Type 0 where
  pub model : String
  pub windows : BudgetWindows
  pub hourly_reserved : ℕ
  pub hourly_limit : ℕ
  pub daily_reserved : ℕ
  pub daily_limit : ℕ

-- `refusal_reason`: the hour is checked first.
unfoldable pub refusal_reason : BudgetUsage → Option RefusalReason
refusal_reason u =
    if leb u.hourly_limit u.hourly_reserved
    then some hourly_budget_exhausted
    else if leb u.daily_limit u.daily_reserved
    then some daily_budget_exhausted
    else none

-- The last microsecond of the year 9999.
abbrev pub last_instant : Instant
last_instant = 315_537_897_600 * second - 1

-- `lease_expiry`: a lease lasts from 1 to 3600 seconds, and its end is a datetime.
unfoldable pub lease_expiry : Instant → ℕ → Result Instant
lease_expiry now lease_seconds =
    if leb 1 lease_seconds && leb lease_seconds 3_600
    then (if leb (now + lease_seconds * second) last_instant
        then ok (now + lease_seconds * second)
        else err overflow_error)
    else err invalid_field

pub record Lease : Type 0 where
  pub invocation_id : String
  pub generation : ℕ
  pub owner : String
  pub expires_at : Instant

pub data ClaimResult : Type 0 where
  won : Lease → BudgetUsage → ClaimResult
  duplicate : String → ℕ → ClaimResult
  refused : RefusalReason → BudgetUsage → ClaimResult

pub record Transition : Type 0 where
  pub status : TransitionStatus
  pub invocation_id : String
  pub attempt_count : Option ℕ

pub record InvocationRecord : Type 0 where
  pub invocation_id : String
  pub identity : InvocationIdentity
  pub model : String
  pub state : InvocationState
  pub generation : ℕ
  pub lease_owner : String
  pub lease_expires_at : Instant
  pub demand_count : ℕ
  pub attempt_count : ℕ
  pub windows : BudgetWindows
  pub claimed_at : Instant
  pub updated_at : Instant
  pub ended_at : Option Instant
  pub end_reason : Option ReleaseReason

-- `fence_status`: whether a lease may still act on the record that its id names.
unfoldable pub fence_status : Option InvocationRecord → Lease → Instant → TransitionStatus
fence_status none lease now = not_found
fence_status (some r) lease now =
    if not (r.invocation_id == lease.invocation_id)
    then not_found
    else if not (is_active r.state)
    then not_active
    else if not (nat_beq r.generation lease.generation) || not (r.lease_owner == lease.owner)
    then fenced
    else if leb r.lease_expires_at now
    then lease_expired
    else applied

abbrev kind_beq : WindowKind → WindowKind → Bool
kind_beq hour hour = true
kind_beq day day = true
kind_beq _ _ = false

-- The primary key of the counter tables.
pub record WindowKey : Type 0 where
  pub model : String
  pub kind : WindowKind
  pub start : Instant

abbrev pub window_eq : WindowKey → WindowKey → Bool
window_eq a b = str_eq a.model b.model && kind_beq a.kind b.kind && nat_beq a.start b.start

kind_beq_iff : (a b : WindowKind) → (kind_beq a b ≡ true) ↔ (a ≡ b)
kind_beq_iff a b = ground arith

pub window_eq_iff : (a b : WindowKey) → (window_eq a b ≡ true) ↔ (a ≡ b)
window_eq_iff a b = ground (arith, eq_iff a.model b.model, kind_beq_iff a.kind b.kind)

instance abbrev pub window_equality : Eq WindowKey
window_equality = record { test = window_eq; test_iff = window_eq_iff }

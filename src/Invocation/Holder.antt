-- ===== src/Invocation/Holder.antt =====
-- What the holder of a lease may do, of radar_v08/adapters/invocation_store.py: `record_attempt`,
-- `complete_invocation` and `release_invocation` behind the fence of `_holder_action`.
pub mod Fence
use crypto_radar.Base.{
  ℕ, zero, suc, ◌+◌, ◌*◌, ◌-◌, String, ◌≡◌, Bool, true, false, ◌&&◌, ◌||◌, not, Option, none, some,
  List, [], ◌∷◌, ◌++◌, arith, ltb, leb, nat_beq, if◌then◌else◌,
}
use crypto_radar.Base.Equality.{◌==◌, string_eq}
use crypto_radar.Base.Dict.{Dict, values, lookup, insert}
use crypto_radar.Base.Order.{Key, sort_by}
use crypto_radar.Invocation.Text.{codes, valid_text}
use crypto_radar.Invocation.Identity.{InvocationIdentity, identity_equality}
use crypto_radar.Invocation.Lease.{
  Instant, InvocationState, claimed, completed, released, is_active, ReleaseReason, WindowKind,
  hour, day, RefusalReason, TransitionStatus, InvocationFailure, Result, ok, err, ◌>>=◌, require,
  ModelBudget, BudgetWindows, budget_windows, BudgetUsage, refusal_reason, lease_expiry, Lease,
  ClaimResult, won, duplicate, refused, Transition, InvocationRecord, fence_status, WindowKey,
  window_equality,
}
use crypto_radar.Invocation.Store.{
  Store, Work, Connection, write, Demand, hour_key, day_key, reserved, usage_of, reserve,
  reserve_one, observe, observe_refused,
}

-- `UPDATE … WHERE invocation_id = ? AND generation = ? AND lease_owner = ? AND state = 'CLAIMED'`
unfoldable pub fenced_update : Lease → (InvocationRecord → InvocationRecord) → Work (Unit {0})
fenced_update lease change s = elim (lookup lease.invocation_id s.invocations) [
  | none ↦ err InvocationFailure.storage_error
  | some r ↦
      if nat_beq r.generation lease.generation && r.lease_owner == lease.owner && is_active r.state
      then ok (tt, record s { invocations = insert lease.invocation_id (change r) s.invocations })
      else err InvocationFailure.storage_error
]

abbrev pub outcome : TransitionStatus → String → Option ℕ → Transition
outcome status id attempts = record {
  status = status;
  invocation_id = id;
  attempt_count = attempts;
}

-- `_holder_action` after the fence: `apply` of a lease that passes, else the typed refusal.
abbrev pub act_on :
    TransitionStatus → InvocationRecord → (InvocationRecord → Work Transition) → Work Transition
act_on TransitionStatus.applied r apply s = apply r s
act_on status r apply s = ok (outcome status r.invocation_id (some r.attempt_count), s)

-- The work of `_holder_action`.
unfoldable pub holder_work :
    Lease → Instant → (InvocationRecord → Work Transition) → Work Transition
holder_work lease now apply s = elim (lookup lease.invocation_id s.invocations) [
  | none ↦ ok (outcome TransitionStatus.not_found lease.invocation_id none, s)
  | some r ↦ act_on (fence_status (some r) lease now) r apply s
]

abbrev pub more_attempts : ℕ → Bool
more_attempts zero = false
more_attempts (suc n) = true

abbrev pub counted : Instant → InvocationRecord → InvocationRecord
counted now r = record r { attempt_count = r.attempt_count + 1; updated_at = now }

-- The end of `record_attempt`: the count goes up by one.
abbrev pub count_attempt : Lease → Instant → InvocationRecord → Work Transition
count_attempt lease now r s = do
  (_, s') ← fenced_update lease (counted now) s
  ok (outcome TransitionStatus.applied r.invocation_id (some (r.attempt_count + 1)), s')

-- `apply` of `record_attempt`: the claim has paid for the first attempt, each further one reserves.
unfoldable pub paid_attempt : Lease → ModelBudget → Instant → InvocationRecord → Work Transition
paid_attempt lease b now r s =
    if more_attempts r.attempt_count
    then elim (refusal_reason (usage_of b (budget_windows now) s)) [
      | some reason ↦
          ok (outcome TransitionStatus.budget_exhausted r.invocation_id (some r.attempt_count), s)
      | none ↦ count_attempt lease now r (reserve r.model (budget_windows now) s)
    ]
    else count_attempt lease now r s

unfoldable pub attempt_work : Lease → ModelBudget → Instant → InvocationRecord → Work Transition
unfolding paid_attempt
attempt_work lease b now r s = do
  _ ← require (r.model == b.model) InvocationFailure.invalid_field
  paid_attempt lease b now r s

-- `record_attempt`
unfoldable pub record_attempt : Connection → Lease → ModelBudget → Instant → Work Transition
record_attempt c lease b now = write c (holder_work lease now (attempt_work lease b now))

abbrev pub finish :
    Lease → (InvocationRecord → InvocationRecord) → InvocationRecord → Work Transition
finish lease change r s = do
  (_, s') ← fenced_update lease change s
  ok (outcome TransitionStatus.applied r.invocation_id (some r.attempt_count), s')

abbrev pub ended :
    InvocationState → Option ReleaseReason → Instant → InvocationRecord → InvocationRecord
ended state reason now r = record r {
  state = state;
  updated_at = now;
  ended_at = some now;
  end_reason = reason;
}

-- `complete_invocation`
unfoldable pub complete_invocation : Connection → Lease → Instant → Work Transition
complete_invocation c lease now =
    write c (holder_work lease now (finish lease (ended completed none now)))

-- `release_invocation`
unfoldable pub release_invocation : Connection → Lease → ReleaseReason → Instant → Work Transition
release_invocation c lease reason now =
    write c (holder_work lease now (finish lease (ended released (some reason) now)))

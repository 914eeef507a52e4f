-- ===== src/Invocation/Claim.antt =====
-- `claim_invocation` of radar_v08/adapters/invocation_store.py and the work of its transaction.
pub mod Outcome
use crypto_radar.Base.{
  ℕ, zero, suc, ◌+◌, ◌*◌, ◌-◌, String, ◌≡◌, Bool, true, false, ◌&&◌, ◌||◌, not, Option, none, some,
  List, [], ◌∷◌, ◌++◌, arith, ltb, leb, nat_beq, if◌then◌else◌,
}
use crypto_radar.Base.Equality.{◌==◌, string_eq}
use crypto_radar.Base.Dict.{Dict, values, lookup, insert}
use crypto_radar.Base.Order.{Key, sort_by}
use crypto_radar.Invocation.Text.{codes, valid_text}
use crypto_radar.Invocation.Identity.{InvocationIdentity, identity_equality}
use crypto_radar.Invocation.Lease.{
  Instant, InvocationState, claimed, completed, released, is_active, ReleaseReason, WindowKind,
  hour, day, RefusalReason, TransitionStatus, InvocationFailure, Result, ok, err, ◌>>=◌, require,
  ModelBudget, BudgetWindows, budget_windows, BudgetUsage, refusal_reason, lease_expiry, Lease,
  ClaimResult, won, duplicate, refused, Transition, InvocationRecord, fence_status, WindowKey,
  window_equality,
}
use crypto_radar.Invocation.Store.{
  Store, Work, Connection, write, Demand, hour_key, day_key, reserved, usage_of, reserve,
  reserve_one, observe, observe_refused,
}

-- The active row of an identity, the first in the order of the table.
unfoldable pub find_active : InvocationIdentity → List InvocationRecord → Option InvocationRecord
find_active i [] = none
find_active i (r ∷ rs) = if is_active r.state && r.identity == i then some r else find_active i rs

pub record Request : Type 0 where
  pub identity : InvocationIdentity
  pub model : String

-- The row that a winning claim inserts.
abbrev pub claimed_row : String → Request → String → Instant → Instant → InvocationRecord
claimed_row id q owner now expires = record {
  invocation_id = id;
  identity = q.identity;
  model = q.model;
  state = claimed;
  generation = 1;
  lease_owner = owner;
  lease_expires_at = expires;
  demand_count = 1;
  attempt_count = 0;
  windows = budget_windows now;
  claimed_at = now;
  updated_at = now;
  ended_at = none;
  end_reason = none;
}

-- `INSERT INTO invocations`: the primary key refuses an id that is there. (The unique index on the
-- active identity cannot: the row is inserted only where no active one was found.)
unfoldable pub insert_row : InvocationRecord → Work (Unit {0})
insert_row r s = elim (lookup r.invocation_id s.invocations) [
  | some old ↦ err InvocationFailure.storage_error
  | none ↦ ok (tt, record s { invocations = insert r.invocation_id r s.invocations })
]

-- The branch of `claim_invocation` that the budget refuses.
unfoldable pub refuse_claim : Request → ModelBudget → Instant → RefusalReason → Work ClaimResult
refuse_claim q b now reason s = do
  let w = budget_windows now
  s' ← observe_refused q.model w s
  ok (refused reason (usage_of b w s), s')

-- The branch that reserves and inserts the row.
unfoldable pub win_claim :
    Request → ModelBudget → String → Instant → Instant → String → Work ClaimResult
win_claim q b owner now expires id s = do
  _ ← require (valid_text id) InvocationFailure.invalid_field
  let lease : Lease = record {
    invocation_id = id;
    generation = 1;
    owner = owner;
    expires_at = expires;
  }
  (_, s') ← insert_row (claimed_row id q owner now expires) (reserve q.model (budget_windows now) s)
  ok (won lease (usage_of b (budget_windows now) s'), s')

-- The claim of an identity that is not active.
unfoldable pub claim_new :
    Request → ModelBudget → String → Instant → Instant → String → Work ClaimResult
claim_new q b owner now expires id s = elim (refusal_reason (usage_of b (budget_windows now) s)) [
  | some reason ↦ refuse_claim q b now reason s
  | none ↦ win_claim q b owner now expires id s
]

-- The branch that finds the identity active: one more demand of its row.
unfoldable pub repeat_claim : Instant → InvocationRecord → Work ClaimResult
repeat_claim now r s =
    let r' : InvocationRecord = record r { demand_count = r.demand_count + 1; updated_at = now } in
    ok (
      duplicate r.invocation_id (r.demand_count + 1),
      record s { invocations = insert r.invocation_id r' s.invocations },
    )

-- The work of `claim_invocation`.
unfoldable pub claim_work :
    Request → ModelBudget → String → Instant → Instant → String → Work ClaimResult
claim_work q b owner now expires id s =
    let s1 = observe q.model (budget_windows now) s in
    elim (find_active q.identity (values s1.invocations)) [
      | some r ↦ repeat_claim now r s1
      | none ↦ claim_new q b owner now expires id s1
    ]

-- `claim_invocation`; `id` is what the id factory gives.
unfoldable pub claim_invocation :
    Connection → Request → ModelBudget → String → Instant → ℕ → String → Work ClaimResult
claim_invocation c q b owner now lease_seconds id s = do
  _ ← require (b.model == q.model) InvocationFailure.invalid_field
  expires ← lease_expiry now lease_seconds
  _ ← require (valid_text owner) InvocationFailure.invalid_field
  write c (claim_work q b owner now expires id) s

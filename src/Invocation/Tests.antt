-- ===== src/Invocation/Tests.antt =====
-- A claim, an attempt, a take-over and an end on concrete tables.
use crypto_radar.Base.{◌+◌, ◌*◌, ◌≤◌, String, ◌≡◌, ◌≢◌, refl, Bool, true, false, none, some, arith}
use crypto_radar.Base.Equality.{string_eq}
use crypto_radar.Base.Dict.{lookup, insert, values}
use crypto_radar.Base.Order.{sort_by, place}
use crypto_radar.Base.Dict.Total.{total}
use crypto_radar.Invocation.Text.{valid_text, is_space}
use crypto_radar.Invocation.Identity.{InvocationIdentity, InstrumentKind, Direction, identity_eq}
use crypto_radar.Invocation.Lease.{
  Instant, second, Result, ok, err, ModelBudget, Lease, ReleaseReason, InvocationRecord, Transition,
  TransitionStatus, ClaimResult, WindowKind, hour, day, WindowKey, window_equality, fence_status,
  refusal_reason, budget_windows, lease_expiry, is_active, completed, released,
}
use crypto_radar.Invocation.Store.{
  Store, Connection, reserved, write, tries, observe, usage_of, reserve, reserve_one,
}
use crypto_radar.Invocation.Store.Ready.{IsReady}
use crypto_radar.Invocation.Claim.{
  Request, claim_invocation, claim_work, claim_new, win_claim, insert_row, find_active,
}
use crypto_radar.Invocation.Holder.{
  record_attempt, holder_work, fenced_update, complete_invocation, release_invocation, outcome,
  ended,
}
use crypto_radar.Invocation.Holder.Fence.{refusal, refused_unchanged, IsEnded, end_applies}
use crypto_radar.Invocation.Recovery.{recover_expired, take_over, take_one, expired_rows}
use crypto_radar.Invocation.Sound.{spent, owed}
use crypto_radar.Invocation.Reach.{
  Run, Step, empty, Run-IsSound, claimed_once, within_limits, attempts_paid,
}
use crypto_radar.Invocation.Reach.Final.{ended_final, lost_lease}

abbrev limits : String → ModelBudget
limits m = record { model = m; hourly_limit = 2; daily_limit = 5 }

abbrev squeeze : InvocationIdentity
squeeze = record {
  venue = "kraken";
  market_kind = InstrumentKind.spot;
  native_instrument = "XBT/EUR";
  setup = "SQUEEZE_RELEASE";
  direction = Direction.long;
  evidence_hash = "sha256:00";
  policy_version = "OC-1";
}

abbrev request : Request
request = record { identity = squeeze; model = "SONNET" }

abbrev ready : Connection
ready = record { in_transaction = false; migrated = true; busy_tries = 1 }

ready-IsReady : IsReady ready
ready-IsReady = record { closed = refl; migrated = refl; free = omega arith }

abbrev store_of : {A : Type 0} → Result (A × Store) → Store
store_of (ok (a, s)) = s
store_of (err e) = empty

abbrev noon : Instant
noon = 43_200 * second

-- The first claim, and its lease.
abbrev claimed_store : Store
claimed_store =
    store_of (claim_invocation ready request (limits "SONNET") "bridge-1" noon 60 "inv-1" empty)

abbrev lease : Lease
lease = record {
  invocation_id = "inv-1";
  generation = 1;
  owner = "bridge-1";
  expires_at = noon + 60 * second;
}

abbrev row : InvocationRecord
row = record {
  invocation_id = "inv-1";
  identity = squeeze;
  model = "SONNET";
  state = crypto_radar.Invocation.Lease.claimed;
  generation = 1;
  lease_owner = "bridge-1";
  lease_expires_at = noon + 60 * second;
  demand_count = 1;
  attempt_count = 0;
  windows = record { hour_start = noon; day_start = 0 };
  claimed_at = noon;
  updated_at = noon;
  ended_at = none;
  end_reason = none;
}

abbrev is_ok : {A : Type 0} → Result (A × Store) → Bool
is_ok (ok x) = true
is_ok (err e) = false

returned :
    {A : Type 0} (m : Result (A × Store)) → is_ok m ≡ true → (a : A) × (m ≡ ok (a, store_of m))
returned (ok (a, s)) h = (a, refl)
returned (err e) h = ground arith

claim_ok :
    is_ok (claim_invocation ready request (limits "SONNET") "bridge-1" noon 60 "inv-1" empty) ≡ true
unfolding claim_invocation lookup lease_expiry valid_text write claim_work find_active values
    observe claim_new refusal_reason usage_of reserved win_claim insert_row reserve insert
    budget_windows reserve_one tries is_space
claim_ok = refl

row_there : lookup "inv-1" claimed_store.invocations ≡ some row
unfolding claim_invocation lookup lease_expiry valid_text write claim_work find_active values
    observe claim_new refusal_reason usage_of reserved win_claim insert_row reserve insert
    budget_windows reserve_one tries is_space
row_there = refl

claimed_run : Run limits empty claimed_store
claimed_run =
    let (out, e) =
      returned (claim_invocation ready request (limits "SONNET") "bridge-1" noon 60 "inv-1" empty)
        claim_ok in
    Run.next Run.start
      (Step.claim ready request (limits "SONNET") "bridge-1" noon 60 "inv-1" out refl e)

-- A minute later another worker takes the row over.
abbrev taken_store : Store
taken_store = store_of (recover_expired ready "bridge-2" (noon + 61 * second) 60 10 claimed_store)

recover_ok :
    is_ok (recover_expired ready "bridge-2" (noon + 61 * second) 60 10 claimed_store) ≡ true
unfolding claim_invocation lookup lease_expiry valid_text write claim_work find_active values
    observe claim_new refusal_reason usage_of reserved win_claim insert_row reserve insert
    budget_windows reserve_one tries is_space fence_status recover_expired take_over take_one
    expired_rows complete_invocation holder_work fenced_update identity_eq sort_by place
recover_ok = refl

abbrev later : Instant
later = noon + 61 * second

abbrev taken_row : InvocationRecord
taken_row = record row {
  generation = 2;
  lease_owner = "bridge-2";
  lease_expires_at = later + 60 * second;
  updated_at = later;
}

taken_there : lookup "inv-1" taken_store.invocations ≡ some taken_row
unfolding claim_invocation lookup lease_expiry valid_text write claim_work find_active values
    observe claim_new refusal_reason usage_of reserved win_claim insert_row reserve insert
    budget_windows reserve_one tries is_space fence_status recover_expired take_over take_one
    expired_rows complete_invocation holder_work fenced_update identity_eq sort_by place
taken_there = refl

taken_run : Run limits empty taken_store
taken_run =
    let (out, e) =
      returned (recover_expired ready "bridge-2" later 60 10 claimed_store) recover_ok in
    Run.next claimed_run (Step.recover ready "bridge-2" later 60 10 out e)

-- The first worker's lease is lost; the second one completes the row.
abbrev new_lease : Lease
new_lease = record {
  invocation_id = "inv-1";
  generation = 2;
  owner = "bridge-2";
  expires_at = later + 60 * second;
}

abbrev ended_store : Store
ended_store = store_of (complete_invocation ready new_lease later taken_store)

complete_ok : is_ok (complete_invocation ready new_lease later taken_store) ≡ true
unfolding claim_invocation lookup lease_expiry valid_text write claim_work find_active values
    observe claim_new refusal_reason usage_of reserved win_claim insert_row reserve insert
    budget_windows reserve_one tries is_space fence_status recover_expired take_over take_one
    expired_rows complete_invocation holder_work fenced_update identity_eq sort_by place
complete_ok = refl

abbrev ended_row : InvocationRecord
ended_row = ended completed none later taken_row

ended_there : lookup "inv-1" ended_store.invocations ≡ some ended_row
unfolding claim_invocation lookup lease_expiry valid_text write claim_work find_active values
    observe claim_new refusal_reason usage_of reserved win_claim insert_row reserve insert
    budget_windows reserve_one tries is_space fence_status recover_expired take_over take_one
    expired_rows complete_invocation holder_work fenced_update identity_eq sort_by place
ended_there = refl

ended_step : Step limits taken_store ended_store
ended_step =
    let (out, e) = returned (complete_invocation ready new_lease later taken_store) complete_ok in
    Step.complete ready new_lease later out e

claimed_once_example : row.invocation_id ≡ taken_row.invocation_id
claimed_once_example =
    claimed_once "inv-1" "inv-1" row row claimed_run row_there row_there refl refl refl

within_limits_example :
    (reserved (record { model = "SONNET"; kind = hour; start = noon }) taken_store.budget ≤ 2)
    × (reserved (record { model = "SONNET"; kind = day; start = noon }) taken_store.budget ≤ 5)
within_limits_example = within_limits {limits = limits} "SONNET" noon taken_run

attempts_paid_example :
    spent "SONNET" hour taken_store.budget ≡ total (owed "SONNET") taken_store.invocations
attempts_paid_example = attempts_paid {limits = limits} "SONNET" hour taken_run

lost_lease_example :
    fence_status (lookup "inv-1" ended_store.invocations) lease later ≢ TransitionStatus.applied
lost_lease_example =
    lost_lease {limits = limits} lease taken_row later (Run-IsSound limits taken_run)
      (Run.next Run.start ended_step) taken_there (omega arith)

-- A second claim of the ended identity.
abbrev again_store : Store
again_store =
    store_of
      (claim_invocation ready request (limits "SONNET") "bridge-1" later 60 "inv-2" ended_store)

again_ok :
    is_ok (claim_invocation ready request (limits "SONNET") "bridge-1" later 60 "inv-2" ended_store)
    ≡ true
unfolding claim_invocation lookup lease_expiry valid_text write claim_work find_active values
    observe claim_new refusal_reason usage_of reserved win_claim insert_row reserve insert
    budget_windows reserve_one tries is_space fence_status recover_expired take_over take_one
    expired_rows complete_invocation holder_work fenced_update identity_eq sort_by place
again_ok = refl

again_run : Run limits ended_store again_store
again_run =
    let (out, e) =
      returned
        (claim_invocation ready request (limits "SONNET") "bridge-1" later 60 "inv-2" ended_store)
        again_ok in
    Run.next Run.start
      (Step.claim ready request (limits "SONNET") "bridge-1" later 60 "inv-2" out refl e)

ended_final_example : lookup "inv-1" again_store.invocations ≡ some ended_row
ended_final_example =
    ended_final {limits = limits} "inv-1" ended_row
      (Run-IsSound limits (Run.next taken_run ended_step)) again_run ended_there refl

old_refused :
    fence_status (lookup "inv-1" taken_store.invocations) lease later ≢ TransitionStatus.applied
old_refused =
    lost_lease {limits = limits} lease taken_row later (Run-IsSound limits taken_run) Run.start
      taken_there (omega arith)

refused_unchanged_example :
    (record_attempt ready lease (limits "SONNET") later taken_store
      ≡ ok (refusal lease later taken_store, taken_store))
    × (complete_invocation ready lease later taken_store
        ≡ ok (refusal lease later taken_store, taken_store))
    × (release_invocation ready lease ReleaseReason.failed later taken_store
        ≡ ok (refusal lease later taken_store, taken_store))
refused_unchanged_example =
    refused_unchanged ready lease (limits "SONNET") ReleaseReason.failed later taken_store
      ready-IsReady (Run-IsSound limits taken_run).table.keyed old_refused

end_applies_example :
    ((left : Store) × (complete_invocation ready new_lease later taken_store
        ≡ ok (outcome TransitionStatus.applied "inv-1" (some 0), left))
      × IsEnded "inv-1" taken_row completed none later taken_store left)
    × ((left : Store) × (release_invocation ready new_lease ReleaseReason.failed later taken_store
          ≡ ok (outcome TransitionStatus.applied "inv-1" (some 0), left))
        × IsEnded "inv-1" taken_row released (some ReleaseReason.failed) later taken_store left)
end_applies_example =
    end_applies new_lease later taken_row taken_store ready ReleaseReason.failed ready-IsReady
      taken_there refl refl refl refl (omega arith)

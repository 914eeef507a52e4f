-- ===== src/Scheduler/Tests.antt =====
-- Runs of the scheduler, and the theorems at concrete inputs.
use crypto_radar.Base.{ℕ, ◌*◌, ◌≤◌, ◌≡◌, ◌≢◌, refl, true, false, Option, none, some, [], ◌∷◌, arith}
use crypto_radar.Base.Equality.{string_eq}
use crypto_radar.Base.Dict.{lookup, insert, erase, values}
use crypto_radar.Invocation.Identity.{
  InvocationIdentity, InstrumentKind, Direction, identity_eq, identity_equality,
}
use crypto_radar.Scheduler.Time.{Instant, max_instant}
use crypto_radar.Scheduler.Types.{
  screener, Band, Horizon, ItemState, AdmissionStatus, TokenBound, TokenBasis, ok, transition, Safe,
  Returns,
}
use crypto_radar.Scheduler.Policy.{
  SchedulerPolicy, oc1_policy, valid_policy, points, band, max_span_seconds,
}
use crypto_radar.Scheduler.Version.{OpportunityVersion, group_key, group_eq}
use crypto_radar.Scheduler.State.{
  State, Running, QueuedEntry, initial, deadline_of, checked_deadline, roles_with, path_fits,
  sweep_verdict, begin, read_clock, add_entry, remove, sweep_state, sweep_entries, sweep_running,
  id_of, identity_of, group_of, rank_key,
}
use crypto_radar.Scheduler.Admission.{
  AdmissionResult, admit, admit_swept, admit_new, admit_checked, admit_grouped, admit_bounded,
  active_identity, names_same, existing,
}
use crypto_radar.Scheduler.Admission.Total.{offer_at, Admits, admit_total, admit-Returns, IsReading}
use crypto_radar.Scheduler.Admission.Keeps.{Settles}
use crypto_radar.Scheduler.Admission.Overflow.{Overflow, Overflow-drops_worst}
use crypto_radar.Base.Order.{sort_by, min_by, place}
use crypto_radar.Scheduler.Dispatch.{
  Dispatched, DispatchResult, start, dispatch, dispatch_swept, choose, run_chosen,
}
use crypto_radar.Scheduler.Dispatch.Total.{DispatchesAt, dispatch-Returns}
use crypto_radar.Scheduler.Calls.{complete, fail}
use crypto_radar.Scheduler.Calls.Total.{FinishesAt, FailsAt, complete_total, fail_total}
use crypto_radar.Scheduler.Invariant.{IsConsistent}
use crypto_radar.Scheduler.Reach.{Reach, Step, Reach-IsConsistent, one_active}

abbrev btc : InvocationIdentity
btc = record {
  venue = "kraken";
  market_kind = InstrumentKind.spot;
  native_instrument = "XBT/EUR";
  setup = "SQUEEZE_RELEASE";
  direction = Direction.long;
  evidence_hash = "sha256:00";
  policy_version = "OC-1";
}

abbrev at_second : ℕ → Instant
at_second n = n * 1_000_000

abbrev first : OpportunityVersion
first = record {
  item_id = "opp-1";
  identity = btc;
  horizon = Horizon.min_15;
  opportunity_score = points 80;
  sealed_at = at_second 1_000;
  integrity_valid = true;
  deterministic_path_eligible = false;
  requested_roles = screener ∷ [];
  origin_sealed_at = none;
}

abbrev entry : QueuedEntry
entry = record {
  version = first;
  band = Band.high;
  deadline = at_second 1_060;
  enqueued_at = at_second 1_001;
  path = screener ∷ [];
  supersedes = none;
}

-- The state with the first version queued.
abbrev one_queued : State
one_queued = record {
  last_now = some (at_second 1_001);
  queue = ("opp-1", entry) ∷ [];
  by_identity = (btc, "opp-1") ∷ [];
  by_group = (group_key first, "opp-1") ∷ [];
  running = none;
  slots_used = 0;
}

abbrev admission : AdmissionResult
admission = record {
  status = AdmissionStatus.admitted;
  item_id = "opp-1";
  state = ItemState.queued;
  path = screener ∷ [];
  dropped_roles = [];
  deadline = some (at_second 1_060);
  transitions = transition "opp-1" ItemState.queued (at_second 1_001) ∷ [];
}

admit-first : admit oc1_policy (some (at_second 1_001)) first initial ≡ ok (admission, one_queued)
unfolding admit admit_swept admit_new admit_checked admit_grouped admit_bounded active_identity
    existing begin read_clock checked_deadline deadline_of roles_with path_fits sweep_state
    sweep_entries sweep_running add_entry oc1_policy points band max_span_seconds lookup insert
    values sort_by
admit-first = refl

oc1_policy-valid : valid_policy oc1_policy ≡ true
unfolding valid_policy oc1_policy points
oc1_policy-valid = refl

one_queued-Reach : Reach oc1_policy one_queued
one_queued-Reach =
    Reach.next Reach.start (Step.admitted (some (at_second 1_001)) first admission admit-first)

-- The state with the first version running.
abbrev one_running : State
one_running = record {
  last_now = some (at_second 1_002);
  queue = [];
  by_identity = [];
  by_group = [];
  running = some (start entry (at_second 1_002));
  slots_used = 1;
}

abbrev sent : Dispatched
sent = record {
  item_id = "opp-1";
  path = screener ∷ [];
  deadline = at_second 1_060;
  slot_number = 1;
  fair_slot = false;
}

abbrev dispatch_result : DispatchResult
dispatch_result = record {
  dispatched = some sent;
  idle = none;
  transitions = transition "opp-1" ItemState.running (at_second 1_002) ∷ [];
}

dispatch_first :
    dispatch oc1_policy (some (at_second 1_002)) one_queued ≡ ok (dispatch_result, one_running)
unfolding dispatch dispatch_swept choose run_chosen remove begin read_clock path_fits sweep_state
    sweep_entries sweep_running sweep_verdict oc1_policy points max_span_seconds lookup erase values
    sort_by min_by identity_eq group_eq rank_key place group_key
dispatch_first = refl

one_running-Reach : Reach oc1_policy one_running
one_running-Reach =
    Reach.next one_queued-Reach
      (Step.dispatched (some (at_second 1_002)) dispatch_result dispatch_first)

one_queued-IsConsistent : IsConsistent oc1_policy one_queued
one_queued-IsConsistent = Reach-IsConsistent oc1_policy oc1_policy-valid one_queued-Reach

one_running-IsConsistent : IsConsistent oc1_policy one_running
one_running-IsConsistent = Reach-IsConsistent oc1_policy oc1_policy-valid one_running-Reach

-- A newer version of the same slot.
abbrev newer : OpportunityVersion
newer = record first {
  item_id = "opp-2";
  identity = record btc { evidence_hash = "sha256:01" };
  sealed_at = at_second 1_001;
}

abbrev reading : Option Instant
reading = some (at_second 1_002)

reading-IsReading : IsReading oc1_policy reading one_queued (at_second 1_002)
unfolding max_span_seconds oc1_policy
reading-IsReading = record { read = refl; room = refl; forward = refl }

newer_names_none : names_same (active_identity "opp-2" one_queued) newer.identity ≡ true
unfolding active_identity lookup
newer_names_none = refl

newer_in_range : deadline_of oc1_policy newer ≤ max_instant
unfolding deadline_of oc1_policy
newer_in_range = omega arith

Reach-IsConsistent_example : IsConsistent oc1_policy one_running
Reach-IsConsistent_example = Reach-IsConsistent oc1_policy oc1_policy-valid one_running-Reach

found_first : lookup "opp-1" one_queued.queue ≡ some entry
unfolding lookup
found_first = refl

one_active_example :
    (identity_of entry ≡ identity_of entry → id_of entry ≡ "opp-1")
    × (group_of entry ≡ group_of entry → id_of entry ≡ "opp-1")
    × ((r : Running) → one_queued.running ≡ some r → identity_of r.entry ≢ identity_of entry)
one_active_example =
    one_active oc1_policy oc1_policy-valid "opp-1" "opp-1" entry entry one_queued-Reach found_first
      found_first

admit_total_example :
    Safe (Admits oc1_policy reading newer one_queued) (admit oc1_policy reading newer one_queued)
admit_total_example =
    admit_total oc1_policy reading newer one_queued oc1_policy-valid one_queued-IsConsistent

admit-Returns_example :
    Returns
      (Settles oc1_policy (offer_at oc1_policy newer (at_second 1_002)))
      (admit oc1_policy reading newer one_queued)
admit-Returns_example =
    admit-Returns oc1_policy reading newer one_queued oc1_policy-valid one_queued-IsConsistent
      (at_second 1_002) reading-IsReading newer_names_none newer_in_range

dispatch-Returns_example :
    Returns (DispatchesAt oc1_policy reading one_queued) (dispatch oc1_policy reading one_queued)
dispatch-Returns_example =
    dispatch-Returns oc1_policy reading one_queued (at_second 1_002) one_queued-IsConsistent
      reading-IsReading

abbrev prompt : TokenBound
prompt = record { upper_bound = 2_000; basis = TokenBasis.tokenizer_count }

complete_total_example :
    Safe
      (FinishesAt oc1_policy reading "opp-1" one_running)
      (complete oc1_policy reading "opp-1" one_running)
complete_total_example =
    complete_total oc1_policy reading "opp-1" one_running one_running-IsConsistent

fail_total_example :
    Safe
      (FailsAt oc1_policy reading "opp-1" one_running)
      (fail oc1_policy reading "opp-1" one_running)
fail_total_example = fail_total oc1_policy reading "opp-1" one_running one_running-IsConsistent

-- The same state under a policy with room for one queued item.
abbrev small_policy : SchedulerPolicy
small_policy = record oc1_policy { max_queued = 1 }

small_policy-valid : valid_policy small_policy ≡ true
unfolding valid_policy oc1_policy points
small_policy-valid = refl

admit_small : admit small_policy (some (at_second 1_001)) first initial ≡ ok (admission, one_queued)
unfolding admit admit_swept admit_new admit_checked admit_grouped admit_bounded active_identity
    existing begin read_clock checked_deadline deadline_of roles_with path_fits sweep_state
    sweep_entries sweep_running add_entry oc1_policy points band max_span_seconds lookup insert
    values sort_by
admit_small = refl

Overflow-drops_worst_example :
    Returns (Overflow one_queued entry) (
      admit_bounded small_policy
        (offer_at small_policy newer (at_second 1_002))
        entry
        one_queued
        [])
Overflow-drops_worst_example =
    Overflow-drops_worst small_policy (offer_at small_policy newer (at_second 1_002)) entry
      one_queued []
      (Reach-IsConsistent small_policy small_policy-valid (
        Reach.next Reach.start
          (Step.admitted (some (at_second 1_001)) first admission admit_small)))
      (omega arith) (omega arith)

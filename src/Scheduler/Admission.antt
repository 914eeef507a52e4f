-- ===== src/Scheduler/Admission.antt =====
-- `DeadlineScheduler.admit`
pub mod Keeps
pub mod Total
pub mod Overflow
use crypto_radar.Base.{
  ℕ, ◌+◌, ◌*◌, ◌-◌, String, ◌≡◌, Bool, true, false, ◌&&◌, ◌||◌, not, Option, none, some, List, [],
  ◌∷◌, ◌++◌, arith, ltb, leb, if◌then◌else◌, sum_of, length,
}
use crypto_radar.Base.Equality.{◌==◌, string_eq}
use crypto_radar.Base.Dict.{Dict, values, lookup, insert, erase}
use crypto_radar.Base.Order.{Key, lex_lt, max_by}
use crypto_radar.Invocation.Identity.{InvocationIdentity, identity_equality}
use crypto_radar.Scheduler.Time.{Instant}
use crypto_radar.Scheduler.Types.{
  Horizon, min_15, hour_1, hour_4, hour_24, Band, Role, ItemState, StaleReason, SchedulerFailure,
  Outcome, ok, err, key_error, ◌>>=◌, Transition, transition, abort, AdmissionStatus,
}
use crypto_radar.Scheduler.Policy.{SchedulerPolicy, band}
use crypto_radar.Scheduler.Version.{
  OpportunityVersion, GroupKey, group_key, group_equality, require,
}
use crypto_radar.Scheduler.State.{
  QueuedEntry, Running, State, id_of, identity_of, group_of, rank_key, read_clock, checked_deadline,
  roles_with, path_fits, unfit_state, remove, add_entry, begin,
}
use text.Mathlib.Text.{◌==◌ as str_eq}

pub record AdmissionResult : Type 0 where
  pub status : AdmissionStatus
  pub item_id : String
  pub state : ItemState
  pub path : List Role
  pub dropped_roles : List Role
  pub deadline : Option Instant
  pub transitions : List Transition

-- What `admit` has computed of the incoming version before the commit point.
pub record Offer : Type 0 where
  pub version : OpportunityVersion
  pub now : Instant
  pub path : List Role
  pub dropped : List Role
  pub deadline : Instant

-- `_active_identity`
unfoldable pub active_identity : String → State → Option InvocationIdentity
active_identity id s = elim (lookup id s.queue) [
  | some e ↦ some (identity_of e)
  | none ↦ elim s.running [
    | none ↦ none
    | some r ↦ if id_of r.entry == id then some (identity_of r.entry) else none
  ]
]

-- `current_identity is not None and current_identity != version.identity` does not hold.
abbrev pub names_same : Option InvocationIdentity → InvocationIdentity → Bool
names_same none i = true
names_same (some current) i = current == i

-- `next((t.state for t in out if t.item_id == item_id), ItemState.ABORT_STALE)`
abbrev closing_state : String → List Transition → ItemState
closing_state id [] = ItemState.abort_stale
closing_state id (t ∷ ts) = if t.item_id == id then t.state else closing_state id ts

-- The existing active item of the same identity, with the state that is reported of it.
unfoldable pub existing : InvocationIdentity → State → Option (String × ItemState)
existing i s = elim (lookup i s.by_identity) [
  | some id ↦ some (id, ItemState.queued)
  | none ↦ elim s.running [
    | none ↦ none
    | some r ↦
        if identity_of r.entry == i
        then some (id_of r.entry, if r.aborted then ItemState.abort_stale else ItemState.running)
        else none
  ]
]

abbrev horizon_eq : Horizon → Horizon → Bool
horizon_eq min_15 min_15 = true
horizon_eq hour_1 hour_1 = true
horizon_eq hour_4 hour_4 = true
horizon_eq hour_24 hour_24 = true
horizon_eq _ _ = false

-- Two versions of one slot may replace each other: same policy version, same horizon.
abbrev pub compatible : OpportunityVersion → OpportunityVersion → Bool
compatible a b =
    str_eq a.identity.policy_version b.identity.policy_version && horizon_eq a.horizon b.horizon

-- `refused(state, related, reason)`: the transition of the incoming item, and the result.
abbrev pub refusal :
    Offer → ItemState → Option String → Option StaleReason → List Transition → AdmissionResult
refusal o state related reason out = record {
  status = AdmissionStatus.refused;
  item_id = o.version.item_id;
  state = state;
  path = [];
  dropped_roles = o.dropped;
  deadline = some o.deadline;
  transitions =
      out
      ++ record {
        item_id = o.version.item_id;
        state = state;
        at = o.now;
        related_id = related;
        stale_reason = reason;
      }
        ∷ [];
}

abbrev pub linked : String → ItemState → Instant → Option String → Transition
linked id state now related = record {
  item_id = id;
  state = state;
  at = now;
  related_id = related;
  stale_reason = none;
}

abbrev pub Admitted : Type 0
Admitted = AdmissionResult × State

-- The last lines of `admit`: the entry goes into the queue.
abbrev pub enqueue : Offer → QueuedEntry → State → List Transition → Admitted
enqueue o entry s out = (
  record {
    status = AdmissionStatus.admitted;
    item_id = o.version.item_id;
    state = ItemState.queued;
    path = o.path;
    dropped_roles = o.dropped;
    deadline = some o.deadline;
    transitions = out ++ linked o.version.item_id ItemState.queued o.now entry.supersedes ∷ [];
  },
  add_entry entry s,
)

-- `worst = max(queue.values(), key=_rank_key)` of a queue that is not empty
unfoldable pub worst_of : List QueuedEntry → Option QueuedEntry
worst_of [] = none
worst_of (e ∷ es) = some (max_by rank_key e es)

-- Step 4: a bounded queue. The loser against the worst queued item is dropped. (Python's `max` of
-- an empty queue would raise; it is not reached, since a policy's `max_queued` is at least 1.)
unfoldable pub admit_bounded :
    SchedulerPolicy → Offer → QueuedEntry → State → List Transition → Outcome Admitted
admit_bounded p o entry s out =
    if leb p.max_queued (length s.queue)
    then elim (worst_of (values s.queue)) [
      | none ↦ key_error
      | some worst ↦
          if lex_lt (rank_key entry) (rank_key worst)
          then (do
            (gone, s') ← remove (id_of worst) s
            let dropped =
                linked (id_of worst) ItemState.dropped_backpressure o.now (some o.version.item_id)
            ok (enqueue o entry s' (out ++ dropped ∷ [])))
          else ok (refusal o ItemState.dropped_backpressure (some (id_of worst)) none out, s)
    ]
    else ok (enqueue o entry s out)

abbrev entry_for : Offer → Band → Option String → QueuedEntry
entry_for o b supersedes = record {
  version = o.version;
  band = b;
  deadline = o.deadline;
  enqueued_at = o.now;
  path = o.path;
  supersedes = supersedes;
}

-- Step 3: one queued version for each instrument, setup and direction.
unfoldable pub admit_grouped :
    SchedulerPolicy → Offer → Band → State → List Transition → Outcome Admitted
admit_grouped p o b s out = elim (lookup (group_key o.version) s.by_group) [
  | none ↦ admit_bounded p o (entry_for o b none) s out
  | some incumbent_id ↦ elim (lookup incumbent_id s.queue) [
    | none ↦ key_error
    | some incumbent ↦
        if not (compatible incumbent.version o.version)
        then ok (refusal o ItemState.incompatible_version (some incumbent_id) none out, s)
        else if leb o.version.sealed_at incumbent.version.sealed_at
        then ok (refusal o ItemState.superseded (some incumbent_id) none out, s)
        else (do
          (gone, s') ← remove incumbent_id s
          let replaced = linked incumbent_id ItemState.superseded o.now (some o.version.item_id)
          admit_bounded p o (entry_for o b (some incumbent_id)) s' (out ++ replaced ∷ []))
  ]
]

-- Step 2: invalid, not eligible, expired, or with no bounded path.
unfoldable pub admit_checked : SchedulerPolicy → Offer → State → List Transition → Outcome Admitted
admit_checked p o s out =
    if not o.version.integrity_valid
    then ok (refusal o ItemState.integrity_invalid none none out, s)
    else elim (band p o.version.opportunity_score) [
      | none ↦ ok (refusal o ItemState.not_eligible none none out, s)
      | some b ↦
          if leb o.deadline o.now
          then ok (refusal o ItemState.abort_stale none (some StaleReason.deadline_passed) out, s)
          else if not (path_fits p o.path o.now o.deadline)
          then ok (refusal o (unfit_state o.version) none none out, s)
          else admit_grouped p o b s out
    ]

-- Step 1: an identical active identity is the same invocation.
unfoldable pub admit_new : SchedulerPolicy → Offer → State → List Transition → Outcome Admitted
admit_new p o s out = elim (existing o.version.identity s) [
  | none ↦ admit_checked p o s out
  | some (id, state) ↦ ok (
    record {
      status = AdmissionStatus.duplicate;
      item_id = id;
      state = state;
      path = [];
      dropped_roles = o.dropped;
      deadline = none;
      transitions = out;
    },
    s,
  )
]

-- A replay of an item that the sweep has just closed.
abbrev replayed : Offer → List Transition → AdmissionResult
replayed o out = record {
  status = AdmissionStatus.refused;
  item_id = o.version.item_id;
  state = closing_state o.version.item_id out;
  path = [];
  dropped_roles = [];
  deadline = none;
  transitions = out;
}

-- What follows the commit point: `current` is the identity that the item's id named before it.
unfoldable pub admit_swept :
    SchedulerPolicy → Offer → Option InvocationIdentity → State → List Transition → Outcome Admitted
admit_swept p o none s out = admit_new p o s out
admit_swept p o (some current) s out = elim (active_identity o.version.item_id s) [
  | none ↦ ok (replayed o out, s)
  | some i ↦ admit_new p o s out
]

-- `admit`. Everything that can raise comes before `begin`.
unfoldable pub admit :
    SchedulerPolicy → Option Instant → OpportunityVersion → State → Outcome Admitted
admit p reading version s = do
  now ← read_clock p reading s
  let current = active_identity version.item_id s
  _ ← require (names_same current version.identity) SchedulerFailure.invalid_field
  deadline ← checked_deadline p version
  let offer : Offer = record {
    version = version;
    now = now;
    path = roles_with p true version.requested_roles;
    dropped = roles_with p false version.requested_roles;
    deadline = deadline;
  }
  (out, s') ← begin p now s
  admit_swept p offer current s' out

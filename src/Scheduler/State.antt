-- ===== src/Scheduler/State.antt =====
-- The state of `DeadlineScheduler` and its helpers: the clock, the queue with its two indexes, and
-- the sweep of expired work. The policy is fixed at construction, so it is a parameter.
use crypto_radar.Base.{
  ℕ, ◌+◌, ◌*◌, ◌-◌, String, Bool, true, false, ◌&&◌, ◌||◌, not, Option, none, some, List, [], ◌∷◌,
  ◌++◌, ltb, leb, if◌then◌else◌, sum_of, length,
}
use crypto_radar.Base.Equality.{◌==◌, string_eq}
use crypto_radar.Base.Dict.{Dict, values, lookup, insert, erase}
use crypto_radar.Base.Order.{Key, sort_by}
use crypto_radar.Invocation.Text.{codes}
use crypto_radar.Invocation.Identity.{InvocationIdentity, identity_equality}
use crypto_radar.Scheduler.Time.{Instant, second, max_instant, has_room}
use crypto_radar.Scheduler.Types.{
  Band, high, eligible, Role, ItemState, StaleReason, SchedulerFailure, Outcome, ok, err, key_error,
  ◌>>=◌, Transition, transition, abort,
}
use crypto_radar.Scheduler.Policy.{SchedulerPolicy, max_span_seconds}
use crypto_radar.Scheduler.Version.{
  OpportunityVersion, GroupKey, group_key, group_equality, require_aware, require,
}

pub record QueuedEntry : Type 0 where
  pub version : OpportunityVersion
  pub band : Band
  pub deadline : Instant
  pub enqueued_at : Instant
  pub path : List Role
  pub supersedes : Option String

abbrev pub id_of : QueuedEntry → String
id_of e = e.version.item_id

abbrev pub identity_of : QueuedEntry → InvocationIdentity
identity_of e = e.version.identity

abbrev pub group_of : QueuedEntry → GroupKey
group_of e = group_key e.version

-- `_Running`
pub record Running : Type 0 where
  pub entry : QueuedEntry
  pub dispatched_at : Instant
  pub invocations : ℕ
  pub repairs : ℕ
  pub prompt_tokens : ℕ
  pub output_tokens : ℕ
  pub aborted : Bool

pub record State : Type 0 where
  pub last_now : Option Instant
  pub queue : Dict String QueuedEntry
  pub by_identity : Dict InvocationIdentity String
  pub by_group : Dict GroupKey String
  pub running : Option Running
  pub slots_used : ℕ

-- `DeadlineScheduler.__init__`
abbrev pub initial : State
initial = record {
  last_now = none;
  queue = [];
  by_identity = [];
  by_group = [];
  running = none;
  slots_used = 0;
}

abbrev band_order : Band → ℕ
band_order high = 0
band_order eligible = 1

-- `_rank_key`, and `_fair_key`
unfoldable pub rank_key : QueuedEntry → Key
rank_key e = band_order e.band ∷ e.deadline ∷ e.version.sealed_at ∷ codes e.version.item_id

unfoldable pub fair_key : QueuedEntry → Key
fair_key e = e.enqueued_at ∷ e.version.sealed_at ∷ codes e.version.item_id

abbrev pub goes_back : Option Instant → Instant → Bool
goes_back none moment = false
goes_back (some last) moment = ltb moment last

-- `version.origin_sealed_at or version.sealed_at`
abbrev pub origin_of : OpportunityVersion → Instant
origin_of v = elim v.origin_sealed_at [ none ↦ v.sealed_at | some origin ↦ origin ]

module _ (p : SchedulerPolicy) where
  -- `_read_clock`: the reading of the injected clock, or the refusal of it.
  unfoldable pub read_clock : Option Instant → State → Outcome Instant
  read_clock reading s = do
    moment ← require_aware reading SchedulerFailure.invalid_clock
    _ ← require (has_room moment (max_span_seconds p)) SchedulerFailure.invalid_clock
    _ ← require (not (goes_back s.last_now moment)) SchedulerFailure.clock_went_backwards
    ok moment

  -- When the analysis of a version must be done, counted from the origin of the deadline.
  unfoldable pub deadline_of : OpportunityVersion → Instant
  deadline_of v = origin_of v + (p.horizon_limits v.horizon).analysis_deadline_seconds * second

  -- `_deadline`, which refuses a sum that no datetime holds.
  unfoldable pub checked_deadline : OpportunityVersion → Outcome Instant
  checked_deadline v =
      if leb (deadline_of v) max_instant
      then ok (deadline_of v)
      else err SchedulerFailure.invalid_field

  -- `_enabled_path`: the roles that are kept (`true`) or dropped (`false`).
  unfoldable pub roles_with : Bool → List Role → List Role
  roles_with flag [] = []
  roles_with flag (r ∷ rs) =
      let rest = roles_with flag rs in
      let on = (p.role_profiles r).enabled in
      if (flag && on) || (not flag && not on) then r ∷ rest else rest

  -- The seconds that a path may take: every hard timeout and the reserve.
  unfoldable pub path_seconds : List Role → ℕ
  path_seconds path =
      sum_of (λ r. (p.role_profiles r).hard_timeout_seconds) path + p.finalization_reserve_seconds

  -- `_path_fits`
  unfoldable pub path_fits : List Role → Instant → Instant → Bool
  unfolding path_seconds
  path_fits path now deadline =
      leb 1 (length path)
      && leb (length path) p.max_invocations
      && leb (sum_of (λ r. (p.role_profiles r).max_input_tokens) path) p.max_prompt_tokens
      && leb (sum_of (λ r. (p.role_profiles r).output_cap_tokens) path) p.max_output_tokens
      && leb (now + path_seconds path * second) deadline

-- `_unfit_state`
abbrev pub unfit_state : OpportunityVersion → ItemState
unfit_state v =
    if v.deterministic_path_eligible then ItemState.deterministic_only else ItemState.abstain

-- `if self._by_group.get(group) == item_id: del self._by_group[group]`
unfoldable pub drop_group : GroupKey → String → Dict GroupKey String → Dict GroupKey String
drop_group group id groups = elim (lookup group groups) [
  | none ↦ groups
  | some owner ↦ if owner == id then erase group groups else groups
]

abbrev without : String → QueuedEntry → State → State
without id entry s = record s {
  queue = erase id s.queue;
  by_identity = erase (identity_of entry) s.by_identity;
  by_group = drop_group (group_of entry) id s.by_group;
}

-- `_remove`: `dict.pop` and `del` raise on a key that is not there.
unfoldable pub remove : String → State → Outcome (QueuedEntry × State)
unfolding drop_group
remove id s = elim (lookup id s.queue) [
  | none ↦ key_error
  | some entry ↦ elim (lookup (identity_of entry) s.by_identity) [
    | none ↦ key_error
    | some owner ↦ ok (entry, without id entry s)
  ]
]

-- `_insert`
unfoldable pub add_entry : QueuedEntry → State → State
add_entry entry s = record s {
  queue = insert (id_of entry) entry s.queue;
  by_identity = insert (identity_of entry) (id_of entry) s.by_identity;
  by_group = insert (group_of entry) (id_of entry) s.by_group;
}

module _ (p : SchedulerPolicy) where
  -- What the sweep records of one queued entry, if it takes it out of the queue.
  unfoldable pub sweep_verdict : Instant → QueuedEntry → Option Transition
  sweep_verdict now e =
      if leb e.deadline now
      then some (abort (id_of e) StaleReason.deadline_passed now)
      -- a clock behind the admission gives an age of 0 here, which is not above any limit either
      else if ltb ((p.horizon_limits e.version.horizon).max_queued_age_seconds * second)
          (now - e.enqueued_at)
      then some (abort (id_of e) StaleReason.queued_age_exceeded now)
      else if not (path_fits p e.path now e.deadline)
      then some (transition (id_of e) (unfit_state e.version) now)
      else none

  -- The loop of `_sweep` over the entries, sorted before it starts.
  unfoldable pub sweep_entries :
      Instant → List QueuedEntry → State → List Transition → Outcome (List Transition × State)
  sweep_entries now [] s out = ok (out, s)
  sweep_entries now (e ∷ es) s out = elim (sweep_verdict now e) [
    | none ↦ sweep_entries now es s out
    | some t ↦ elim (remove (id_of e) s) [
      | ok (gone, s') ↦ sweep_entries now es s' (out ++ t ∷ [])
      | err f ↦ err f
      | key_error ↦ key_error
    ]
  ]

  -- The running item is aborted once its deadline has passed, and keeps its slot.
  unfoldable pub sweep_running : Instant → Option Running → Option Running × List Transition
  sweep_running now none = (none, [])
  sweep_running now (some r) =
      if not r.aborted && leb r.entry.deadline now
      then (
        some (record r { aborted = true }),
        abort (id_of r.entry) StaleReason.deadline_passed now ∷ [],
      )
      else (some r, [])

  -- `_sweep`
  unfoldable pub sweep_state : Instant → State → Outcome (List Transition × State)
  unfolding sweep_running
  sweep_state now s =
      let (running, out) = sweep_running now s.running in
      sweep_entries now (sort_by rank_key (values s.queue)) (record s { running = running }) out

  -- `_begin`: the commit point of every public operation.
  unfoldable pub begin : Instant → State → Outcome (List Transition × State)
  begin now s = sweep_state now (record s { last_now = some now })

  -- `sweep`
  unfoldable pub sweep : Option Instant → State → Outcome (List Transition × State)
  sweep reading s = do now ← read_clock p reading s; begin now s

  -- `queued`, in ranking order
  unfoldable pub queued : State → List QueuedEntry
  queued s = sort_by rank_key (values s.queue)

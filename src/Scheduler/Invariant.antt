-- ===== src/Scheduler/Invariant.antt =====
-- The invariant of the scheduler between two public operations.
pub mod Begin
pub mod Changes
use crypto_radar.Base.{ℕ, ◌≤◌, String, ◌≡◌, ◌≢◌, refl, Bool, true, Option, none, some, length}
use crypto_radar.Base.Equality.{string_eq}
use crypto_radar.Base.Dict.{lookup}
use crypto_radar.Base.Dict.Index.{key_at}
use crypto_radar.Scheduler.Policy.{SchedulerPolicy, band}
use crypto_radar.Invocation.Identity.{identity_equality}
use crypto_radar.Scheduler.State.{
  QueuedEntry, Running, State, id_of, identity_of, deadline_of, roles_with, initial,
}
use crypto_radar.Scheduler.Queue.{IsIndexed}

-- An entry carries what its version and the policy fix: the deadline is that of the origin seal.
pub record IsPlanned (p : SchedulerPolicy) (e : QueuedEntry) : Type 0 where
  pub deadline_fixed : e.deadline ≡ deadline_of p e.version
  pub path_enabled : e.path ≡ roles_with p true e.version.requested_roles
  pub band_scored : band p e.version.opportunity_score ≡ some e.band
  pub integrity : e.version.integrity_valid ≡ true

-- The calls of one opportunity stay under the ceilings.
pub record IsCapped (p : SchedulerPolicy) (r : Running) : Type 0 where
  pub invocations : r.invocations ≤ p.max_invocations
  pub repairs : r.repairs ≤ p.max_repairs
  pub prompt_tokens : r.prompt_tokens ≤ p.max_prompt_tokens
  pub output_tokens : r.output_tokens ≤ p.max_output_tokens

-- The running item is not queued as well, neither by its id nor by its identity.
pub record IsApart (r : Running) (s : State) : Type 0 where
  pub no_id : lookup (id_of r.entry) s.queue ≡ none
  pub no_identity : (id : String) → key_at identity_of id s.queue ≢ some (identity_of r.entry)

pub record IsConsistent (p : SchedulerPolicy) (s : State) : Type 0 where
  pub indexed : IsIndexed s
  pub bounded : length s.queue ≤ p.max_queued
  pub planned : (id : String) (e : QueuedEntry) → lookup id s.queue ≡ some e → IsPlanned p e
  pub running_planned : (r : Running) → s.running ≡ some r → IsPlanned p r.entry
  pub running_capped : (r : Running) → s.running ≡ some r → IsCapped p r
  pub running_apart : (r : Running) → s.running ≡ some r → IsApart r s

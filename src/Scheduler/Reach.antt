-- ===== src/Scheduler/Reach.antt =====
-- Every state that the public operations of `DeadlineScheduler` reach, in any order and with any
-- readings and arguments.
use crypto_radar.Base.{
  ◌≡◌, ◌≢◌, refl, sym, ap, ◌∙◌, String, Bool, true, Option, none, some, List, arith,
}
use crypto_radar.Base.Equality.{string_eq}
use crypto_radar.Base.Dict.{lookup}
use crypto_radar.Base.Dict.Index.{key_at}
use mathlib.Core.Path.{subst}
use mathlib.Core.Option.{some-injective}
use crypto_radar.Invocation.Identity.{identity_equality}
use crypto_radar.Scheduler.Time.{Instant}
use crypto_radar.Scheduler.Types.{Role, TokenBound, Outcome, ok, Safe, Safe-bind, Transition}
use crypto_radar.Scheduler.Policy.{SchedulerPolicy, valid_policy}
use crypto_radar.Scheduler.Version.{OpportunityVersion, group_equality}
use crypto_radar.Scheduler.State.{
  QueuedEntry, Running, State, initial, identity_of, group_of, sweep, begin, sweep_verdict,
  read_clock,
}
use crypto_radar.Scheduler.Invariant.{IsConsistent}
use crypto_radar.Scheduler.Invariant.Begin.{Sweeps, begin_lem}
use crypto_radar.Scheduler.Admission.{AdmissionResult, admit}
use crypto_radar.Scheduler.Admission.Total.{admit_total, IsReading, read_clock-Safe}
use crypto_radar.Scheduler.Dispatch.{DispatchResult, dispatch}
use crypto_radar.Scheduler.Dispatch.Total.{dispatch_total}
use crypto_radar.Scheduler.Calls.{CallDecision, CompletionResult, authorize_call, complete, fail}
use crypto_radar.Scheduler.Calls.Total.{authorize_total, complete_total, fail_total}

-- One public call that returns. A call that raises leaves the state, so it makes no step.
pub data Step (p : SchedulerPolicy) (s : State) (t : State) : Type 0 where
  swept :
      (reading : Option Instant) (out : List Transition)
      → sweep p reading s ≡ ok (out, t)
      → Step p s t
  admitted :
      (reading : Option Instant) (v : OpportunityVersion) (r : AdmissionResult)
      → admit p reading v s ≡ ok (r, t)
      → Step p s t
  dispatched :
      (reading : Option Instant) (r : DispatchResult)
      → dispatch p reading s ≡ ok (r, t)
      → Step p s t
  authorized :
      (reading : Option Instant) (id : String) (role : Role) (repair : Bool) (prompt : TokenBound)
      (r : CallDecision)
      → authorize_call p reading id role repair prompt s ≡ ok (r, t)
      → Step p s t
  completed :
      (reading : Option Instant) (id : String) (r : CompletionResult)
      → complete p reading id s ≡ ok (r, t)
      → Step p s t
  failed :
      (reading : Option Instant) (id : String) (r : CompletionResult)
      → fail p reading id s ≡ ok (r, t)
      → Step p s t

pub data Reach (p : SchedulerPolicy) : State → Type 0 where
  start : Reach p initial
  next : {s t : State} → Reach p s → Step p s t → Reach p t

-- What a safe call has returned has the property.
returned {ℓ} : {A : Type ℓ} (P : A → Type 0) (m : Outcome A) (a : A) → Safe P m → m ≡ ok a → P a
returned P m a h e = rw e at h

abbrev SweptAt : SchedulerPolicy → Option Instant → State → List Transition × State → Type 0
SweptAt p reading s a =
    (now : Instant) × IsReading p reading s now
    × ((w : Sweeps p now (record s { last_now = some now })) × (a.1 ≡ w.state))

sweep_total :
    (p : SchedulerPolicy) (reading : Option Instant) (s : State)
    → IsConsistent p s
    → Safe (SweptAt p reading s) (sweep p reading s)
unfolding sweep begin
sweep_total p reading s c =
    Safe-bind (IsReading p reading s) (SweptAt p reading s) (read_clock p reading s) _
      (read_clock-Safe p reading s)
      λ now k. let w = begin_lem p now s c in rw w.returns (now, k, (w, refl))

initial-IsConsistent : (p : SchedulerPolicy) → IsConsistent p initial
unfolding lookup
initial-IsConsistent p = record {
  indexed = record {
    keyed = λ id e k. cc;
    unique = tt;
    identities = λ id i. ground arith;
    groups = λ id g. ground arith;
  };
  bounded = omega arith;
  planned = λ id e k. cc;
  running_planned = λ r e. cc;
  running_capped = λ r e. cc;
  running_apart = λ r e. cc;
}

module _ (p : SchedulerPolicy) (valid : valid_policy p ≡ true) where
  Step-IsConsistent : {s t : State} → Step p s t → IsConsistent p s → IsConsistent p t
  Step-IsConsistent {s} {t} (swept reading out e) c =
      let (now, k, (w, same)) =
        returned (SweptAt p reading s) _ (out, t) (sweep_total p reading s c) e in
      subst (IsConsistent p) (sym same) w.consistent
  Step-IsConsistent {s} {t} (admitted reading v r e) c =
      (returned _ _ (r, t) (admit_total p reading v s valid c) e).2.consistent
  Step-IsConsistent {s} {t} (dispatched reading r e) c =
      let (now, k, (w, d)) = returned _ _ (r, t) (dispatch_total p reading s c) e in d.consistent
  Step-IsConsistent {s} {t} (authorized reading id role repair prompt r e) c =
      let (now, k, (w, d)) =
        returned _ _ (r, t) (authorize_total p reading id role repair prompt s c) e in
      d.consistent
  Step-IsConsistent {s} {t} (completed reading id r e) c =
      let (now, k, (x, run, mine, f)) = returned _ _ (r, t) (complete_total p reading id s c) e in
      f.consistent
  Step-IsConsistent {s} {t} (failed reading id r e) c =
      let (now, k, (x, run, mine, f)) = returned _ _ (r, t) (fail_total p reading id s c) e in
      f.consistent

  -- Every reachable state of the scheduler is consistent: the queue is bounded and agrees with both
  -- indexes, every entry has the deadline, the path and the band that the policy gives its version,
  -- and the running item is under its ceilings and not queued as well.
  pub Reach-IsConsistent : {s : State} → Reach p s → IsConsistent p s
  Reach-IsConsistent start = initial-IsConsistent p
  Reach-IsConsistent (next r st) = Step-IsConsistent st (Reach-IsConsistent r)

  -- In every reachable state two queued entries of one identity, or of one slot, are the same entry
  -- under the same id, and no queued entry has the identity of the running item.
  pub one_active :
      {s : State} (a b : String) (e f : QueuedEntry)
      → Reach p s
      → lookup a s.queue ≡ some e
      → lookup b s.queue ≡ some f
      → (identity_of e ≡ identity_of f → a ≡ b)
        × (group_of e ≡ group_of f → a ≡ b)
        × ((r : Running) → s.running ≡ some r → identity_of r.entry ≢ identity_of e)
  one_active {s} a b e f r at_a at_b =
      let c = Reach-IsConsistent r in
      let ix = c.indexed in
      let here : key_at identity_of a s.queue ≡ some (identity_of e) = rw (at_a, key_at) in
      (
        λ same. some-injective _ _ (
            sym ((ix.identities a (identity_of f)).1 (here ∙ ap some same))
            ∙ (ix.identities b (identity_of f)).1 (rw (at_b, key_at))),
        λ same. some-injective _ _ (
            sym ((ix.groups a (group_of f)).1 (rw (at_a, key_at) (ap some same)))
            ∙ (ix.groups b (group_of f)).1 (rw (at_b, key_at))),
        λ x run same. (c.running_apart x run).no_identity a (here ∙ ap some (sym same)),
      )

-- The queue of a state under a sweep at `now`.
abbrev pub Survives : SchedulerPolicy → Instant → State → String → QueuedEntry → Type 0
Survives p now s id e = (lookup id s.queue ≡ some e) × (sweep_verdict p now e ≡ none)

-- ===== src/Scheduler/Admission/Total.antt =====
-- The whole of `admit` of radar_v08/workflow/scheduler.py.
use crypto_radar.Base.{
  ◌≤◌, String, ◌≡◌, ◌≢◌, refl, sym, ap, ◌∙◌, Bool, true, false, Option, none, some, List, arith,
  inl, inr, Option-cases, Bool-cases, leb,
}
use crypto_radar.Base.Equality.{string_eq}
use crypto_radar.Base.Dict.{lookup}
use crypto_radar.Base.Dict.Index.{key_at}
use crypto_radar.Invocation.Identity.{InvocationIdentity, identity_equality, identity_eq_iff}
use crypto_radar.Scheduler.Time.{Instant, has_room, max_instant}
use crypto_radar.Scheduler.Types.{
  ok, ◌>>=◌, Safe, Safe-bind, Returns, Returns-of_eq, Returns-then, Returns-Safe, Safe-returns,
  Transition, SchedulerFailure,
}
use crypto_radar.Scheduler.Policy.{SchedulerPolicy, valid_policy, max_span_seconds}
use crypto_radar.Scheduler.Version.{OpportunityVersion, require}
use crypto_radar.Scheduler.State.{
  QueuedEntry, Running, State, id_of, identity_of, roles_with, deadline_of, checked_deadline,
  read_clock, begin, goes_back,
}
use crypto_radar.Scheduler.Invariant.{IsConsistent}
use crypto_radar.Scheduler.Invariant.Begin.{
  Sweeps, clocked-IsConsistent, begin_lem, Carried, sweep_running_carries,
}
use crypto_radar.Scheduler.Invariant.Changes.{IsFresh}
use crypto_radar.Scheduler.Admission.{
  Offer, Admitted, active_identity, existing, names_same, admit_new, admit_swept, admit_checked,
  admit, replayed,
}
use crypto_radar.Scheduler.Admission.Keeps.{Settles, checked_keeps}
use text.Mathlib.TextEquality.{eq_iff}

-- A reading that the scheduler takes: an aware moment, with room for the policy, not going back.
pub record IsReading (p : SchedulerPolicy) (reading : Option Instant) (s : State) (now : Instant)
    : Type 0 where
  pub read : reading ≡ some now
  pub room : has_room now (max_span_seconds p) ≡ true
  pub forward : goes_back s.last_now now ≡ false

pub read_clock-Safe :
    (p : SchedulerPolicy) (reading : Option Instant) (s : State)
    → Safe (IsReading p reading s) (read_clock p reading s)
unfolding read_clock
read_clock-Safe p none s = tt
read_clock-Safe p (some now) s = elim (Bool-cases (has_room now (max_span_seconds p))) [
  | inr far ↦ rw far tt
  | inl near ↦ elim (Bool-cases (goes_back s.last_now now)) [
    | inl back ↦ rw (near, back) tt
    | inr forward ↦ rw (near, forward) (record { read = refl; room = near; forward = forward })
  ]
]

-- An identity that no active item has.
not_existing :
    (i : InvocationIdentity) (s : State)
    → existing i s ≡ none
    → (lookup i s.by_identity ≡ none)
      × ((r : Running) → s.running ≡ some r → identity_of r.entry ≢ i)
unfolding existing
not_existing i s h =
    (ground arith, λ r run same. ground (arith, identity_eq_iff (identity_of r.entry) i))

module _ (p : SchedulerPolicy) (now : Instant) (s : State) (c : IsConsistent p s)
    (w : Sweeps p now s) (id : String) (i : InvocationIdentity)
    (same : names_same (active_identity id s) i ≡ true) (absent : existing i w.state ≡ none) where
  queued_active : (e : QueuedEntry) → lookup id s.queue ≡ some e → identity_of e ≡ i
  unfolding active_identity
  queued_active e found = ground (arith, identity_eq_iff (identity_of e) i)

  running_active : (r : Running) → s.running ≡ some r → id_of r.entry ≡ id → identity_of r.entry ≡ i
  unfolding active_identity
  running_active r run e = ground (
    arith,
    identity_eq_iff (identity_of r.entry) i,
    (c.running_apart r run).no_id,
    eq_iff (id_of r.entry) id,
  )

  -- After the sweep, a version that is no duplicate names no active item.
  IsFresh-after : IsFresh id i w.state
  IsFresh-after = record {
    no_id = elim (Option-cases (lookup id w.state.queue)) [
      | inl e ↦ e
      | inr (e, found) ↦
          let mine : identity_of e ≡ i = queued_active e (w.swept.subset id e found) in
          absurd (
            cc (
              (w.consistent.indexed.identities id i).1 (rw (found, key_at) (ap some mine)),
              (not_existing i w.state absent).0,
            ))
    ];
    no_identity = (not_existing i w.state absent).0;
    not_running = λ r' run.
        let k : Carried p now s.running r' =
          sweep_running_carries p now s.running r' (sym w.swept.same_running ∙ run) in
        (
          λ e. (not_existing i w.state absent).1 r' run (
              ap identity_of k.same_entry
              ∙ running_active k.before k.was (sym (ap id_of k.same_entry) ∙ e)),
          (not_existing i w.state absent).1 r' run,
        );
  }

module _ (p : SchedulerPolicy) (o : Offer) (s : State) (c : IsConsistent p s) (w : Sweeps p o.now s)
    (room : 1 ≤ p.max_queued) (fixed : o.deadline ≡ deadline_of p o.version)
    (enabled : o.path ≡ roles_with p true o.version.requested_roles)
    (same : names_same (active_identity o.version.item_id s) o.version.identity ≡ true)
    (out : List Transition) where
  new_keeps : Returns (Settles p o) (admit_new p o w.state out)
  unfolding admit_new
  new_keeps = elim (Option-cases (existing o.version.identity w.state)) [
    | inl absent ↦ Returns-of_eq (Settles p o) {n = admit_checked p o w.state out} (ground arith) (
        checked_keeps p o w.state out room fixed enabled w.consistent
          (IsFresh-after p o.now s c w o.version.item_id o.version.identity same absent))
    | inr ((id, st), present) ↦
        rw (present, admit_new) (record { consistent = w.consistent; queued = λ e. cc })
  ]

  swept_keeps :
      (current : Option InvocationIdentity)
      → Returns (Settles p o) (admit_swept p o current w.state out)
  unfolding admit_swept
  swept_keeps none = new_keeps
  swept_keeps (some i) = elim (Option-cases (active_identity o.version.item_id w.state)) [
    | inl closed ↦
        Returns-of_eq (Settles p o) {n = ok (replayed o out, w.state)} (ground arith)
          (record { consistent = w.consistent; queued = λ e. cc })
    | inr (j, active) ↦
        Returns-of_eq (Settles p o) {n = admit_new p o w.state out} (ground arith) new_keeps
  ]

-- The offer that `admit` makes of a version at a reading of the clock.
abbrev pub offer_at : SchedulerPolicy → OpportunityVersion → Instant → Offer
offer_at p v now = record {
  version = v;
  now = now;
  path = roles_with p true v.requested_roles;
  dropped = roles_with p false v.requested_roles;
  deadline = deadline_of p v;
}

pub require-Safe : (b : Bool) (f : SchedulerFailure) → Safe (λ _. b ≡ true) (require b f)
require-Safe true f = refl
require-Safe false f = tt

checked_deadline-Safe :
    (p : SchedulerPolicy) (v : OpportunityVersion)
    → Safe (λ d. d ≡ deadline_of p v) (checked_deadline p v)
unfolding checked_deadline
checked_deadline-Safe p v = elim (Bool-cases (leb (deadline_of p v) max_instant)) [
  | inl near ↦ rw near refl
  | inr far ↦ rw far tt
]

pub read_clock_taken :
    (p : SchedulerPolicy) (reading : Option Instant) (s : State) (now : Instant)
    → IsReading p reading s now
    → read_clock p reading s ≡ ok now
unfolding read_clock
read_clock_taken p reading s now k = rw (k.read, k.room, k.forward)

checked_deadline_near :
    (p : SchedulerPolicy) (v : OpportunityVersion)
    → deadline_of p v ≤ max_instant
    → checked_deadline p v ≡ ok (deadline_of p v)
unfolding checked_deadline
checked_deadline_near p v h = ground arith

pub room_for_one : (p : SchedulerPolicy) → valid_policy p ≡ true → 1 ≤ p.max_queued
unfolding valid_policy
room_for_one p h = ground arith

-- The result of `admit`, at the reading that it took.
abbrev pub Admits :
    SchedulerPolicy → Option Instant → OpportunityVersion → State → Admitted → Type 0
Admits p reading v s a =
    (now : Instant) × IsReading p reading s now × Settles p (offer_at p v now) a

module _ (p : SchedulerPolicy) (reading : Option Instant) (v : OpportunityVersion) (s : State)
    (valid : valid_policy p ≡ true) (c : IsConsistent p s) where
  -- What follows the deadline: the commit point and the rest.
  committed :
      (now : Instant) (d : Instant)
      → IsReading p reading s now
      → names_same (active_identity v.item_id s) v.identity ≡ true
      → d ≡ deadline_of p v
      → Safe (Admits p reading v s) (
          begin p now s >>= λ (out, t).
          admit_swept p
            (record (offer_at p v now) { deadline = d })
            (active_identity v.item_id s)
            t
            out)
  unfolding begin active_identity
  committed now d k same e =
      let w = begin_lem p now s c in
      let s' : State = record s { last_now = some now } in
      rw e (
        Safe-returns (Admits p reading v s) (begin p now s) _ (_, w.state) w.returns
          (Returns-Safe (Settles p (offer_at p v now)) (Admits p reading v s) (λ a h. (now, k, h)) _
            (swept_keeps p (offer_at p v now) s' (clocked-IsConsistent p now s c) w
              (room_for_one p valid) refl refl same _ (active_identity v.item_id s))))

  pub admit_total : Safe (Admits p reading v s) (admit p reading v s)
  unfolding admit
  admit_total =
      Safe-bind (IsReading p reading s) _ (read_clock p reading s) _ (read_clock-Safe p reading s)
        λ now k.
          Safe-bind (λ _. names_same (active_identity v.item_id s) v.identity ≡ true) _ _ _
            (require-Safe (names_same (active_identity v.item_id s) v.identity)
              SchedulerFailure.invalid_field)
            λ _ same.
              Safe-bind (λ d. d ≡ deadline_of p v) _ _ _ (checked_deadline-Safe p v)
                λ d e. committed now d k same e

  -- Under a valid policy and from a consistent state, `admit` at a reading that the clock check
  -- takes, of a version whose id names no other item and whose deadline a datetime holds, returns;
  -- the new state is consistent, and an admitted version is queued with its deadline and fits it.
  pub admit-Returns :
      (now : Instant)
      → IsReading p reading s now
      → names_same (active_identity v.item_id s) v.identity ≡ true
      → deadline_of p v ≤ max_instant
      → Returns (Settles p (offer_at p v now)) (admit p reading v s)
  unfolding admit begin active_identity
  admit-Returns now k same near =
      let w = begin_lem p now s c in
      let s' : State = record s { last_now = some now } in
      let d : checked_deadline p v ≡ ok (deadline_of p v) = checked_deadline_near p v near in
      rw (read_clock_taken p reading s now k, same, d)
        (Returns-then (Settles p (offer_at p v now)) (begin p now s) _ (_, w.state) w.returns
          (swept_keeps p (offer_at p v now) s' (clocked-IsConsistent p now s c) w
            (room_for_one p valid) refl refl same _ (active_identity v.item_id s)))

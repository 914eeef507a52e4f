-- ===== src/Scheduler/Calls/Total.antt =====
-- The calls on the running item, of radar_v08/workflow/scheduler.py.
use crypto_radar.Base.{
  ◌+◌, ◌*◌, ◌≤◌, ◌<◌, ◌≡◌, ◌≢◌, ◌⊎◌, refl, sym, ap, ◌∙◌, String, Bool, true, false, Option, none,
  some, List, arith, inl, inr, Option-cases, Bool-cases, if◌then◌else◌,
}
use crypto_radar.Base.Equality.{◌==◌, string_eq}
use crypto_radar.Invocation.Text.{valid_text}
use crypto_radar.Scheduler.Time.{Instant, second}
use crypto_radar.Scheduler.Types.{
  Role, TokenBound, CallRefusal, ItemState, ok, err, Transition, SchedulerFailure, Safe, Safe-bind,
  Safe-returns, Safe-of_eq,
}
use crypto_radar.Scheduler.Policy.{SchedulerPolicy}
use crypto_radar.Scheduler.State.{
  Running, State, id_of, begin, read_clock, sweep_running, sweep_state,
}
use crypto_radar.Scheduler.Invariant.{IsPlanned, IsCapped, IsApart, IsConsistent}
use crypto_radar.Scheduler.Invariant.Begin.{Sweeps, begin_lem, sweep_state_lem}
use crypto_radar.Scheduler.Admission.Total.{IsReading, read_clock-Safe, require-Safe}
use crypto_radar.Scheduler.Calls.{
  CallDecision, CallUsage, CompletionResult, call_refusal, reserve, decide, authorize_call,
  require_running, complete, fail, decision, usage, no_usage, finish, late, was_aborted, completion,
}
use mathlib.Core.Path.{subst}
use mathlib.Core.Option.{some-injective}
use text.Mathlib.TextEquality.{eq_iff}

-- The running item after a change of its counters or its flag.
pub rerun-IsConsistent :
    (p : SchedulerPolicy) (s : State) (clock : Option Instant) (r r' : Running)
    → IsConsistent p s
    → s.running ≡ some r
    → r'.entry ≡ r.entry
    → IsCapped p r'
    → IsConsistent p (record s { last_now = clock; running = some r' })
rerun-IsConsistent p s clock r r' c run same capped = record {
  indexed = record {
    keyed = c.indexed.keyed;
    unique = c.indexed.unique;
    identities = c.indexed.identities;
    groups = c.indexed.groups;
  };
  bounded = c.bounded;
  planned = c.planned;
  running_planned = λ x e.
      subst (λ y. IsPlanned p y) (sym same ∙ ap (λ (y : Running). y.entry) (some-injective _ _ e))
        (c.running_planned r run);
  running_capped = λ x e. subst (IsCapped p) (some-injective _ _ e) capped;
  running_apart = λ x e.
      subst (λ y. IsApart y (record s { last_now = clock; running = some r' }))
        (some-injective _ _ e)
        (record {
          no_id = rw same (c.running_apart r run).no_id;
          no_identity = rw same (c.running_apart r run).no_identity;
        });
}

ended-IsConsistent :
    (p : SchedulerPolicy) (s : State)
    → IsConsistent p s
    → IsConsistent p (record s { running = none })
ended-IsConsistent p s c = record {
  indexed = record {
    keyed = c.indexed.keyed;
    unique = c.indexed.unique;
    identities = c.indexed.identities;
    groups = c.indexed.groups;
  };
  bounded = c.bounded;
  planned = c.planned;
  running_planned = λ x e. cc;
  running_capped = λ x e. cc;
  running_apart = λ x e. cc;
}

-- A call that no rule refuses stays under every limit and ends before the deadline.
pub record IsAllowed (p : SchedulerPolicy) (now : Instant) (r : Running) (role : Role)
    (prompt : TokenBound) : Type 0 where
  pub live : r.aborted ≡ false
  pub role_enabled : (p.role_profiles role).enabled ≡ true
  pub input : prompt.upper_bound ≤ (p.role_profiles role).max_input_tokens
  pub in_time :
      now
        + (p.role_profiles role).hard_timeout_seconds * second
        + p.finalization_reserve_seconds * second
      ≤ r.entry.deadline

module _ (p : SchedulerPolicy) (now : Instant) (r : Running) (role : Role) (repair : Bool)
    (prompt : TokenBound) where
  call_refusal_none : call_refusal p now r role repair prompt ≡ none → IsAllowed p now r role prompt
  unfolding call_refusal
  call_refusal_none h = record {
    live = ground arith;
    role_enabled = ground arith;
    input = ground arith;
    in_time = ground arith;
  }

  reserve-IsCapped :
      call_refusal p now r role repair prompt ≡ none
      → IsCapped p r
      → IsCapped p (reserve p r role repair prompt)
  unfolding call_refusal
  reserve-IsCapped h c = record {
    invocations = ground arith;
    repairs = ground arith;
    prompt_tokens = ground arith;
    output_tokens = ground arith;
  }

-- What the counters of the running item are after an allowed call: the call, its repair, its whole
-- prompt bound and the output cap of its role are in them, and the item is as it was.
pub record Reserves (p : SchedulerPolicy) (role : Role) (repair : Bool) (prompt : TokenBound)
    (r after : Running) (used : CallUsage) : Type 0 where
  pub entry : after.entry ≡ r.entry
  pub aborted : after.aborted ≡ r.aborted
  pub invocations : after.invocations ≡ r.invocations + 1
  pub repairs : after.repairs ≡ r.repairs + (if repair then 1 else 0)
  pub prompt_tokens : after.prompt_tokens ≡ r.prompt_tokens + prompt.upper_bound
  pub output_tokens :
      after.output_tokens ≡ r.output_tokens + (p.role_profiles role).output_cap_tokens
  pub told_invocations : used.invocations ≡ after.invocations
  pub told_repairs : used.repairs ≡ after.repairs
  pub told_prompt : used.prompt_tokens ≡ after.prompt_tokens
  pub told_output : used.output_tokens ≡ after.output_tokens

-- What `authorize_call` did: `u` is the state after the sweep.
pub record Decides (p : SchedulerPolicy) (now : Instant) (u : State) (id : String) (role : Role)
    (repair : Bool) (prompt : TokenBound) (a : CallDecision × State) : Type 0 where
  pub consistent : IsConsistent p a.1
  pub refused : a.0.refusal ≢ none → a.1 ≡ u
  pub allowed :
      a.0.refusal ≡ none
      → (r : Running) × (u.running ≡ some r)
        × (id_of r.entry ≡ id)
        × IsAllowed p now r role prompt
        × ((after : Running) × (a.1 ≡ record u { running = some after })
            × Reserves p role repair prompt r after a.0.usage)
        × (a.0.call_deadline ≡ some (now + (p.role_profiles role).hard_timeout_seconds * second))

reserve-Reserves :
    (p : SchedulerPolicy) (role : Role) (repair : Bool) (prompt : TokenBound) (r : Running)
    → Reserves p role repair prompt r
        (reserve p r role repair prompt)
        (usage (reserve p r role repair prompt))
reserve-Reserves p role repair prompt r = record {
  entry = refl;
  aborted = refl;
  invocations = refl;
  repairs = refl;
  prompt_tokens = refl;
  output_tokens = refl;
  told_invocations = refl;
  told_repairs = refl;
  told_prompt = refl;
  told_output = refl;
}

module _ (p : SchedulerPolicy) (now : Instant) (u : State) (c : IsConsistent p u) (id : String)
    (role : Role) (repair : Bool) (prompt : TokenBound) (out : List Transition) where
  abbrev Good : CallDecision × State → Type 0
  Good a = Decides p now u id role repair prompt a

  abbrev decided : CallDecision × State
  decided = decide p now id role repair prompt out u

  kept : (d : CallDecision) → d.refusal ≢ none → Good (d, u)
  kept d n = record { consistent = c; refused = λ _. refl; allowed = λ e. absurd (n e) }

  decide-Decides : Good decided
  unfolding decide
  decide-Decides = elim (Option-cases u.running) [
    | inl idle ↦
        let e : decided ≡ (decision id (some CallRefusal.not_running) none no_usage out, u) =
          ground arith in
        subst Good (sym e) (kept _ (cc))
    | inr (r, run) ↦ elim (Bool-cases (id_of r.entry == id)) [
      | inr other ↦
          let e : decided ≡ (decision id (some CallRefusal.not_running) none no_usage out, u) =
            ground arith in
          subst Good (sym e) (kept _ (cc))
      | inl mine ↦ elim (Option-cases (call_refusal p now r role repair prompt)) [
        | inr (reason, no_call) ↦
            let e : decided ≡ (decision id (some reason) none (usage r) out, u) = ground arith in
            subst Good (sym e) (kept _ (cc))
        | inl call ↦
            let r' = reserve p r role repair prompt in
            let until = now + (p.role_profiles role).hard_timeout_seconds * second in
            let t : State = record u { running = some r' } in
            let e : decided ≡ (decision id none (some until) (usage r') out, t) = ground arith in
            subst Good (sym e) (record {
              consistent =
                  rerun-IsConsistent p u u.last_now r r' c run refl
                    (reserve-IsCapped p now r role repair prompt call (c.running_capped r run));
              refused = λ n. absurd (n refl);
              allowed = λ _. (
                r,
                run,
                ground (arith, eq_iff (id_of r.entry) id),
                call_refusal_none p now r role repair prompt call,
                (r', refl, reserve-Reserves p role repair prompt r),
                refl,
              );
            })
      ]
    ]
  ]

abbrev pub DecidesAt :
    SchedulerPolicy
    → Option Instant
    → String
    → Role
    → Bool
    → TokenBound
    → State
    → CallDecision × State
    → Type 0
DecidesAt p reading id role repair prompt s a =
    (now : Instant) × IsReading p reading s now
    × ((w : Sweeps p now (record s { last_now = some now })) × Decides p now w.state id role repair
          prompt a)

pub authorize_total :
    (p : SchedulerPolicy) (reading : Option Instant) (id : String) (role : Role) (repair : Bool)
    (prompt : TokenBound) (s : State)
    → IsConsistent p s
    → Safe
        (DecidesAt p reading id role repair prompt s)
        (authorize_call p reading id role repair prompt s)
unfolding authorize_call begin
authorize_total p reading id role repair prompt s c =
    let P = DecidesAt p reading id role repair prompt s in
    Safe-bind (λ _. valid_text id ≡ true) P _ _
      (require-Safe (valid_text id) SchedulerFailure.invalid_field)
      λ _ named.
        Safe-bind (IsReading p reading s) P (read_clock p reading s) _ (read_clock-Safe p reading s)
          λ now k.
            let w = begin_lem p now s c in
            Safe-returns P (begin p now s) _ (_, w.state) w.returns
              (now, k, (w, decide-Decides p now w.state w.consistent id role repair prompt _))

-- How a result ended: `r` is the running item before it.
pub record Finishes (p : SchedulerPolicy) (now : Instant) (r : Running)
    (a : CompletionResult × State) : Type 0 where
  pub consistent : IsConsistent p a.1
  pub freed : a.1.running ≡ none
  pub published :
      a.0.publishable ≡ true
      → (a.0.state ≡ ItemState.completed) × (now < r.entry.deadline) × (r.aborted ≡ false)
  pub stale :
      (a.0.publishable ≡ false)
      → (a.0.state ≡ ItemState.abort_stale) ⊎ (a.0.state ≡ ItemState.failed)

-- How a failure ended: `r` is the running item before it. Nothing of it is published, and it has failed
-- in time or was stale.
pub record Fails (p : SchedulerPolicy) (now : Instant) (r : Running) (a : CompletionResult × State)
    : Type 0 where
  pub consistent : IsConsistent p a.1
  pub freed : a.1.running ≡ none
  pub withheld : a.0.publishable ≡ false
  pub failed : r.aborted ≡ false → now < r.entry.deadline → a.0.state ≡ ItemState.failed
  pub stale : (r.aborted ≡ true) ⊎ (r.entry.deadline ≤ now) → a.0.state ≡ ItemState.abort_stale

abbrev pub FailsAt :
    SchedulerPolicy → Option Instant → String → State → CompletionResult × State → Type 0
FailsAt p reading id s a =
    (now : Instant) × IsReading p reading s now
    × ((r : Running) × (s.running ≡ some r) × (id_of r.entry ≡ id) × Fails p now r a)

abbrev pub FinishesAt :
    SchedulerPolicy → Option Instant → String → State → CompletionResult × State → Type 0
FinishesAt p reading id s a =
    (now : Instant) × IsReading p reading s now
    × ((r : Running) × (s.running ≡ some r) × (id_of r.entry ≡ id) × Finishes p now r a)

abbrev Owns : String → State → Running → Type 0
Owns id s r = (s.running ≡ some r) × (id_of r.entry ≡ id)

require_running-Safe : (id : String) (s : State) → Safe (Owns id s) (require_running id s)
unfolding require_running
require_running-Safe id s = elim (Option-cases s.running) [
  | inl idle ↦
      Safe-of_eq (Owns id s) {m = require_running id s} {n = err SchedulerFailure.unknown_item}
        (ground arith) tt
  | inr (r, run) ↦ elim (Bool-cases (id_of r.entry == id)) [
    | inr other ↦
        Safe-of_eq (Owns id s) {m = require_running id s} {n = err SchedulerFailure.unknown_item}
          (ground arith) tt
    | inl mine ↦
        Safe-of_eq (Owns id s) {m = require_running id s} {n = ok r} (ground arith)
          (run, ground (arith, eq_iff (id_of r.entry) id))
  ]
]

-- The end of both calls, where an item that is not aborted has met no deadline.
module _ (p : SchedulerPolicy) (now : Instant) (r : Running) (t : State) (c : IsConsistent p t)
    (live : was_aborted t.running ≡ false → (r.aborted ≡ false) × (now < r.entry.deadline))
    (id : String) (out : List Transition) where
  abbrev freed_state : State
  freed_state = record t { running = none }

  stale_end : Finishes p now r (completion id ItemState.abort_stale false out, freed_state)
  stale_end = record {
    consistent = ended-IsConsistent p t c;
    freed = refl;
    published = λ e. cc;
    stale = λ e. inl refl;
  }

  finish_completed : Finishes p now r (finish id ItemState.completed true now out t)
  finish_completed = elim (Bool-cases (was_aborted t.running)) [
    | inl aborted ↦ simp aborted stale_end
    | inr on_time ↦ simp on_time (record {
      consistent = ended-IsConsistent p t c;
      freed = refl;
      published = λ e. (refl, (live on_time).1, (live on_time).0);
      stale = λ e. cc;
    })
  ]

  failed_end :
      (was_aborted t.running ≡ true → (r.aborted ≡ true) ⊎ (r.entry.deadline ≤ now))
      → Fails p now r (finish id ItemState.failed false now out t)
  failed_end late_or = elim (Bool-cases (was_aborted t.running)) [
    | inl aborted ↦ simp aborted (record {
      consistent = ended-IsConsistent p t c;
      freed = refl;
      withheld = refl;
      failed = λ live in_time. ground (arith, late_or aborted, live, in_time);
      stale = λ why. refl;
    })
    | inr on_time ↦ simp on_time (record {
      consistent = ended-IsConsistent p t c;
      freed = refl;
      withheld = refl;
      failed = λ live in_time. refl;
      stale = λ why. ground (arith, live on_time, why);
    })
  ]

module _ (p : SchedulerPolicy) (now : Instant) (s : State) (c : IsConsistent p s) (id : String)
    (r : Running) (run : s.running ≡ some r) where
  -- The running item after a late result has been marked.
  abbrev marked : Running
  marked = (late id now r).0

  marked_lem :
      (marked.entry ≡ r.entry)
      × (IsCapped p r → IsCapped p marked)
      × (marked.aborted ≡ false → (r.aborted ≡ false) × (now < r.entry.deadline))
  marked_lem = ground arith

  marked-IsConsistent : IsConsistent p (record s { last_now = some now; running = some marked })
  marked-IsConsistent =
      rerun-IsConsistent p s (some now) r marked c run marked_lem.0
        (marked_lem.1 (c.running_capped r run))

  -- An item that is live after a sweep was live before it, and in time.
  live_after :
      (x : Running) (o : Option Running)
      → o ≡ (sweep_running p now (some x)).0
      → was_aborted o ≡ false
      → (x.aborted ≡ false) × (now < x.entry.deadline)
  unfolding sweep_running
  live_after x o e h = ground arith

  -- One that is aborted after a sweep was so before it, or late.
  aborted_after :
      (x : Running) (o : Option Running)
      → o ≡ (sweep_running p now (some x)).0
      → was_aborted o ≡ true
      → (x.aborted ≡ true) ⊎ (x.entry.deadline ≤ now)
  unfolding sweep_running
  aborted_after x o e h = elim (Bool-cases x.aborted) [
    | inl yes_ ↦ inl yes_
    | inr live ↦ inr (ground arith)
  ]

-- From a consistent state, `complete` meets no missing key, and where it returns the item was the
-- running one, nothing runs any more and the state is consistent; the result may be published only
-- as completed, before the deadline and not aborted, and else it is stale or failed.
pub complete_total :
    (p : SchedulerPolicy) (reading : Option Instant) (id : String) (s : State)
    → IsConsistent p s
    → Safe (FinishesAt p reading id s) (complete p reading id s)
unfolding complete
complete_total p reading id s c =
    let P = FinishesAt p reading id s in
    Safe-bind (λ _. valid_text id ≡ true) P _ _
      (require-Safe (valid_text id) SchedulerFailure.invalid_field)
      λ _ named.
        Safe-bind (IsReading p reading s) P (read_clock p reading s) _ (read_clock-Safe p reading s)
          λ now k.
            Safe-bind (Owns id s) P (require_running id s) _ (require_running-Safe id s) λ r owns.
              let m = marked p now s c id r owns.0 in
              let s' : State = record s { last_now = some now; running = some m } in
              let w = sweep_state_lem p now s' (marked-IsConsistent p now s c id r owns.0) in
              Safe-returns P (sweep_state p now s') _ (_, w.state) w.returns
                (
                  now,
                  k,
                  (
                    r,
                    owns.0,
                    owns.1,
                    finish_completed p now r w.state w.consistent
                        (λ a.
                          (marked_lem p now s c id r owns.0).2
                            (live_after p now s c id r owns.0 m w.state.running w.swept.same_running
                              a).0)
                        id _,
                  ),
                )

-- From a consistent state, `fail` meets no missing key, and where it returns the item was the
-- running one, nothing runs any more, the state is consistent and nothing may be published: the
-- item has failed if it was neither aborted nor past its deadline, and is stale otherwise.
pub fail_total :
    (p : SchedulerPolicy) (reading : Option Instant) (id : String) (s : State)
    → IsConsistent p s
    → Safe (FailsAt p reading id s) (fail p reading id s)
unfolding fail begin
fail_total p reading id s c =
    let P = FailsAt p reading id s in
    Safe-bind (λ _. valid_text id ≡ true) P _ _
      (require-Safe (valid_text id) SchedulerFailure.invalid_field)
      λ _ named.
        Safe-bind (IsReading p reading s) P (read_clock p reading s) _ (read_clock-Safe p reading s)
          λ now k.
            Safe-bind (Owns id s) P (require_running id s) _ (require_running-Safe id s) λ r owns.
              let w = begin_lem p now s c in
              Safe-returns P (begin p now s) _ (_, w.state) w.returns
                (
                  now,
                  k,
                  (
                    r,
                    owns.0,
                    owns.1,
                    failed_end p now r w.state w.consistent
                        (λ a.
                          live_after p now s c id r owns.0 r w.state.running
                            (w.swept.same_running ∙ ap (λ o. (sweep_running p now o).0) owns.0) a)
                        id _
                        (λ a.
                          aborted_after p now s c id r owns.0 r w.state.running
                            (w.swept.same_running ∙ ap (λ o. (sweep_running p now o).0) owns.0) a),
                  ),
                )

-- ===== src/Scheduler/Dispatch/Total.antt =====
-- The whole of `dispatch` of radar_v08/workflow/scheduler.py.
use crypto_radar.Base.{
  ℕ, ◌+◌, ◌≡◌, ◌≢◌, refl, sym, String, Bool, Option, none, some, List, [], ◌∷◌, arith, inl, inr,
  Option-cases, All-elem, Elem,
}
use crypto_radar.Base.Equality.{string_eq}
use crypto_radar.Base.Dict.{values, lookup, lookup-erase}
use crypto_radar.Base.Dict.Index.{key_at}
use crypto_radar.Invocation.Identity.{identity_equality, identity_eq_iff}
use crypto_radar.Scheduler.Time.{Instant}
use crypto_radar.Scheduler.Types.{
  IdleReason, ok, Transition, Safe, Safe-bind, Safe-returns, Returns, Returns-of_eq, Returns-then,
  Returns-map, Returns-Safe,
}
use crypto_radar.Scheduler.Policy.{SchedulerPolicy}
use crypto_radar.Scheduler.State.{QueuedEntry, State, id_of, identity_of, begin, read_clock, remove}
use crypto_radar.Scheduler.Queue.{IsIndexed, without, remove_lem, values_found, without-IsIndexed}
use crypto_radar.Scheduler.Invariant.{IsPlanned, IsCapped, IsApart, IsConsistent}
use crypto_radar.Scheduler.Invariant.Begin.{Sweeps, begin_lem}
use crypto_radar.Scheduler.Invariant.Changes.{without-IsConsistent}
use crypto_radar.Scheduler.Admission.Total.{IsReading, read_clock-Safe, read_clock_taken}
use crypto_radar.Scheduler.Dispatch.{
  Dispatched, DispatchResult, start, choose, run_chosen, dispatch_swept, dispatch,
}
use crypto_radar.Scheduler.Dispatch.Choice.{IsChoice, choose-IsChoice}
use mathlib.Core.Path.{subst}
use mathlib.Core.Option.{some-injective}
use text.Mathlib.TextEquality.{eq_iff}

-- What a dispatch did: `u` is the state after the sweep, `t` the state that it leaves.
pub record Sent (p : SchedulerPolicy) (now : Instant) (u t : State) (d : Dispatched) : Type 0 where
  pub entry : QueuedEntry
  pub choice : IsChoice p now (u.slots_used + 1) (values u.queue) entry d.fair_slot
  pub was_idle : u.running ≡ none
  pub started : t.running ≡ some (start entry now)
  pub item : d.item_id ≡ id_of entry
  pub slot : t.slots_used ≡ u.slots_used + 1
  pub left_queue : lookup (id_of entry) t.queue ≡ none

pub record Dispatches (p : SchedulerPolicy) (now : Instant) (u : State) (a : DispatchResult × State)
    : Type 0 where
  pub consistent : IsConsistent p a.1
  pub sent : (d : Dispatched) → a.0.dispatched ≡ some d → Sent p now u a.1 d
  -- nothing is sent exactly while an item runs or the queue is empty
  pub idle : a.0.dispatched ≡ none → (u.running ≡ none) → values u.queue ≡ []

start-IsCapped : (p : SchedulerPolicy) (e : QueuedEntry) (now : Instant) → IsCapped p (start e now)
start-IsCapped p e now = omega arith

module _ (p : SchedulerPolicy) (now : Instant) (c : QueuedEntry) (s : State) (slot : ℕ)
    (h : IsConsistent p s) (found : lookup (id_of c) s.queue ≡ some c) where
  abbrev started_state : State
  started_state = record (without (id_of c) c s) { slots_used = slot; running = some (start c now) }

  unindexed :
      (id : String) → key_at identity_of id (without (id_of c) c s).queue ≢ some (identity_of c)
  unindexed id k =
      let back =
        ((without-IsIndexed (id_of c) c s h.indexed found).identities id (identity_of c)).1 k in
      ground (
        arith,
        back,
        lookup-erase (identity_of c) (identity_of c) s.by_identity,
        identity_eq_iff (identity_of c) (identity_of c),
      )

  started-IsConsistent : IsConsistent p started_state
  started-IsConsistent =
      let w = without-IsConsistent p (id_of c) c s h found in
      record {
        indexed = record {
          keyed = w.indexed.keyed;
          unique = w.indexed.unique;
          identities = w.indexed.identities;
          groups = w.indexed.groups;
        };
        bounded = w.bounded;
        planned = w.planned;
        running_planned = λ r run.
            subst (λ x. IsPlanned p x.entry) (some-injective _ _ run) (h.planned (id_of c) c found);
        running_capped =
            λ r run. subst (IsCapped p) (some-injective _ _ run) (start-IsCapped p c now);
        running_apart = λ r run.
            subst (λ x. IsApart x started_state) (some-injective _ _ run)
              (record {
                no_id =
                    ground
                      (arith, lookup-erase (id_of c) (id_of c) s.queue, eq_iff (id_of c) (id_of c));
                no_identity = unindexed;
              });
      }

module _ (p : SchedulerPolicy) (now : Instant) (u : State) (h : IsConsistent p u)
    (out : List Transition) where
  same-IsIndexed : (slot : ℕ) → IsIndexed (record u { slots_used = slot })
  same-IsIndexed slot = record {
    keyed = h.indexed.keyed;
    unique = h.indexed.unique;
    identities = h.indexed.identities;
    groups = h.indexed.groups;
  }

  run_keeps :
      (e : QueuedEntry) (es : List QueuedEntry) (c : QueuedEntry) (fair : Bool)
      → values u.queue ≡ e ∷ es
      → u.running ≡ none
      → IsChoice p now (u.slots_used + 1) (e ∷ es) c fair
      → Returns (Dispatches p now u) (run_chosen now (u.slots_used + 1) c fair out u)
  unfolding run_chosen
  run_keeps e es c fair queue idle choice =
      let found : lookup (id_of c) u.queue ≡ some c =
        All-elem (λ f. lookup (id_of f) u.queue ≡ some f) c
          (subst (Elem c) (sym queue) choice.queued) (values_found u h.indexed) in
      let slot = u.slots_used + 1 in
      Returns-then (Dispatches p now u) (remove (id_of c) (record u { slots_used = slot })) _ _
        (remove_lem (id_of c) c (record u { slots_used = slot }) (same-IsIndexed slot) found)
        (record {
          consistent = started-IsConsistent p now c u slot h found;
          sent = λ d e.
              subst (Sent p now u (started_state p now c u slot h found)) (some-injective _ _ e)
                (record {
                  entry = c;
                  choice = subst (λ l. IsChoice p now slot l c fair) (sym queue) choice;
                  was_idle = idle;
                  started = refl;
                  item = refl;
                  slot = refl;
                  left_queue =
                      ground (
                        arith,
                        lookup-erase (id_of c) (id_of c) u.queue,
                        eq_iff (id_of c) (id_of c),
                      );
                });
          idle = λ e. cc;
        })

  swept_keeps : Returns (Dispatches p now u) (dispatch_swept p now out u)
  unfolding dispatch_swept
  swept_keeps = elim (Option-cases u.running) [
    | inr (r, run) ↦
        Returns-of_eq (Dispatches p now u)
          {n = ok (record { dispatched = none; idle = some IdleReason.busy; transitions = out }, u)}
          (ground arith) (record { consistent = h; sent = λ d e. cc; idle = λ e. cc })
    | inl idle ↦ queue_keeps (values u.queue) refl idle
  ]
    where
      queue_keeps :
          (l : List QueuedEntry)
          → values u.queue ≡ l
          → u.running ≡ none
          → Returns (Dispatches p now u) (dispatch_swept p now out u)
      queue_keeps [] e idle =
          Returns-of_eq (Dispatches p now u)
            {n = ok
              (record { dispatched = none; idle = some IdleReason.empty; transitions = out }, u)}
            (ground arith) (record { consistent = h; sent = λ d k. cc; idle = λ k i. e })
      queue_keeps (f ∷ fs) e idle =
          let slot = u.slots_used + 1 in
          Returns-of_eq (Dispatches p now u)
            {n = run_chosen now slot (choose p now slot f fs).0 (choose p now slot f fs).1 out u}
            (ground arith)
            (run_keeps f fs (choose p now slot f fs).0 (choose p now slot f fs).1 e idle
              (choose-IsChoice p now slot f fs))

-- A dispatch at the reading that it took; `u` is the state after its sweep.
abbrev pub DispatchesAt : SchedulerPolicy → Option Instant → State → DispatchResult × State → Type 0
DispatchesAt p reading s a =
    (now : Instant) × IsReading p reading s now
    × ((w : Sweeps p now (record s { last_now = some now })) × Dispatches p now w.state a)

pub dispatch_total :
    (p : SchedulerPolicy) (reading : Option Instant) (s : State)
    → IsConsistent p s
    → Safe (DispatchesAt p reading s) (dispatch p reading s)
unfolding dispatch begin
dispatch_total p reading s c =
    Safe-bind (IsReading p reading s) _ (read_clock p reading s) _ (read_clock-Safe p reading s)
      λ now k.
        let w = begin_lem p now s c in
        Safe-returns (DispatchesAt p reading s) (begin p now s) _ (_, w.state) w.returns
          (Returns-Safe (Dispatches p now w.state) (DispatchesAt p reading s)
            (λ a d. (now, k, (w, d))) _ (swept_keeps p now w.state w.consistent _))

-- From a consistent state, a dispatch at a reading that the clock check takes returns. It sends an
-- entry only while nothing runs, the one that the rule for its slot chooses, which leaves the queue
-- and runs; and where nothing is sent and nothing runs, the queue is empty.
pub dispatch-Returns :
    (p : SchedulerPolicy) (reading : Option Instant) (s : State) (now : Instant)
    → IsConsistent p s
    → IsReading p reading s now
    → Returns (DispatchesAt p reading s) (dispatch p reading s)
unfolding dispatch begin
dispatch-Returns p reading s now c k =
    let w = begin_lem p now s c in
    rw (read_clock_taken p reading s now k) (
      Returns-then (DispatchesAt p reading s) (begin p now s) _ (_, w.state) w.returns
        (Returns-map (Dispatches p now w.state) (DispatchesAt p reading s) (λ a d. (now, k, (w, d)))
          _ (swept_keeps p now w.state w.consistent _)))

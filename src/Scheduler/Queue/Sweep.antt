-- ===== src/Scheduler/Queue/Sweep.antt =====
-- The loop of `_sweep` of radar_v08/workflow/scheduler.py.
use crypto_radar.Base.{
  ◌≤◌, String, ◌≡◌, ◌≢◌, refl, sym, ap, ◌∙◌, none, some, List, [], ◌∷◌, ◌++◌, arith, inl, inr,
  Option-cases, length, All,
}
use mathlib.Core.List.{append-nil, append_assoc}
use crypto_radar.Base.Equality.{string_eq}
use crypto_radar.Base.Dict.{values, lookup, lookup-erase}
use crypto_radar.Base.Dict.Unique.{length-erase}
use crypto_radar.Base.Order.{sort_by}
use crypto_radar.Base.Order.Sorting.{Pairs, sort_by-All, sort_by-Pairs}
use crypto_radar.Scheduler.Time.{Instant}
use crypto_radar.Scheduler.Types.{ok, Transition}
use crypto_radar.Scheduler.Policy.{SchedulerPolicy}
use crypto_radar.Scheduler.State.{QueuedEntry, State, id_of, rank_key, sweep_verdict, sweep_entries}
use crypto_radar.Scheduler.Queue.{
  IsIndexed, without, remove_lem, without-IsIndexed, values_found, DifferentIds,
  values-DifferentIds,
}
use text.Mathlib.TextEquality.{eq_iff}

-- The verdicts of a list of entries, in its order.
pub verdicts : SchedulerPolicy → Instant → List QueuedEntry → List Transition
verdicts p now [] = []
verdicts p now (e ∷ es) = elim (sweep_verdict p now e) [
  | none ↦ verdicts p now es
  | some t ↦ t ∷ verdicts p now es
]

-- How the state after the loop stands to the one before it.
pub record Swept (p : SchedulerPolicy) (now : Instant) (es : List QueuedEntry) (s t : State)
    : Type 0 where
  pub indexed : IsIndexed t
  pub subset :
      (id : String) (e : QueuedEntry) → lookup id t.queue ≡ some e → lookup id s.queue ≡ some e
  pub kept :
      (id : String) (e : QueuedEntry)
      → lookup id s.queue ≡ some e
      → sweep_verdict p now e ≡ none
      → lookup id t.queue ≡ some e
  pub settled :
      All (λ e. (id : String) → lookup id t.queue ≡ some e → sweep_verdict p now e ≡ none) es
  pub size : length t.queue ≤ length s.queue
  pub same_running : t.running ≡ s.running
  pub same_clock : t.last_now ≡ s.last_now
  pub same_slots : t.slots_used ≡ s.slots_used

-- The loop returns, with these records.
pub record SweepsTo (p : SchedulerPolicy) (now : Instant) (es : List QueuedEntry) (s : State)
    (out : List Transition) : Type 0 where
  pub state : State
  pub returns : sweep_entries p now es s out ≡ ok (out ++ verdicts p now es, state)
  pub swept : Swept p now es s state

module _ (p : SchedulerPolicy) (now : Instant) where
  sweep_none : (s : State) (out : List Transition) → IsIndexed s → SweepsTo p now [] s out
  unfolding sweep_entries verdicts
  sweep_none s out h = record {
    state = s;
    returns = rw append-nil;
    swept = record {
      indexed = h;
      subset = λ id e found. found;
      kept = λ id e found v. found;
      settled = tt;
      size = omega arith;
      same_running = refl;
      same_clock = refl;
      same_slots = refl;
    };
  }

  -- An entry that stays.
  sweep_keeping :
      (e : QueuedEntry) (es : List QueuedEntry) (s : State) (out : List Transition)
      → sweep_verdict p now e ≡ none
      → SweepsTo p now es s out
      → SweepsTo p now (e ∷ es) s out
  unfolding sweep_entries verdicts
  sweep_keeping e es s out v r = record {
    state = r.state;
    returns = rw (v, sweep_entries, verdicts) r.returns;
    swept = record {
      indexed = r.swept.indexed;
      subset = r.swept.subset;
      kept = r.swept.kept;
      settled = (λ id found. v, r.swept.settled);
      size = r.swept.size;
      same_running = r.swept.same_running;
      same_clock = r.swept.same_clock;
      same_slots = r.swept.same_slots;
    };
  }

  -- An entry that goes, with its record.
  sweep_removing :
      (e : QueuedEntry) (es : List QueuedEntry) (s : State) (out : List Transition) (t : Transition)
      → IsIndexed s
      → lookup (id_of e) s.queue ≡ some e
      → sweep_verdict p now e ≡ some t
      → SweepsTo p now es (without (id_of e) e s) (out ++ t ∷ [])
      → SweepsTo p now (e ∷ es) s out
  unfolding sweep_entries verdicts
  sweep_removing e es s out t h found v r =
      let gone : (id : String) (f : QueuedEntry)
          → lookup id r.state.queue ≡ some f
          → (lookup id s.queue ≡ some f) × (id_of e ≢ id) =
        λ id f k. (
          ground (arith, lookup-erase (id_of e) id s.queue, r.swept.subset id f k),
          λ same. ground (
            arith,
            lookup-erase (id_of e) id s.queue,
            r.swept.subset id f k,
            eq_iff (id_of e) id,
          ),
        ) in
      record {
        state = r.state;
        returns =
            rw (v, sweep_entries, verdicts)
              (rw (remove_lem (id_of e) e s h found) (
                r.returns
                ∙ ap (λ ts. ok (ts, r.state)) (append_assoc out (t ∷ []) (verdicts p now es))));
        swept = record {
          indexed = r.swept.indexed;
          subset = λ id f k. (gone id f k).0;
          kept = λ id f k stays.
              r.swept.kept id f
                (ground (
                  arith,
                  lookup-erase (id_of e) id s.queue,
                  eq_iff (id_of e) id,
                  found,
                  k,
                  v,
                  stays,
                ))
                stays;
          settled =
              (λ id k. absurd ((gone id e k).1 (h.keyed id e (gone id e k).0)), r.swept.settled);
          size = omega (arith, r.swept.size, length-erase (id_of e) e s.queue h.unique found);
          same_running = r.swept.same_running;
          same_clock = r.swept.same_clock;
          same_slots = r.swept.same_slots;
        };
      }

  abbrev Found : State → QueuedEntry → Type 0
  Found s e = lookup (id_of e) s.queue ≡ some e

  -- After one entry has gone, the others still stand under their ids.
  Found-without :
      (e : QueuedEntry) (s : State) (es : List QueuedEntry)
      → All (DifferentIds e) es
      → All (Found s) es
      → All (Found (without (id_of e) e s)) es
  Found-without e s [] d h = tt
  Found-without e s (f ∷ es) d h = (
    ground (arith, lookup-erase (id_of e) (id_of f) s.queue, eq_iff (id_of e) (id_of f), h.0, d.0),
    Found-without e s es d.1 h.1,
  )

  sweep_total :
      (es : List QueuedEntry) (s : State) (out : List Transition)
      → IsIndexed s
      → All (Found s) es
      → Pairs DifferentIds es
      → SweepsTo p now es s out
  sweep_total [] s out h f d = sweep_none s out h
  sweep_total (e ∷ es) s out h f d = elim (Option-cases (sweep_verdict p now e)) [
    | inl stays ↦ sweep_keeping e es s out stays (sweep_total es s out h f.1 d.1)
    | inr (t, goes) ↦ sweep_removing e es s out t h f.0 goes (
        sweep_total es (without (id_of e) e s) (out ++ t ∷ [])
          (without-IsIndexed (id_of e) e s h f.0) (Found-without e s es d.0 f.1) d.1)
  ]

  -- The sweep of the whole queue, in ranking order.
  pub sweep_queue :
      (s : State) (out : List Transition)
      → IsIndexed s
      → SweepsTo p now (sort_by rank_key (values s.queue)) s out
  sweep_queue s out h =
      sweep_total (sort_by rank_key (values s.queue)) s out h
        (sort_by-All rank_key (Found s) (values s.queue) (values_found s h))
        (sort_by-Pairs rank_key DifferentIds (λ a b d e. d (sym e)) (values s.queue)
          (values-DifferentIds s h))

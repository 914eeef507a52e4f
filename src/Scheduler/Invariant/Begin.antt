-- ===== src/Scheduler/Invariant/Begin.antt =====
-- `_begin` of radar_v08/workflow/scheduler.py from a consistent state.
use crypto_radar.Base.{
  ◌<◌, String, ◌≡◌, refl, sym, ap, ◌∙◌, false, Option, none, some, ◌++◌, arith, inl, inr,
  Option-cases,
}
use crypto_radar.Base.Equality.{string_eq}
use crypto_radar.Base.Dict.{values, lookup}
use crypto_radar.Base.Dict.Index.{key_at}
use crypto_radar.Base.Order.{sort_by}
use crypto_radar.Invocation.Identity.{identity_equality}
use crypto_radar.Scheduler.Time.{Instant}
use crypto_radar.Scheduler.Types.{ok}
use crypto_radar.Scheduler.Policy.{SchedulerPolicy}
use crypto_radar.Scheduler.State.{
  QueuedEntry, Running, State, id_of, identity_of, rank_key, sweep_running, sweep_state,
}
use crypto_radar.Scheduler.Queue.{IsIndexed}
use crypto_radar.Scheduler.Queue.Sweep.{Swept, sweep_queue, verdicts}
use crypto_radar.Scheduler.Invariant.{IsCapped, IsApart, IsConsistent}

-- How a running item comes out of the sweep: the same item and counters, aborted if it is late.
pub record Carried (p : SchedulerPolicy) (now : Instant) (o : Option Running) (r' : Running)
    : Type 0 where
  pub before : Running
  pub was : o ≡ some before
  pub same_entry : r'.entry ≡ before.entry
  pub capped : IsCapped p before → IsCapped p r'
  pub in_time : r'.aborted ≡ false → now < r'.entry.deadline

pub sweep_running_carries :
    (p : SchedulerPolicy) (now : Instant) (o : Option Running) (r' : Running)
    → (sweep_running p now o).0 ≡ some r'
    → Carried p now o r'
unfolding sweep_running
sweep_running_carries p now none r' h = cc
sweep_running_carries p now (some r) r' h = record {
  before = r;
  was = refl;
  same_entry = ground arith;
  capped = λ c. ground arith;
  in_time = ground arith;
}

same_queue-IsIndexed :
    (s : State) (clock : Option Instant) (running : Option Running)
    → IsIndexed s
    → IsIndexed (record s { last_now = clock; running = running })
same_queue-IsIndexed s clock running h = record {
  keyed = h.keyed;
  unique = h.unique;
  identities = h.identities;
  groups = h.groups;
}

-- The sweep returns, with the abort of a late running item and then the verdict of each expired
-- entry, and the state after it is consistent.
pub record Sweeps (p : SchedulerPolicy) (now : Instant) (s : State) : Type 0 where
  pub state : State
  pub returns :
      sweep_state p now s
      ≡ ok (
        (sweep_running p now s.running).1 ++ verdicts p now (sort_by rank_key (values s.queue)),
        state,
      )
  pub swept :
      Swept p now
        (sort_by rank_key (values s.queue))
        (record s { running = (sweep_running p now s.running).0 })
        state
  pub consistent : IsConsistent p state

module _ (p : SchedulerPolicy) (now : Instant) (s : State) (c : IsConsistent p s) where
  abbrev marked : State
  marked = record s { running = (sweep_running p now s.running).0 }

  swept-IsApart :
      (t : State) (r r' : Running)
      → ((id : String) (e : QueuedEntry) → lookup id t.queue ≡ some e → lookup id s.queue ≡ some e)
      → r'.entry ≡ r.entry
      → IsApart r s
      → IsApart r' t
  swept-IsApart t r r' subset same a = record {
    no_id = elim (Option-cases (lookup (id_of r'.entry) t.queue)) [
      | inl e ↦ e
      | inr (e, found) ↦ absurd (cc (subset (id_of r'.entry) e found, a.no_id, same))
    ];
    no_identity = λ id k. elim (Option-cases (lookup id t.queue)) [
      | inl e ↦ cc (rw (e, key_at) at k)
      | inr (e, found) ↦
          let there : key_at identity_of id s.queue ≡ some (identity_of e) =
            rw (subset id e found, key_at) in
          let same_identity : some (identity_of e) ≡ some (identity_of r'.entry) =
            rw (found, key_at) at k in
          a.no_identity id (there ∙ same_identity ∙ ap (λ x. some (identity_of x)) same)
    ];
  }

  Swept-IsConsistent :
      (t : State) → Swept p now (sort_by rank_key (values s.queue)) marked t → IsConsistent p t
  Swept-IsConsistent t w = record {
    indexed = w.indexed;
    bounded = omega (arith, w.size, c.bounded);
    planned = λ id e found. c.planned id e (w.subset id e found);
    running_planned =
        λ r' run. let k = carried r' run in rw k.same_entry (c.running_planned k.before k.was);
    running_capped = λ r' run. let k = carried r' run in k.capped (c.running_capped k.before k.was);
    running_apart = λ r' run.
        let k = carried r' run in
        swept-IsApart t k.before r' w.subset k.same_entry (c.running_apart k.before k.was);
  }
    where
      carried : (r' : Running) → t.running ≡ some r' → Carried p now s.running r'
      carried r' run = sweep_running_carries p now s.running r' (sym w.same_running ∙ run)

  pub sweep_state_lem : Sweeps p now s
  unfolding sweep_state
  sweep_state_lem =
      let r =
        sweep_queue p now marked (sweep_running p now s.running).1
          (same_queue-IsIndexed s s.last_now (sweep_running p now s.running).0 c.indexed) in
      record {
        state = r.state;
        returns = r.returns;
        swept = r.swept;
        consistent = Swept-IsConsistent r.state r.swept;
      }

-- The clock reading is recorded first.
pub clocked-IsConsistent :
    (p : SchedulerPolicy) (now : Instant) (s : State)
    → IsConsistent p s
    → IsConsistent p (record s { last_now = some now })
clocked-IsConsistent p now s c = record {
  indexed = same_queue-IsIndexed s (some now) s.running c.indexed;
  bounded = c.bounded;
  planned = c.planned;
  running_planned = c.running_planned;
  running_capped = c.running_capped;
  running_apart = λ r run. record {
    no_id = (c.running_apart r run).no_id;
    no_identity = (c.running_apart r run).no_identity;
  };
}

pub begin_lem :
    (p : SchedulerPolicy) (now : Instant) (s : State)
    → IsConsistent p s
    → Sweeps p now (record s { last_now = some now })
begin_lem p now s c =
    sweep_state_lem p now (record s { last_now = some now }) (clocked-IsConsistent p now s c)

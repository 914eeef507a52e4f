-- ===== src/Scheduler/Invariant/Changes.antt =====
-- The invariant under the changes that follow the commit point: an entry leaves the queue, a new
-- one enters it, a queued one starts to run, and the running one makes a call or ends.
use crypto_radar.Base.{◌<◌, String, ◌≡◌, ◌≢◌, none, some, arith, length}
use crypto_radar.Base.Equality.{string_eq}
use crypto_radar.Base.Dict.{lookup, lookup-erase, lookup-insert}
use crypto_radar.Base.Dict.Index.{key_at}
use crypto_radar.Base.Dict.Unique.{length-erase, length-insert}
use crypto_radar.Invocation.Identity.{InvocationIdentity, identity_equality}
use crypto_radar.Scheduler.Policy.{SchedulerPolicy}
use crypto_radar.Scheduler.Version.{group_equality}
use crypto_radar.Scheduler.State.{
  QueuedEntry, Running, State, id_of, identity_of, group_of, add_entry,
}
use crypto_radar.Scheduler.Queue.{without, without-IsIndexed, add_entry-IsIndexed}
use crypto_radar.Scheduler.Invariant.{IsPlanned, IsApart, IsConsistent}
use text.Mathlib.TextEquality.{eq_iff}

-- What a removal leaves is what was there.
pub found_before :
    (id : String) (e : QueuedEntry) (s : State) (j : String) (f : QueuedEntry)
    → lookup j (without id e s).queue ≡ some f
    → lookup j s.queue ≡ some f
found_before id e s j f k = ground (arith, lookup-erase id j s.queue)

pub missing_after :
    (id : String) (e : QueuedEntry) (s : State) (j : String)
    → lookup j s.queue ≡ none
    → lookup j (without id e s).queue ≡ none
missing_after id e s j k = ground (arith, lookup-erase id j s.queue)

key_before :
    (id : String) (e : QueuedEntry) (s : State) (j : String) (i : InvocationIdentity)
    → key_at identity_of j (without id e s).queue ≡ some i
    → key_at identity_of j s.queue ≡ some i
key_before id e s j i k = ground (arith, lookup-erase id j s.queue)

pub without-IsConsistent :
    (p : SchedulerPolicy) (id : String) (e : QueuedEntry) (s : State)
    → IsConsistent p s
    → lookup id s.queue ≡ some e
    → IsConsistent p (without id e s)
without-IsConsistent p id e s c found = record {
  indexed = without-IsIndexed id e s c.indexed found;
  bounded = omega (arith, c.bounded, length-erase id e s.queue c.indexed.unique found);
  planned = λ j f k. c.planned j f (found_before id e s j f k);
  running_planned = c.running_planned;
  running_capped = c.running_capped;
  running_apart = λ r run. record {
    no_id = missing_after id e s (id_of r.entry) (c.running_apart r run).no_id;
    no_identity =
        λ j k. (c.running_apart r run).no_identity j (key_before id e s j (identity_of r.entry) k);
  };
}

-- A removal from a full queue makes room.
pub length-without :
    (p : SchedulerPolicy) (id : String) (e : QueuedEntry) (s : State)
    → IsConsistent p s
    → lookup id s.queue ≡ some e
    → length (without id e s).queue < p.max_queued
length-without p id e s c found =
    omega (arith, c.bounded, length-erase id e s.queue c.indexed.unique found)

-- The id and the identity of an incoming version belong to no active item.
pub record IsFresh (id : String) (i : InvocationIdentity) (s : State) : Type 0 where
  pub no_id : lookup id s.queue ≡ none
  pub no_identity : lookup i s.by_identity ≡ none
  pub not_running :
      (r : Running) → s.running ≡ some r → (id_of r.entry ≢ id) × (identity_of r.entry ≢ i)

pub without-IsFresh :
    (id : String) (i : InvocationIdentity) (j : String) (e : QueuedEntry) (s : State)
    → IsFresh id i s
    → IsFresh id i (without j e s)
without-IsFresh id i j e s h = record {
  no_id = missing_after j e s id h.no_id;
  no_identity = ground (arith, lookup-erase (identity_of e) i s.by_identity, h.no_identity);
  not_running = h.not_running;
}

module _ (p : SchedulerPolicy) (e : QueuedEntry) (s : State) where
  added-IsApart :
      (r : Running)
      → (id_of r.entry ≢ id_of e) × (identity_of r.entry ≢ identity_of e)
      → IsApart r s
      → IsApart r (add_entry e s)
  unfolding add_entry
  added-IsApart r d a = record {
    no_id = ground (
      arith,
      lookup-insert (id_of e) (id_of r.entry) e s.queue,
      eq_iff (id_of e) (id_of r.entry),
      a.no_id,
      d.0,
    );
    no_identity = λ j k. ground (arith, lookup-insert (id_of e) j e s.queue, a.no_identity j, d.1);
  }

  pub add_entry-IsConsistent :
      IsConsistent p s
      → IsPlanned p e
      → IsFresh (id_of e) (identity_of e) s
      → lookup (group_of e) s.by_group ≡ none
      → length s.queue < p.max_queued
      → IsConsistent p (add_entry e s)
  unfolding add_entry
  add_entry-IsConsistent c plan fresh free room = record {
    indexed = add_entry-IsIndexed e s c.indexed fresh.no_id fresh.no_identity free;
    bounded = omega (arith, length-insert (id_of e) e s.queue);
    planned = λ j f k. ground (arith, lookup-insert (id_of e) j e s.queue, c.planned j f, plan);
    running_planned = c.running_planned;
    running_capped = c.running_capped;
    running_apart = λ r run. added-IsApart r (fresh.not_running r run) (c.running_apart r run);
  }

pub lookup-add_entry :
    (e : QueuedEntry) (s : State) → lookup (id_of e) (add_entry e s).queue ≡ some e
unfolding add_entry
lookup-add_entry e s =
    ground (arith, lookup-insert (id_of e) (id_of e) e s.queue, eq_iff (id_of e) (id_of e))

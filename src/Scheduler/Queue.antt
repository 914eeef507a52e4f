-- ===== src/Scheduler/Queue.antt =====
-- The queue and its two indexes agree: what `_remove` and `_insert` rely on and keep.
pub mod Sweep
use crypto_radar.Base.{
  ℕ, ◌+◌, ◌≤◌, String, ◌≡◌, ◌≢◌, refl, sym, ap, ◌∙◌, Bool, true, false, Option, none, some, List,
  [], ◌∷◌, ◌++◌, arith, inl, inr, Option-cases, length, if◌then◌else◌, All,
}
use crypto_radar.Base.Equality.{◌==◌, string_eq}
use crypto_radar.Base.Dict.{Dict, values, lookup, insert, erase, lookup-insert, lookup-erase}
use crypto_radar.Base.Dict.Unique.{IsUnique, insert-IsUnique, erase-IsUnique, All-values}
use crypto_radar.Base.Dict.Index.{IsIndex, key_at, insert-IsIndex, erase-IsIndex}
use crypto_radar.Base.Order.Sorting.{Pairs}
use crypto_radar.Invocation.Identity.{InvocationIdentity, identity_equality}
use crypto_radar.Scheduler.Types.{Outcome, ok, err, key_error}
use crypto_radar.Scheduler.Version.{group_equality, GroupKey}
use crypto_radar.Scheduler.State.{
  QueuedEntry, State, id_of, identity_of, group_of, drop_group, remove, add_entry,
}
use text.Mathlib.TextEquality.{eq_iff}

-- Each entry stands under its own id, once, and each index leads from exactly the keys of the
-- queued entries to their ids: so no identity and no slot is queued twice.
pub record IsIndexed (s : State) : Type 0 where
  pub keyed : (id : String) (e : QueuedEntry) → lookup id s.queue ≡ some e → id_of e ≡ id
  pub unique : IsUnique s.queue
  pub identities : IsIndex identity_of s.queue s.by_identity
  pub groups : IsIndex group_of s.queue s.by_group

-- The state after `_remove` of an entry that is there.
abbrev pub without : String → QueuedEntry → State → State
without id entry s = record s {
  queue = erase id s.queue;
  by_identity = erase (identity_of entry) s.by_identity;
  by_group = erase (group_of entry) s.by_group;
}

module _ (id : String) (e : QueuedEntry) (s : State) (h : IsIndexed s)
    (found : lookup id s.queue ≡ some e) where
  pub indexed_identity : lookup (identity_of e) s.by_identity ≡ some id
  indexed_identity = (h.identities id (identity_of e)).1 (rw (found, key_at))

  pub indexed_group : lookup (group_of e) s.by_group ≡ some id
  indexed_group = (h.groups id (group_of e)).1 (rw (found, key_at))

  drop_group_lem : drop_group (group_of e) id s.by_group ≡ erase (group_of e) s.by_group
  unfolding drop_group
  drop_group_lem = ground (arith, indexed_group, eq_iff id id)

  -- `_remove` of a queued id raises nothing.
  pub remove_lem : remove id s ≡ ok (e, without id e s)
  unfolding remove
  remove_lem = ground (arith, indexed_identity, drop_group_lem)

  pub without-IsIndexed : IsIndexed (without id e s)
  without-IsIndexed = record {
    keyed = λ j f k. ground (arith, lookup-erase id j s.queue, h.keyed j f);
    unique = erase-IsUnique id s.queue h.unique;
    identities = erase-IsIndex identity_of id e s.queue s.by_identity found h.identities;
    groups = erase-IsIndex group_of id e s.queue s.by_group found h.groups;
  }

pub add_entry-IsIndexed :
    (e : QueuedEntry) (s : State)
    → IsIndexed s
    → lookup (id_of e) s.queue ≡ none
    → lookup (identity_of e) s.by_identity ≡ none
    → lookup (group_of e) s.by_group ≡ none
    → IsIndexed (add_entry e s)
unfolding add_entry
add_entry-IsIndexed e s h new fresh free = record {
  keyed =
      λ j f k. ground (arith, lookup-insert (id_of e) j e s.queue, h.keyed j f, eq_iff (id_of e) j);
  unique = insert-IsUnique (id_of e) e s.queue h.unique;
  identities = insert-IsIndex identity_of (id_of e) e s.queue s.by_identity new fresh h.identities;
  groups = insert-IsIndex group_of (id_of e) e s.queue s.by_group new free h.groups;
}

-- An identity that no queued entry has is not in the index, and so for a slot.
pub not_indexed :
    (i : InvocationIdentity) (s : State)
    → IsIndexed s
    → ((id : String) → key_at identity_of id s.queue ≢ some i)
    → lookup i s.by_identity ≡ none
not_indexed i s h free = elim (Option-cases (lookup i s.by_identity)) [
  | inl e ↦ e
  | inr (id, e) ↦ absurd (free id ((h.identities id i).0 e))
]

-- The entries in the order of the queue stand under their ids, which differ.
pub values_found :
    (s : State) → IsIndexed s → All (λ e. lookup (id_of e) s.queue ≡ some e) (values s.queue)
values_found s h =
    All-values (λ e. lookup (id_of e) s.queue ≡ some e) s.queue h.unique
      (λ id e found. ap (λ j. lookup j s.queue) (h.keyed id e found) ∙ found)

abbrev pub DifferentIds : QueuedEntry → QueuedEntry → Type 0
DifferentIds a b = id_of a ≢ id_of b

values_apart :
    (d : Dict String QueuedEntry)
    → IsUnique d
    → ((id : String) (e : QueuedEntry) → lookup id d ≡ some e → id_of e ≡ id)
    → Pairs DifferentIds (values d)
unfolding values lookup
values_apart [] u k = tt
values_apart ((id, e) ∷ d) u k =
    let rest : (j : String) (f : QueuedEntry) → lookup j d ≡ some f → id_of f ≡ j =
      λ j f found. k j f (ground (arith, eq_iff id j, u.0)) in
    (
      All-values (DifferentIds e) d u.1 (λ j f found.
          λ same. ground (arith, k id e (ground (arith, eq_iff id id)), rest j f found, u.0)),
      values_apart d u.1 rest,
    )

pub values-DifferentIds : (s : State) → IsIndexed s → Pairs DifferentIds (values s.queue)
values-DifferentIds s h = values_apart s.queue h.unique h.keyed

-- ===== src/Scheduler/Admission/Keeps.antt =====
-- `admit` after its sweep, of radar_v08/workflow/scheduler.py: lemmas on each of its steps.
use crypto_radar.Base.{
  ◌≤◌, ◌<◌, String, ◌≡◌, ◌≢◌, refl, true, Option, none, some, List, [], ◌∷◌, ◌++◌, arith, inl, inr,
  Option-cases, Bool-cases, length, leb, All-elem, leb→le, All,
}
use crypto_radar.Base.Equality.{string_eq}
use crypto_radar.Base.Dict.{Dict, values, lookup, lookup-erase}
use crypto_radar.Base.Dict.Index.{key_at}
use crypto_radar.Base.Order.{max_by, lex_lt}
use crypto_radar.Base.Order.Extremes.{max_by-elem}
use crypto_radar.Invocation.Identity.{identity_equality}
use crypto_radar.Scheduler.Types.{
  ok, Returns, Returns-of_eq, AdmissionStatus, Transition, ItemState, StaleReason, Band,
}
use crypto_radar.Scheduler.Policy.{SchedulerPolicy, band}
use crypto_radar.Scheduler.Version.{group_key, group_eq_iff, group_equality}
use crypto_radar.Scheduler.State.{
  QueuedEntry, State, id_of, group_of, rank_key, roles_with, deadline_of, add_entry, path_fits,
  unfit_state,
}
use crypto_radar.Scheduler.Queue.{IsIndexed, without, remove_lem, values_found}
use crypto_radar.Scheduler.Invariant.{IsPlanned, IsConsistent}
use crypto_radar.Scheduler.Invariant.Changes.{
  without-IsConsistent, length-without, IsFresh, without-IsFresh, add_entry-IsConsistent,
  lookup-add_entry,
}
use crypto_radar.Scheduler.Admission.{
  AdmissionResult, Offer, Admitted, entry_for, compatible, refusal, linked, worst_of, admit_bounded,
  admit_grouped, admit_checked,
}
use mathlib.Core.Path.{subst}
use mathlib.Core.Option.{some-injective}

-- The incoming version stands in the queue, with the deadline and the time of the offer, and its
-- path fits before the deadline.
pub record IsQueuedAs (p : SchedulerPolicy) (o : Offer) (t : State) : Type 0 where
  pub entry : QueuedEntry
  pub found : lookup o.version.item_id t.queue ≡ some entry
  pub same_version : entry.version ≡ o.version
  pub same_deadline : entry.deadline ≡ o.deadline
  pub admitted_at : entry.enqueued_at ≡ o.now
  pub in_time : o.now < o.deadline
  pub fits : path_fits p o.path o.now o.deadline ≡ true

pub record Settles (p : SchedulerPolicy) (o : Offer) (a : Admitted) : Type 0 where
  pub consistent : IsConsistent p a.1
  pub queued : a.0.status ≡ AdmissionStatus.admitted → IsQueuedAs p o a.1

-- What the tests before step 3 have established of the offer.
pub record IsAdmissible (p : SchedulerPolicy) (o : Offer) : Type 0 where
  pub deadline_fixed : o.deadline ≡ deadline_of p o.version
  pub path_enabled : o.path ≡ roles_with p true o.version.requested_roles
  pub integrity : o.version.integrity_valid ≡ true
  pub in_time : o.now < o.deadline
  pub fits : path_fits p o.path o.now o.deadline ≡ true

module _ (p : SchedulerPolicy) (o : Offer) where
  abbrev Fresh : State → Type 0
  Fresh s = IsFresh o.version.item_id o.version.identity s

  unqueued :
      (a : Admitted) → IsConsistent p a.1 → a.0.status ≢ AdmissionStatus.admitted → Settles p o a
  unqueued a c n = record { consistent = c; queued = λ e. absurd (n e) }

  IsPlanned-entry :
      (b : Band) (supersedes : Option String)
      → IsAdmissible p o
      → band p o.version.opportunity_score ≡ some b
      → IsPlanned p (entry_for o b supersedes)
  IsPlanned-entry b supersedes k scored = record {
    deadline_fixed = k.deadline_fixed;
    path_enabled = k.path_enabled;
    band_scored = scored;
    integrity = k.integrity;
  }

  queued_entry :
      (b : Band) (supersedes : Option String) (s : State)
      → IsAdmissible p o
      → IsQueuedAs p o (add_entry (entry_for o b supersedes) s)
  queued_entry b supersedes s k = record {
    entry = entry_for o b supersedes;
    found = lookup-add_entry (entry_for o b supersedes) s;
    same_version = refl;
    same_deadline = refl;
    admitted_at = refl;
    in_time = k.in_time;
    fits = k.fits;
  }

  pub worst_found :
      (s : State) (worst : QueuedEntry)
      → IsConsistent p s
      → worst_of (values s.queue) ≡ some worst
      → lookup (id_of worst) s.queue ≡ some worst
  unfolding worst_of
  worst_found s worst c e = go (values s.queue) (values_found s c.indexed) e
    where
      go :
          (es : List QueuedEntry)
          → All (λ f. lookup (id_of f) s.queue ≡ some f) es
          → worst_of es ≡ some worst
          → lookup (id_of worst) s.queue ≡ some worst
      go [] h e = cc
      go (f ∷ fs) h e =
          subst (λ w. lookup (id_of w) s.queue ≡ some w) (some-injective _ _ e)
            (All-elem (λ w. lookup (id_of w) s.queue ≡ some w) (max_by rank_key f fs)
              (max_by-elem rank_key f fs) h)

  pub no_worst : (d : Dict String QueuedEntry) → worst_of (values d) ≡ none → length d ≡ 0
  unfolding worst_of values
  no_worst [] e = refl
  no_worst ((id, f) ∷ d) e = cc

  module _ (b : Band) (supersedes : Option String) (k : IsAdmissible p o)
      (scored : band p o.version.opportunity_score ≡ some b) (room : 1 ≤ p.max_queued) where
    enqueue_keeps :
        (s : State)
        → IsConsistent p s
        → Fresh s
        → lookup (group_key o.version) s.by_group ≡ none
        → length s.queue < p.max_queued
        → (r : AdmissionResult) → Settles p o (r, add_entry (entry_for o b supersedes) s)
    enqueue_keeps s c fresh free short r = record {
      consistent =
          add_entry-IsConsistent p (entry_for o b supersedes) s c
            (IsPlanned-entry b supersedes k scored) fresh free short;
      queued = λ e. queued_entry b supersedes s k;
    }

    group_free_after :
        (id : String) (f : QueuedEntry) (s : State)
        → lookup (group_key o.version) s.by_group ≡ none
        → lookup (group_key o.version) (without id f s).by_group ≡ none
    group_free_after id f s free =
        ground (arith, lookup-erase (group_of f) (group_key o.version) s.by_group)

    bounded_keeps :
        (s : State) (out : List Transition)
        → IsConsistent p s
        → Fresh s
        → lookup (group_key o.version) s.by_group ≡ none
        → Returns (Settles p o) (admit_bounded p o (entry_for o b supersedes) s out)
    unfolding admit_bounded
    bounded_keeps s out c fresh free = elim (Bool-cases (leb p.max_queued (length s.queue))) [
      | inr short ↦ rw short (enqueue_keeps s c fresh free (ground arith) _)
      | inl full ↦ elim (Option-cases (worst_of (values s.queue))) [
        | inl e ↦
            absurd (omega (arith, no_worst s.queue e, leb→le p.max_queued (length s.queue) full))
        | inr (worst, e) ↦
            rw (full, e)
              (elim (Bool-cases (lex_lt (rank_key (entry_for o b supersedes)) (rank_key worst))) [
                | inr loses ↦ rw loses (unqueued _ c (cc))
                | inl wins ↦
                    let found = worst_found s worst c e in
                    rw (wins, remove_lem (id_of worst) worst s c.indexed found)
                      (enqueue_keeps (without (id_of worst) worst s)
                        (without-IsConsistent p (id_of worst) worst s c found)
                        (without-IsFresh o.version.item_id o.version.identity (id_of worst) worst s
                          fresh)
                        (group_free_after (id_of worst) worst s free)
                        (length-without p (id_of worst) worst s c found) _)
              ])
      ]
    ]

  -- The slot's incumbent stands in the queue.
  incumbent_found :
      (id : String) (s : State)
      → IsIndexed s
      → lookup (group_key o.version) s.by_group ≡ some id
      → (f : QueuedEntry) × (lookup id s.queue ≡ some f) × (group_of f ≡ group_key o.version)
  incumbent_found id s h e = elim (Option-cases (lookup id s.queue)) [
    | inl n ↦ cc (rw (n, key_at) at (h.groups id (group_key o.version)).0 e)
    | inr (f, found) ↦ (
      f,
      found,
      some-injective _ _ (rw (found, key_at) at (h.groups id (group_key o.version)).0 e),
    )
  ]

  module _ (b : Band) (k : IsAdmissible p o) (scored : band p o.version.opportunity_score ≡ some b)
      (room : 1 ≤ p.max_queued) where
    slot_freed :
        (id : String) (f : QueuedEntry) (s : State)
        → group_of f ≡ group_key o.version
        → lookup (group_key o.version) (without id f s).by_group ≡ none
    slot_freed id f s same = ground (
      arith,
      lookup-erase (group_of f) (group_key o.version) s.by_group,
      group_eq_iff (group_of f) (group_key o.version),
      same,
    )

    replace_keeps :
        (id : String) (f : QueuedEntry) (s : State) (out : List Transition)
        → IsConsistent p s
        → Fresh s
        → lookup id s.queue ≡ some f
        → group_of f ≡ group_key o.version
        → Returns (Settles p o) (admit_bounded p o (entry_for o b (some id)) (without id f s) out)
    replace_keeps id f s out c fresh found same =
        bounded_keeps b (some id) k scored room (without id f s) out
          (without-IsConsistent p id f s c found)
          (without-IsFresh o.version.item_id o.version.identity id f s fresh)
          (slot_freed id f s same)

    grouped_keeps :
        (s : State) (out : List Transition)
        → IsConsistent p s
        → Fresh s
        → Returns (Settles p o) (admit_grouped p o b s out)
    unfolding admit_grouped
    grouped_keeps s out c fresh = elim (Option-cases (lookup (group_key o.version) s.by_group)) [
      | inl free ↦
          Returns-of_eq (Settles p o) {n = admit_bounded p o (entry_for o b none) s out}
            (ground arith) (bounded_keeps b none k scored room s out c fresh free)
      | inr (id, taken) ↦
          let (f, found, same) = incumbent_found id s c.indexed taken in
          elim (Bool-cases (compatible f.version o.version)) [
            | inr differs ↦
                Returns-of_eq (Settles p o)
                  {n = ok (refusal o ItemState.incompatible_version (some id) none out, s)}
                  (ground (arith, taken, found)) (unqueued _ c (cc))
            | inl fits ↦ elim (Bool-cases (leb o.version.sealed_at f.version.sealed_at)) [
              | inl older ↦
                  Returns-of_eq (Settles p o)
                    {n = ok (refusal o ItemState.superseded (some id) none out, s)}
                    (ground (arith, taken, found)) (unqueued _ c (cc))
              | inr newer ↦
                  Returns-of_eq (Settles p o)
                    {n = admit_bounded p o (entry_for o b (some id)) (without id f s)
                      (out ++ linked id ItemState.superseded o.now (some o.version.item_id) ∷ [])}
                    (ground (arith, taken, found, remove_lem id f s c.indexed found))
                    (replace_keeps id f s _ c fresh found same)
            ]
          ]
    ]

  pub checked_keeps :
      (s : State) (out : List Transition)
      → 1 ≤ p.max_queued
      → o.deadline ≡ deadline_of p o.version
      → o.path ≡ roles_with p true o.version.requested_roles
      → IsConsistent p s
      → Fresh s
      → Returns (Settles p o) (admit_checked p o s out)
  unfolding admit_checked
  checked_keeps s out room fixed enabled c fresh = elim (Bool-cases o.version.integrity_valid) [
    | inr invalid ↦
        Returns-of_eq (Settles p o)
          {n = ok (refusal o ItemState.integrity_invalid none none out, s)} (ground arith)
          (unqueued _ c (cc))
    | inl valid ↦ elim (Option-cases (band p o.version.opportunity_score)) [
      | inl low ↦
          Returns-of_eq (Settles p o) {n = ok (refusal o ItemState.not_eligible none none out, s)}
            (ground arith) (unqueued _ c (cc))
      | inr (b, scored) ↦ elim (Bool-cases (leb o.deadline o.now)) [
        | inl late ↦
            Returns-of_eq (Settles p o)
              {n = ok
                (refusal o ItemState.abort_stale none (some StaleReason.deadline_passed) out, s)}
              (ground arith) (unqueued _ c (cc))
        | inr early ↦ elim (Bool-cases (path_fits p o.path o.now o.deadline)) [
          | inr unfit ↦
              Returns-of_eq (Settles p o)
                {n = ok (refusal o (unfit_state o.version) none none out, s)} (ground arith)
                (unqueued _ c (cc))
          | inl fit ↦
              let k : IsAdmissible p o = record {
                deadline_fixed = fixed;
                path_enabled = enabled;
                integrity = valid;
                in_time = ground arith;
                fits = fit;
              } in
              Returns-of_eq (Settles p o) {n = admit_grouped p o b s out} (ground arith)
                (grouped_keeps b k scored room s out c fresh)
        ]
      ]
    ]
  ]

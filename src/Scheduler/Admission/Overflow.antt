-- ===== src/Scheduler/Admission/Overflow.antt =====
-- The bounded queue: who is dropped when it is full.
use crypto_radar.Base.{
  ◌≤◌, ◌≡◌, refl, true, none, some, List, [], ◌∷◌, ◌++◌, arith, inl, inr, Option-cases, Bool-cases,
  length, All, All-map,
}
use crypto_radar.Base.Dict.{values, lookup}
use crypto_radar.Base.Order.{lex_lt, NotAfter, not_lt_trans}
use crypto_radar.Base.Order.Extremes.{max_by_greatest}
use crypto_radar.Scheduler.Types.{
  ok, AdmissionStatus, ItemState, Transition, Returns, Returns-of_eq,
}
use crypto_radar.Scheduler.Policy.{SchedulerPolicy}
use crypto_radar.Scheduler.State.{QueuedEntry, State, id_of, rank_key, add_entry}
use crypto_radar.Scheduler.Queue.{without, remove_lem}
use crypto_radar.Scheduler.Invariant.{IsConsistent}
use crypto_radar.Scheduler.Admission.{
  Offer, Admitted, worst_of, admit_bounded, refusal, linked, enqueue,
}
use crypto_radar.Scheduler.Admission.Keeps.{worst_found, no_worst}
use mathlib.Core.Path.{subst}
use crypto_radar.Base.Equality.{string_eq}
use mathlib.Core.Option.{some-injective}

worst_greatest :
    (es : List QueuedEntry) (worst : QueuedEntry)
    → worst_of es ≡ some worst
    → All (λ x. NotAfter rank_key x worst) es
unfolding worst_of
worst_greatest [] worst e = tt
worst_greatest (f ∷ fs) worst e =
    subst (λ w. All (λ x. NotAfter rank_key x w) (f ∷ fs)) (some-injective _ _ e)
      (max_by_greatest rank_key f fs)

-- How a full queue took an entry: the item that was dropped, its replacement, and its rank.
pub data Overflow (s : State) (entry : QueuedEntry) (a : Admitted) : Type 0 where
  -- the incoming entry loses: every queued one is ranked no worse, and the state stays
  incoming_dropped :
      a.0.state ≡ ItemState.dropped_backpressure
      → a.1 ≡ s
      → All (λ x. NotAfter rank_key x entry) (values s.queue)
      → Overflow s entry a
  -- the worst queued entry loses, ranked after the incoming one and after no other queued one
  queued_dropped :
      (worst : QueuedEntry)
      → lookup (id_of worst) s.queue ≡ some worst
      → a.0.status ≡ AdmissionStatus.admitted
      → a.1 ≡ add_entry entry (without (id_of worst) worst s)
      → lex_lt (rank_key entry) (rank_key worst) ≡ true
      → All (λ x. NotAfter rank_key x worst) (values s.queue)
      → Overflow s entry a

-- Where the policy allows at least one entry, an entry that meets a full queue of a consistent
-- state makes it drop exactly one item, the worst ranked of the queued ones and the incoming one.
pub Overflow-drops_worst :
    (p : SchedulerPolicy) (o : Offer) (entry : QueuedEntry) (s : State) (out : List Transition)
    → IsConsistent p s
    → 1 ≤ p.max_queued
    → p.max_queued ≤ length s.queue
    → Returns (Overflow s entry) (admit_bounded p o entry s out)
unfolding admit_bounded
Overflow-drops_worst p o entry s out c room full = elim (Option-cases (worst_of (values s.queue))) [
  | inl e ↦ absurd (omega (arith, no_worst p o s.queue e))
  | inr (worst, e) ↦
      let greatest = worst_greatest (values s.queue) worst e in
      let found = worst_found p o s worst c e in
      elim (Bool-cases (lex_lt (rank_key entry) (rank_key worst))) [
        | inr loses ↦
            Returns-of_eq (Overflow s entry) {m = admit_bounded p o entry s out}
              {n = ok (refusal o ItemState.dropped_backpressure (some (id_of worst)) none out, s)}
              (ground arith)
              (incoming_dropped refl refl (
                All-map (λ x. NotAfter rank_key x worst) (λ x. NotAfter rank_key x entry)
                  (values s.queue)
                  (λ x k. not_lt_trans (rank_key x) (rank_key worst) (rank_key entry) k loses)
                  greatest))
        | inl wins ↦
            let dropped =
              linked (id_of worst) ItemState.dropped_backpressure o.now (some o.version.item_id) in
            Returns-of_eq (Overflow s entry) {m = admit_bounded p o entry s out}
              {n = ok (enqueue o entry (without (id_of worst) worst s) (out ++ dropped ∷ []))}
              (ground (arith, remove_lem (id_of worst) worst s c.indexed found))
              (queued_dropped worst found refl refl wins greatest)
      ]
]

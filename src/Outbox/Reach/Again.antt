-- ===== src/Outbox/Reach/Again.antt =====
-- A lifecycle transition recorded once more, after any calls in between.
use text.Mathlib.TextEquality.{eq_iff}
use crypto_radar.Base.{
  ◌≤◌, String, ◌≡◌, refl, sym, ◌∙◌, true, false, Option, none, some, List, [], ◌∷◌, ◌++◌, arith,
  Option-cases, Bool-cases, inl, inr,
}
use mathlib.Core.Path.{subst}
use crypto_radar.Base.Equality.{string_eq}
use crypto_radar.Base.Dict.{lookup}
use crypto_radar.Base.Result.{ok, Gives, Gives_at, Gives-eq, Gives-const, Gives-require}
use crypto_radar.Invocation.Lease.{Instant}
use crypto_radar.Invocation.Store.{Connection}
use crypto_radar.Outbox.Text.{is_identifier, is_role, optionally}
use crypto_radar.Outbox.Lifecycle.{LifecycleState, check_transition}
use crypto_radar.Outbox.Table.{
  DeliveryId, lifecycle_id, delivery_eq, OutboxEntry, Store, write, by_delivery, insert_entry,
}
use crypto_radar.Outbox.Record.{
  state_of, option_eq, same_details, RecordResult, enter_state, new_transition, old_transition,
  transition_work, record_lifecycle_transition,
}
use crypto_radar.Outbox.Change.Works.{write-Gives, write_ready}
use crypto_radar.Outbox.Reach.{Run, Run-Extends}

by_delivery-append :
    (id : DeliveryId) (rs more : List OutboxEntry) (r : OutboxEntry)
    → by_delivery id rs ≡ some r
    → by_delivery id (rs ++ more) ≡ some r
unfolding by_delivery
by_delivery-append id [] more r h = ground arith
by_delivery-append id (x ∷ xs) more r h = ground (arith, by_delivery-append id xs more r)

by_delivery_last :
    (id : DeliveryId) (rs : List OutboxEntry) (r : OutboxEntry)
    → by_delivery id rs ≡ none
    → delivery_eq r.delivery_id id ≡ true
    → by_delivery id (rs ++ r ∷ []) ≡ some r
unfolding by_delivery
by_delivery_last id [] r h e = rw e refl
by_delivery_last id (x ∷ xs) r h e = ground (arith, by_delivery_last id xs r)

option_eq_self : (o : Option String) → option_eq o o ≡ true
option_eq_self none = refl
option_eq_self (some t) = ground (arith, eq_iff t t)

state_eq_self :
    (item : String) (state : LifecycleState)
    → delivery_eq (lifecycle_id item state) (lifecycle_id item state) ≡ true
state_eq_self item state = ground (arith, eq_iff item item)

module _ (item : String) (state : LifecycleState) (related reason : Option String) where
  -- The row of the transition is in the log, with its details.
  abbrev IsRecorded : RecordResult × Store → Type 0
  IsRecorded x =
      (by_delivery (lifecycle_id item state) x.1.outbox ≡ some x.0.entry)
      × (same_details x.0.entry.payload related reason ≡ true)

  abbrev id : DeliveryId
  id = lifecycle_id item state

  new_records :
      (now : Instant) (s : Store)
      → by_delivery id s.outbox ≡ none
      → Gives IsRecorded (new_transition item state related reason now s)
  unfolding new_transition enter_state insert_entry
  new_records now s new =
      Gives-require IsRecorded (check_transition (state_of (lookup item s.items)) state) _ _
        (λ move. (
          by_delivery_last id s.outbox _ new (state_eq_self item state),
          ground (arith, option_eq_self related, option_eq_self reason),
        ))

  old_records :
      (old : OutboxEntry) (s : Store)
      → by_delivery id s.outbox ≡ some old
      → Gives IsRecorded (old_transition old related reason s)
  unfolding old_transition
  old_records old s there_is = elim (Bool-cases (same_details old.payload related reason)) [
    | inl same ↦ rw same (there_is, same)
    | inr other ↦ rw other tt
  ]

  work_records :
      (now : Instant) (s : Store)
      → Gives IsRecorded (transition_work item state related reason now s)
  unfolding transition_work
  work_records now s = elim (Option-cases (by_delivery id s.outbox)) [
    | inl new ↦
        Gives-eq IsRecorded {m' = new_transition item state related reason now s} (ground arith)
          (new_records now s new)
    | inr (old, there_is) ↦
        Gives-eq IsRecorded {m' = old_transition old related reason s} (ground arith)
          (old_records old s there_is)
  ]

  call_records :
      (c : Connection) (now : Instant) (s : Store)
      → Gives IsRecorded (record_lifecycle_transition c item state related reason now s)
  unfolding record_lifecycle_transition
  call_records c now s = Gives-require IsRecorded (is_identifier item) _ _ (λ e0.
      Gives-require IsRecorded (optionally is_identifier related) _ _ (λ e1.
        Gives-require IsRecorded (optionally is_role reason) _ _ (λ e2.
          write-Gives IsRecorded c (transition_work item state related reason now) s
            (work_records now s))))

  again :
      (now : Instant) (s : Store) (r : OutboxEntry)
      → by_delivery id s.outbox ≡ some r
      → same_details r.payload related reason ≡ true
      → transition_work item state related reason now s
        ≡ ok (record { entry = r; created = false }, s)
  unfolding transition_work old_transition
  again now s r found same = ground arith

abbrev IsValid : String → Option String → Option String → RecordResult × Store → Type 0
IsValid item related reason x =
    (is_identifier item ≡ true)
    × (optionally is_identifier related ≡ true)
    × (optionally is_role reason ≡ true)

call-IsValid :
    (item : String) (related reason : Option String) (state : LifecycleState) (c : Connection)
    (now : Instant) (s : Store)
    → Gives
        (IsValid item related reason)
        (record_lifecycle_transition c item state related reason now s)
unfolding record_lifecycle_transition
call-IsValid item related reason state c now s =
    let P = IsValid item related reason in
    Gives-require P (is_identifier item) _ _ (λ e0.
      Gives-require P (optionally is_identifier related) _ _ (λ e1.
        Gives-require P (optionally is_role reason) _ _ (λ e2.
          Gives-const (e0, e1, e2) (write c (transition_work item state related reason now) s))))

-- A transition that was recorded is recorded once: the same call after any sequence of calls, on a
-- ready connection that is busy for three tries at most, writes nothing and returns the stored row,
-- as not created.
pub transition_once :
    (c c' : Connection) (item : String) (state : LifecycleState) (related reason : Option String)
    → (now later : Instant) (s s' t : Store) (out : RecordResult)
    → record_lifecycle_transition c item state related reason now s ≡ ok (out, s')
    → Run s' t
    → c'.in_transaction ≡ false
    → c'.migrated ≡ true
    → c'.busy_tries ≤ 3
    → record_lifecycle_transition c' item state related reason later t
      ≡ ok (record { entry = out.entry; created = false }, t)
unfolding record_lifecycle_transition
transition_once c c' item state related reason now later s s' t out e run closed migrated free =
    let kept =
      Gives_at (IsRecorded item state related reason) (out, s') e
        (call_records item state related reason c now s) in
    let x = Run-Extends run in
    let found : by_delivery (lifecycle_id item state) t.outbox ≡ some out.entry =
      subst (λ l. by_delivery (lifecycle_id item state) l ≡ some out.entry) (sym x.log)
        (by_delivery-append (lifecycle_id item state) s'.outbox x.more out.entry kept.0) in
    let valid =
      Gives_at (IsValid item related reason) (out, s') e
        (call-IsValid item related reason state c now s) in
    let done : write c' (transition_work item state related reason later) t
        ≡ ok (record { entry = out.entry; created = false }, t) =
      write_ready c' (transition_work item state related reason later) t closed migrated free
      ∙ again item state related reason later t out.entry found kept.1 in
    ground (arith, valid.0, valid.1, valid.2, done)

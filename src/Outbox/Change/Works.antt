-- ===== src/Outbox/Change/Works.antt =====
-- Each transaction on the outbox tables is a change.
use text.Mathlib.Text.{◌==◌ as str_eq}
use crypto_radar.Base.{
  ℕ, ◌≤◌, zero, suc, String, ◌≡◌, refl, true, false, not, Option, none, some, List, [], ◌∷◌, arith,
  ltb, leb, length, if◌then◌else◌, Option-cases, inl, inr,
}
use crypto_radar.Base.Equality.{string_eq}
use crypto_radar.Base.Dict.{lookup, lookup-insert}
use crypto_radar.Base.Result.{
  Result, ok, err, Leaves, Leaves-if, Leaves-require, Leaves-bind, Leaves-eq, Gives_at,
  Gives-require, Gives-bind, Gives, Gives-if,
}
use crypto_radar.Invocation.Lease.{Instant}
use crypto_radar.Invocation.Store.{Connection, busy_retry_delays}
use text.Mathlib.TextEquality.{eq_iff}
use crypto_radar.Outbox.Text.{is_identifier, is_role, is_name, optionally}
use crypto_radar.Outbox.Lifecycle.{LifecycleState, check_transition}
use crypto_radar.Outbox.Table.{
  OutboxFailure, lifecycle_id, handoff_id, HandoffPayload, handoff_payload, Store, Work, tries,
  write, last_seq, by_delivery, insert_entry,
}
use crypto_radar.Outbox.Record.{
  state_of, found, same_details, same_payload, Handoff, record_event_row, new_transition,
  old_transition, transition_work, record_lifecycle_transition, party, is_hash, checked_payload,
  new_handoff, old_handoff, handoff_work, record_handoff,
}
use crypto_radar.Outbox.Consumer.{position_of, save_cursor, acknowledge_work, acknowledge}
use crypto_radar.Outbox.Sound.{IsAddressed}
use crypto_radar.Outbox.Change.{Change, read_on, noted, handed, entered}

tries-Leaves :
    {A : Type 0} (P : Store → Type 0) (delays : List ℕ) (busy : ℕ)
    (m : Result OutboxFailure (A × Store))
    → Leaves P m
    → Leaves P (tries delays busy m)
unfolding tries
tries-Leaves P delays zero m h = h
tries-Leaves P [] (suc n) m h = tt
tries-Leaves P (d ∷ delays) (suc n) m h = tries-Leaves P delays n m h

pub write-Leaves :
    {A : Type 0} (P : Store → Type 0) (c : Connection) (work : Work A) (s : Store)
    → Leaves P (work s)
    → Leaves P (write c work s)
unfolding write
write-Leaves P c work s h =
    let last = tries busy_retry_delays c.busy_tries (work s) in
    Leaves-if P c.in_transaction (err OutboxFailure.open_transaction)
      (if not c.migrated then err OutboxFailure.schema_not_migrated else last) (λ e. tt)
      (λ e.
        Leaves-if P (not c.migrated) (err OutboxFailure.schema_not_migrated) last (λ e'. tt)
          (λ e'. tries-Leaves P busy_retry_delays c.busy_tries (work s) h))

tries-Gives :
    {A : Type 0} (P : A → Type 0) (delays : List ℕ) (busy : ℕ) (m : Result OutboxFailure A)
    → Gives P m
    → Gives P (tries delays busy m)
unfolding tries
tries-Gives P delays zero m h = h
tries-Gives P [] (suc n) m h = tt
tries-Gives P (d ∷ delays) (suc n) m h = tries-Gives P delays n m h

pub write-Gives :
    {A : Type 0} (P : A × Store → Type 0) (c : Connection) (work : Work A) (s : Store)
    → Gives P (work s)
    → Gives P (write c work s)
unfolding write
write-Gives P c work s h =
    let last = tries busy_retry_delays c.busy_tries (work s) in
    Gives-if P c.in_transaction (err OutboxFailure.open_transaction)
      (if not c.migrated then err OutboxFailure.schema_not_migrated else last) (λ e. tt)
      (λ e.
        Gives-if P (not c.migrated) (err OutboxFailure.schema_not_migrated) last (λ e'. tt)
          (λ e'. tries-Gives P busy_retry_delays c.busy_tries (work s) h))

tries_free :
    {A : Type 0} (delays : List ℕ) (busy : ℕ) (m : Result OutboxFailure A)
    → busy ≤ length delays
    → tries delays busy m ≡ m
unfolding tries
tries_free delays zero m h = refl
tries_free [] (suc n) m h = ground arith
tries_free (d ∷ delays) (suc n) m h = tries_free delays n m (omega (arith, h))

pub write_ready :
    {A : Type 0} (c : Connection) (work : Work A) (s : Store)
    → c.in_transaction ≡ false
    → c.migrated ≡ true
    → c.busy_tries ≤ 3
    → write c work s ≡ work s
unfolding write
write_ready c work s closed migrated free =
    ground (arith, closed, migrated, tries_free busy_retry_delays c.busy_tries (work s) free)

unchanged : (s : Store) → Change s s
unchanged s = read_on refl refl (λ name. (omega arith, λ h. h))

pub record_event_row-Change :
    (c : Connection) (id : String) (now : Instant) (s : Store)
    → Leaves (Change s) (record_event_row c id now s)
unfolding record_event_row insert_entry
record_event_row-Change c id now s = Leaves-require (Change s) c.in_transaction _ _ (λ e0.
    Leaves-require (Change s) (not (str_eq id "")) _ _ (λ e1.
      Leaves-require (Change s) c.migrated _ _ (λ e2.
        Leaves-bind (Change s) (found (lookup id s.events) OutboxFailure.unknown_event) _ (λ row e3.
          Leaves-bind (Change s) (found (lookup "status" row) OutboxFailure.corrupt_row) _
            (λ status e4. Leaves-require (Change s) (not (str_eq status "")) _ _ (λ e5.
              noted _ id row (record { outbox = refl; seq = refl; cursors = refl }) refl refl refl
                refl refl))))))

new_transition-Change :
    (item : String) (state : LifecycleState) (related reason : Option String) (now : Instant)
    (s : Store)
    → by_delivery (lifecycle_id item state) s.outbox ≡ none
    → Leaves (Change s) (new_transition item state related reason now s)
unfolding new_transition insert_entry
new_transition-Change item state related reason now s new =
    Leaves-require (Change s) (check_transition (state_of (lookup item s.items)) state) _ _ (λ move.
      entered _ _ _ (record { outbox = refl; seq = refl; cursors = refl }) refl new refl refl refl
        move refl refl)

transition_work-Change :
    (item : String) (state : LifecycleState) (related reason : Option String) (now : Instant)
    (s : Store)
    → Leaves (Change s) (transition_work item state related reason now s)
unfolding transition_work old_transition
transition_work-Change item state related reason now s =
    elim (Option-cases (by_delivery (lifecycle_id item state) s.outbox)) [
      | inl new ↦
          Leaves-eq (Change s) {m' = new_transition item state related reason now s} (ground arith)
            (new_transition-Change item state related reason now s new)
      | inr (old, there_is) ↦
          Leaves-eq (Change s) {m' = old_transition old related reason s} (ground arith) (
            Leaves-if (Change s) (same_details old.payload related reason) _ _ (λ e. unchanged s)
              (λ e. tt))
    ]

pub record_lifecycle_transition-Change :
    (c : Connection) (item : String) (state : LifecycleState) (related reason : Option String)
    → (now : Instant) (s : Store)
    → Leaves (Change s) (record_lifecycle_transition c item state related reason now s)
unfolding record_lifecycle_transition
record_lifecycle_transition-Change c item state related reason now s =
    Leaves-require (Change s) (is_identifier item) _ _ (λ e0.
      Leaves-require (Change s) (optionally is_identifier related) _ _ (λ e1.
        Leaves-require (Change s) (optionally is_role reason) _ _ (λ e2.
          write-Leaves (Change s) c (transition_work item state related reason now) s
            (transition_work-Change item state related reason now s))))

party_lem : (t : Option String) (name : String) → party t ≡ ok name → is_role name ≡ true
unfolding party
party_lem none name h = ground arith
party_lem (some t) name h = ground arith

checked_payload-IsAddressed :
    (h : Handoff) (p : HandoffPayload) → checked_payload h ≡ ok p → IsAddressed (handoff_payload p)
unfolding checked_payload
checked_payload-IsAddressed h p e =
    let P : HandoffPayload → Type 0 = λ q. IsAddressed (handoff_payload q) in
    Gives_at P p e (
      Gives-bind P (party h.sender) _ (λ sender e1.
        Gives-bind P (party h.receiver) _ (λ receiver e2.
          Gives-require P (not (str_eq sender receiver)) _ _ (λ differ.
            Gives-require P (is_identifier h.communication_id) _ _ (λ _.
              Gives-require P (is_role h.reason) _ _ (λ _.
                Gives-require P (is_identifier h.run_id) _ _ (λ _.
                  Gives-require P (is_identifier h.opportunity_id) _ _ (λ _.
                    Gives-require P (optionally is_identifier h.invocation_id) _ _ (λ _.
                      Gives-require P (optionally is_hash h.evidence_hash) _ _ (λ _. (
                        party_lem h.sender sender e1,
                        party_lem h.receiver receiver e2,
                        ground arith,
                      )))))))))))

handoff_work-Change :
    (p : HandoffPayload) (h : Handoff) (now : Instant) (s : Store)
    → IsAddressed (handoff_payload p)
    → Leaves (Change s) (handoff_work p h now s)
unfolding handoff_work old_handoff new_handoff insert_entry
handoff_work-Change p h now s addressed =
    elim (Option-cases (by_delivery (handoff_id p.id) s.outbox)) [
      | inl new ↦ Leaves-eq (Change s) {m' = new_handoff p h now s} (ground arith) (
          handed _ p (record { outbox = refl; seq = refl; cursors = refl }) refl new refl refl
            addressed refl)
      | inr (old, there_is) ↦
          Leaves-eq (Change s) {m' = old_handoff old p s} (ground arith)
            (Leaves-if (Change s) (same_payload old.payload p) _ _ (λ e. unchanged s) (λ e. tt))
    ]

pub record_handoff-Change :
    (c : Connection) (h : Handoff) (now : Instant) (s : Store)
    → Leaves (Change s) (record_handoff c h now s)
unfolding record_handoff
record_handoff-Change c h now s = Leaves-bind (Change s) (checked_payload h) _ (λ p e.
    write-Leaves (Change s) c (handoff_work p h now) s
      (handoff_work-Change p h now s (checked_payload-IsAddressed h p e)))

-- A saved cursor, with the others as they were.
pub save_cursor-Change :
    (name : String) (seq : ℕ) (offset : Option ℕ) (now : Instant) (s : Store)
    → seq ≤ last_seq s.outbox
    → position_of name s ≤ seq
    → Change s (save_cursor name seq offset now s)
unfolding save_cursor position_of
save_cursor-Change name seq offset now s high low = read_on refl refl (λ other. ground (
  arith,
  lookup-insert name other (record { position = seq; byte_offset = offset; updated_at = now })
      s.cursors,
  eq_iff name other,
))

acknowledge_work-Change :
    (name : String) (seq : ℕ) (now : Instant) (s : Store)
    → Leaves (Change s) (acknowledge_work name seq now s)
unfolding acknowledge_work
acknowledge_work-Change name seq now s =
    Leaves-if (Change s) (ltb (last_seq s.outbox) seq) _ _ (λ e. tt)
      (λ near.
        Leaves-if (Change s) (leb seq (position_of name s)) _ _ (λ e. unchanged s)
          (λ past. save_cursor-Change name seq _ now s (ground arith) (ground arith)))

pub acknowledge-Change :
    (c : Connection) (name : String) (seq : ℕ) (now : Instant) (s : Store)
    → Leaves (Change s) (acknowledge c name seq now s)
unfolding acknowledge
acknowledge-Change c name seq now s = Leaves-require (Change s) (is_name name) _ _ (λ e.
    write-Leaves (Change s) c (acknowledge_work name seq now) s
      (acknowledge_work-Change name seq now s))

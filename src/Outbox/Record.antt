-- ===== src/Outbox/Record.antt =====
-- What writes rows, of radar_v08/adapters/outbox_store.py: `record_event_row`,
-- `record_lifecycle_transition` and `record_handoff`.
use text.Mathlib.Text.{◌==◌ as str_eq}
use crypto_radar.Base.{
  ℕ, ◌+◌, String, Bool, true, false, ◌&&◌, not, Option, none, some, List, [], ◌∷◌, nat_beq,
  if◌then◌else◌,
}
use crypto_radar.Base.Equality.{string_eq}
use crypto_radar.Base.Dict.{lookup, insert}
use crypto_radar.Base.Result.{Result, ok, err, require, ◌>>=◌}
use crypto_radar.Invocation.Lease.{Instant}
use crypto_radar.Invocation.Text.{codes, is_space}
use crypto_radar.Invocation.Identity.{strip_prefix, valid_digest}
use crypto_radar.Invocation.Store.{Connection}
use crypto_radar.Outbox.Text.{is_identifier, is_role, optionally}
use crypto_radar.Outbox.Lifecycle.{LifecycleState, value, check_transition}
use crypto_radar.Outbox.Table.{
  OutboxKind, HandoffType, dispatch, accept, OutboxFailure, event_id, lifecycle_id, handoff_id,
  LifecyclePayload, HandoffPayload, Payload, event_payload, lifecycle_payload, handoff_payload,
  OutboxEntry, LifecycleItem, Store, Work, write, by_delivery, insert_entry,
}

abbrev pub found {ℓ} : {A : Type ℓ} → Option A → OutboxFailure → Result OutboxFailure A
found none e = err e
found (some a) e = ok a

abbrev pub option_eq : Option String → Option String → Bool
option_eq none none = true
option_eq (some a) (some b) = str_eq a b
option_eq _ _ = false

abbrev pub state_of : Option LifecycleItem → Option LifecycleState
state_of none = none
state_of (some row) = some row.state

pub record RecordResult : Type 0 where
  pub entry : OutboxEntry
  pub created : Bool

abbrev kind_is_event : OutboxKind → Bool
kind_is_event OutboxKind.event = true
kind_is_event _ = false

-- `SELECT COUNT(*) … WHERE kind = 'EVENT' AND subject_id = ?`
unfoldable pub event_rows : String → List OutboxEntry → ℕ
event_rows id [] = 0
event_rows id (r ∷ rs) =
    (if kind_is_event r.kind && str_eq r.subject_id id then 1 else 0) + event_rows id rs

-- `record_event_row`, inside the transaction of its caller, which has changed the event's row
unfoldable pub record_event_row : Connection → String → Instant → Work OutboxEntry
record_event_row c id now s = do
  _ ← require c.in_transaction OutboxFailure.no_transaction
  _ ← require (not (str_eq id "")) OutboxFailure.invalid_field
  _ ← require c.migrated OutboxFailure.schema_not_migrated
  row ← found (lookup id s.events) OutboxFailure.unknown_event
  status ← found (lookup "status" row) OutboxFailure.corrupt_row
  _ ← require (not (str_eq status "")) OutboxFailure.corrupt_row
  ok (
      insert_entry (event_id id (event_rows id s.outbox + 1)) OutboxKind.event id (some status) none
        none (event_payload row) now s)

-- `(stored.get("related_id"), stored.get("reason"))`
abbrev details : Payload → Option String × Option String
details (event_payload row) = (lookup "related_id" row, lookup "reason" row)
details (lifecycle_payload p) = (p.related_id, p.reason)
details (handoff_payload p) = (none, some p.reason)

abbrev pub same_details : Payload → Option String → Option String → Bool
same_details p related reason = let (a, b) = details p in option_eq a related && option_eq b reason

-- The move of `record_lifecycle_transition` after its check.
unfoldable pub enter_state :
    String
    → LifecycleState
    → Option LifecycleItem
    → Option String
    → Option String
    → Instant
    → Store
    → OutboxEntry × Store
enter_state item state current related reason now s =
    let entered : Instant = elim current [ none ↦ now | some old ↦ old.entered_at ] in
    let row : LifecycleItem = record { state = state; entered_at = entered; updated_at = now } in
    let payload : LifecyclePayload = record {
      item_id = item;
      state = state;
      previous_state = state_of current;
      at = now;
      related_id = related;
      reason = reason;
    } in
    insert_entry (lifecycle_id item state) OutboxKind.lifecycle item (some (value state)) none none
      (lifecycle_payload payload) now (record s { items = insert item row s.items })

-- The branch of a delivery id that is not recorded yet.
unfoldable pub new_transition :
    String → LifecycleState → Option String → Option String → Instant → Work RecordResult
unfolding enter_state
new_transition item state related reason now s = do
  let current = lookup item s.items
  _ ← require (check_transition (state_of current) state) OutboxFailure.invalid_transition
  let (r, t) = enter_state item state current related reason now s
  ok (record { entry = r; created = true }, t)

-- The branch of one that is.
unfoldable pub old_transition : OutboxEntry → Option String → Option String → Work RecordResult
old_transition old related reason s =
    if same_details old.payload related reason
    then ok (record { entry = old; created = false }, s)
    else err OutboxFailure.delivery_conflict

-- The work of `record_lifecycle_transition`.
unfoldable pub transition_work :
    String → LifecycleState → Option String → Option String → Instant → Work RecordResult
transition_work item state related reason now s =
    elim (by_delivery (lifecycle_id item state) s.outbox) [
      | some old ↦ old_transition old related reason s
      | none ↦ new_transition item state related reason now s
    ]

-- `record_lifecycle_transition`
unfoldable pub record_lifecycle_transition :
    Connection
    → String
    → LifecycleState
    → Option String
    → Option String
    → Instant
    → Work RecordResult
record_lifecycle_transition c item state related reason now s = do
  _ ← require (is_identifier item) OutboxFailure.invalid_field
  _ ← require (optionally is_identifier related) OutboxFailure.invalid_field
  _ ← require (optionally is_role reason) OutboxFailure.invalid_field
  write c (transition_work item state related reason now) s

pub record Handoff : Type 0 where
  pub communication_id : String
  pub run_id : String
  pub opportunity_id : String
  pub sender : Option String
  pub receiver : Option String
  pub handoff_type : HandoffType
  pub reason : String
  pub at : Instant
  pub invocation_id : Option String
  pub evidence_hash : Option String

abbrev all_space : List ℕ → Bool
all_space [] = true
all_space (c ∷ cs) = is_space c && all_space cs

-- `_party`
unfoldable pub party : Option String → Result OutboxFailure String
party none = err OutboxFailure.handoff_without_parties
party (some t) =
    if all_space (codes t)
    then err OutboxFailure.handoff_without_parties
    else if is_role t
    then ok t
    else err OutboxFailure.invalid_field

abbrev pub is_hash : String → Bool
is_hash t = valid_digest (strip_prefix (codes "sha256:") (codes t))

-- `handoff_payload`
unfoldable pub checked_payload : Handoff → Result OutboxFailure HandoffPayload
checked_payload h = do
  sender ← party h.sender
  receiver ← party h.receiver
  _ ← require (not (str_eq sender receiver)) OutboxFailure.handoff_same_party
  _ ← require (is_identifier h.communication_id) OutboxFailure.invalid_field
  _ ← require (is_role h.reason) OutboxFailure.invalid_field
  _ ← require (is_identifier h.run_id) OutboxFailure.invalid_field
  _ ← require (is_identifier h.opportunity_id) OutboxFailure.invalid_field
  _ ← require (optionally is_identifier h.invocation_id) OutboxFailure.invalid_field
  _ ← require (optionally is_hash h.evidence_hash) OutboxFailure.invalid_field
  ok (record {
    id = h.communication_id;
    sender = sender;
    receiver = receiver;
    ts = h.at;
    type = h.handoff_type;
    reason = h.reason;
    run_id = h.run_id;
    opportunity_id = h.opportunity_id;
    invocation_id = h.invocation_id;
    evidence_hash = h.evidence_hash;
  })

abbrev type_eq : HandoffType → HandoffType → Bool
type_eq dispatch dispatch = true
type_eq accept accept = true
type_eq _ _ = false

abbrev handoff_eq : HandoffPayload → HandoffPayload → Bool
handoff_eq a b =
    str_eq a.id b.id
    && str_eq a.sender b.sender
    && str_eq a.receiver b.receiver
    && nat_beq a.ts b.ts
    && type_eq a.type b.type
    && str_eq a.reason b.reason
    && str_eq a.run_id b.run_id
    && str_eq a.opportunity_id b.opportunity_id
    && option_eq a.invocation_id b.invocation_id
    && option_eq a.evidence_hash b.evidence_hash

-- `existing.payload_json == payload_json`
abbrev pub same_payload : Payload → HandoffPayload → Bool
same_payload (handoff_payload p) q = handoff_eq p q
same_payload _ q = false

-- The branch of a handoff that is not recorded yet.
unfoldable pub new_handoff : HandoffPayload → Handoff → Instant → Work RecordResult
new_handoff p h now s =
    let (r, t) =
      insert_entry (handoff_id p.id) OutboxKind.handoff h.opportunity_id none h.sender h.receiver
        (handoff_payload p) now s in
    ok (record { entry = r; created = true }, t)

-- The branch of one that is.
unfoldable pub old_handoff : OutboxEntry → HandoffPayload → Work RecordResult
old_handoff old p s =
    if same_payload old.payload p
    then ok (record { entry = old; created = false }, s)
    else err OutboxFailure.delivery_conflict

-- The work of `record_handoff`.
unfoldable pub handoff_work : HandoffPayload → Handoff → Instant → Work RecordResult
handoff_work p h now s = elim (by_delivery (handoff_id p.id) s.outbox) [
  | some old ↦ old_handoff old p s
  | none ↦ new_handoff p h now s
]

-- `record_handoff`
unfoldable pub record_handoff : Connection → Handoff → Instant → Work RecordResult
record_handoff c h now s = do p ← checked_payload h; write c (handoff_work p h now) s

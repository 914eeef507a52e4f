-- ===== src/Outbox/Table.antt =====
-- The three tables of radar_v08/adapters/outbox_store.py and the transactions on them. A payload is
-- the value that its JSON text stands for; a delivery id is the parts that its text joins by colons,
-- which the text determines, since the part after the last colon holds none.
use text.Mathlib.Text.{◌==◌ as str_eq}
use crypto_radar.Base.{
  ℕ, zero, suc, ◌+◌, String, Bool, false, ◌&&◌, not, Option, none, some, List, [], ◌∷◌, ◌++◌, ltb,
  nat_beq, if◌then◌else◌,
}
use crypto_radar.Base.Dict.{Dict}
use crypto_radar.Base.Result.{Result, ok, err}
use crypto_radar.Invocation.Lease.{Instant}
use crypto_radar.Invocation.Store.{Connection, busy_retry_delays}
use crypto_radar.Outbox.Lifecycle.{LifecycleState, state_eq}

pub data OutboxKind : Type 0 where
  event lifecycle handoff : OutboxKind

pub data HandoffType : Type 0 where
  dispatch accept : HandoffType

pub data OutboxFailure : Type 0 where
  invalid_field invalid_clock invalid_transition handoff_without_parties : OutboxFailure
  handoff_same_party delivery_conflict unknown_event cursor_beyond_outbox : OutboxFailure
  no_transaction open_transaction schema_not_migrated corrupt_row : OutboxFailure
  export_failed busy storage_error : OutboxFailure

-- `event:<event_id>:<n>`, `lifecycle:<item>:<state>` and `handoff:<id>`
pub data DeliveryId : Type 0 where
  event_id : String → ℕ → DeliveryId
  lifecycle_id : String → LifecycleState → DeliveryId
  handoff_id : String → DeliveryId

abbrev pub delivery_eq : DeliveryId → DeliveryId → Bool
delivery_eq (event_id a n) (event_id b m) = str_eq a b && nat_beq n m
delivery_eq (lifecycle_id a s) (lifecycle_id b t) = str_eq a b && state_eq s t
delivery_eq (handoff_id a) (handoff_id b) = str_eq a b
delivery_eq _ _ = false

-- A row of the legacy table `events`: its columns.
abbrev pub EventRow : Type 0
EventRow = Dict String String

pub record LifecyclePayload : Type 0 where
  pub item_id : String
  pub state : LifecycleState
  pub previous_state : Option LifecycleState
  pub at : Instant
  pub related_id : Option String
  pub reason : Option String

pub record HandoffPayload : Type 0 where
  pub id : String
  pub sender : String
  pub receiver : String
  pub ts : Instant
  pub type : HandoffType
  pub reason : String
  pub run_id : String
  pub opportunity_id : String
  pub invocation_id : Option String
  pub evidence_hash : Option String

pub data Payload : Type 0 where
  event_payload : EventRow → Payload
  lifecycle_payload : LifecyclePayload → Payload
  handoff_payload : HandoffPayload → Payload

pub record OutboxEntry : Type 0 where
  pub seq : ℕ
  pub delivery_id : DeliveryId
  pub kind : OutboxKind
  pub subject_id : String
  pub state : Option String
  pub sender : Option String
  pub receiver : Option String
  pub payload : Payload
  pub recorded_at : Instant

-- A row of `lifecycle_items`.
pub record LifecycleItem : Type 0 where
  pub state : LifecycleState
  pub entered_at : Instant
  pub updated_at : Instant

-- A row of `outbox_cursors`.
pub record Cursor : Type 0 where
  pub position : ℕ
  pub byte_offset : Option ℕ
  pub updated_at : Instant

-- The outbox is in the order of its key `seq`.
pub record Store : Type 0 where
  pub outbox : List OutboxEntry
  pub items : Dict String LifecycleItem
  pub cursors : Dict String Cursor
  pub events : Dict String EventRow

abbrev pub Work : Type 0 → Type 0
Work A = Store → Result OutboxFailure (A × Store)

-- The tries of `_write`: one, and one more after each delay.
unfoldable pub tries : {A : Type 0} → List ℕ → ℕ → Result OutboxFailure A → Result OutboxFailure A
tries delays zero work = work
tries [] (suc n) work = err OutboxFailure.busy
tries (d ∷ delays) (suc n) work = tries delays n work

-- `_write`
unfoldable pub write : {A : Type 0} → Connection → Work A → Work A
unfolding tries
write c work s =
    if c.in_transaction
    then err OutboxFailure.open_transaction
    else if not c.migrated
    then err OutboxFailure.schema_not_migrated
    else tries busy_retry_delays c.busy_tries (work s)

-- `_read`, on a connection that is busy or not
unfoldable pub read : {A : Type 0} → Connection → A → Result OutboxFailure A
read c value =
    if not c.migrated
    then err OutboxFailure.schema_not_migrated
    else if ltb 0 c.busy_tries
    then err OutboxFailure.busy
    else ok value

-- `_by_delivery`
unfoldable pub by_delivery : DeliveryId → List OutboxEntry → Option OutboxEntry
by_delivery id [] = none
by_delivery id (r ∷ rs) = if delivery_eq r.delivery_id id then some r else by_delivery id rs

-- `_last_seq`: `MAX(seq)`
unfoldable pub last_seq : List OutboxEntry → ℕ
last_seq [] = 0
last_seq (r ∷ rs) = let rest = last_seq rs in if ltb rest r.seq then r.seq else rest

-- `_entries_after`, before the limit
unfoldable pub entries_after : ℕ → List OutboxEntry → List OutboxEntry
entries_after position [] = []
entries_after position (r ∷ rs) =
    let rest = entries_after position rs in if ltb position r.seq then r ∷ rest else rest

-- `_insert`: the key is the next one, since no row is ever deleted.
unfoldable pub insert_entry :
    DeliveryId
    → OutboxKind
    → String
    → Option String
    → Option String
    → Option String
    → Payload
    → Instant
    → Store
    → OutboxEntry × Store
insert_entry id kind subject state sender receiver payload at s =
    let r : OutboxEntry = record {
      seq = last_seq s.outbox + 1;
      delivery_id = id;
      kind = kind;
      subject_id = subject;
      state = state;
      sender = sender;
      receiver = receiver;
      payload = payload;
      recorded_at = at;
    } in
    (r, record s { outbox = s.outbox ++ r ∷ [] })

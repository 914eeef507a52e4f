-- ===== src/Outbox/Tests.antt =====
-- A work item in the outbox, a handoff, and a consumer.
use crypto_radar.Base.{◌+◌, ◌∷◌, All, ◌≡◌, refl, Bool, true, false, none, some, [], arith, length}
use crypto_radar.Base.Equality.{string_eq}
use crypto_radar.Base.Dict.{lookup, insert}
use crypto_radar.Base.Result.{Result, ok, err}
use crypto_radar.Invocation.Text.{is_space}
use crypto_radar.Invocation.Store.{Connection}
use crypto_radar.Outbox.Text.{is_identifier, is_role, is_name}
use crypto_radar.Outbox.Lifecycle.{queued, running}
use crypto_radar.Outbox.Table.{
  OutboxFailure, HandoffType, Store, tries, write, last_seq, by_delivery, entries_after,
  insert_entry,
}
use crypto_radar.Outbox.Record.{
  state_of, RecordResult, Handoff, record_lifecycle_transition, transition_work, new_transition,
  enter_state, record_handoff, handoff_work, new_handoff, checked_payload, party,
}
use crypto_radar.Outbox.Consumer.{position_of, save_cursor}
use crypto_radar.Outbox.Sound.{IsAddressed}
use crypto_radar.Outbox.Log.{IsNumbered, IsDistinct, replay, IsLegal}
use crypto_radar.Outbox.Export.{
  File, ExportResult, export_jsonl, export_rows, append_file, append_lines, lines_of,
  delivery_ids_in,
}
use crypto_radar.Outbox.Reach.{
  Run, Step, empty, empty-IsSound, Run-IsSound, Extends, items_replay_log, log-IsNumbered,
  handoffs-IsAddressed, Run-Extends,
}
use crypto_radar.Outbox.Reach.Drain.{drain, drain_all}
use crypto_radar.Outbox.Reach.Again.{transition_once}

abbrev ready : Connection
ready = record { in_transaction = false; migrated = true; busy_tries = 0 }

abbrev store_of : {A : Type 0} → Result OutboxFailure (A × Store) → Store
store_of (ok (a, s)) = s
store_of (err e) = empty

abbrev is_ok : {A : Type 0} → Result OutboxFailure (A × Store) → Bool
is_ok (ok x) = true
is_ok (err e) = false

returned :
    {A : Type 0} (m : Result OutboxFailure (A × Store))
    → is_ok m ≡ true
    → (a : A) × (m ≡ ok (a, store_of m))
returned (ok (a, s)) h = (a, refl)
returned (err e) h = ground arith

abbrev admitted : Result OutboxFailure (RecordResult × Store)
admitted = record_lifecycle_transition ready "opp-1" queued none none 1 empty

abbrev started : Result OutboxFailure (RecordResult × Store)
started =
    record_lifecycle_transition ready "opp-1" running none (some "screener") 2 (store_of admitted)

abbrev message : Handoff
message = record {
  communication_id = "m-1";
  run_id = "run-1";
  opportunity_id = "opp-1";
  sender = some "controller";
  receiver = some "screener";
  handoff_type = HandoffType.dispatch;
  reason = "assigned";
  at = 3;
  invocation_id = none;
  evidence_hash = none;
}

abbrev handed : Result OutboxFailure (RecordResult × Store)
handed = record_handoff ready message 3 (store_of started)

admitted_ok : is_ok admitted ≡ true
unfolding lookup insert record_lifecycle_transition transition_work new_transition enter_state
    insert_entry by_delivery last_seq write tries is_identifier is_role record_handoff handoff_work
    new_handoff checked_payload party is_space
admitted_ok = refl

started_ok : is_ok started ≡ true
unfolding lookup insert record_lifecycle_transition transition_work new_transition enter_state
    insert_entry by_delivery last_seq write tries is_identifier is_role record_handoff handoff_work
    new_handoff checked_payload party is_space
started_ok = refl

handed_ok : is_ok handed ≡ true
unfolding lookup insert record_lifecycle_transition transition_work new_transition enter_state
    insert_entry by_delivery last_seq write tries is_identifier is_role record_handoff handoff_work
    new_handoff checked_payload party is_space
handed_ok = refl

after_start : Run empty (store_of started)
after_start =
    let (a, e) = returned admitted admitted_ok in
    let (b, f) = returned started started_ok in
    Run.next (Run.next Run.start (Step.transit ready "opp-1" queued none none 1 a e))
      (Step.transit ready "opp-1" running none (some "screener") 2 b f)

abbrev shipped : Result OutboxFailure ((ExportResult × File) × Store)
shipped =
    export_jsonl (λ r. some ((r.seq + 33) ∷ [])) (λ l. none) ready "jsonl:out" 5 false []
      (store_of handed)

shipped_ok : is_ok shipped ≡ true
unfolding lookup insert record_lifecycle_transition transition_work new_transition enter_state
    insert_entry by_delivery last_seq write tries is_identifier is_role record_handoff handoff_work
    new_handoff checked_payload party is_space export_jsonl export_rows append_file append_lines
    lines_of delivery_ids_in entries_after position_of save_cursor
shipped_ok = refl

to_ship : Run (store_of started) (store_of shipped)
to_ship =
    let (b, e) = returned handed handed_ok in
    let (d, f) = returned shipped shipped_ok in
    Run.next (Run.next Run.start (Step.hand ready message 3 b e))
      (Step.ship (λ r. some ((r.seq + 33) ∷ [])) (λ l. none) ready "jsonl:out" 5 false [] d f)

to_hand : Run (store_of started) (store_of handed)
to_hand =
    let (b, e) = returned handed handed_ok in Run.next Run.start (Step.hand ready message 3 b e)

after_hand : Run empty (store_of handed)
after_hand =
    let (a, e) = returned admitted admitted_ok in
    let (b, f) = returned started started_ok in
    let (d, g) = returned handed handed_ok in Run.next after_start (Step.hand ready message 3 d g)

items_replay_log_example :
    (state_of (lookup "opp-1" (store_of handed).items)
      ≡ replay "opp-1" none (store_of handed).outbox)
    × IsLegal "opp-1" none (store_of handed).outbox
items_replay_log_example = items_replay_log "opp-1" after_hand

log-IsNumbered_example : IsNumbered 0 (store_of handed).outbox × IsDistinct (store_of handed).outbox
log-IsNumbered_example = log-IsNumbered after_hand

handoffs-IsAddressed_example : All (λ r. IsAddressed r.payload) (store_of handed).outbox
handoffs-IsAddressed_example = handoffs-IsAddressed after_hand

Run-Extends_example : Extends (store_of started) (store_of shipped)
Run-Extends_example = Run-Extends to_ship

ui_named : is_name "ui" ≡ true
unfolding is_name is_space
ui_named = refl

three_rows : length (store_of handed).outbox ≡ 3
unfolding lookup insert record_lifecycle_transition transition_work new_transition enter_state
    insert_entry by_delivery last_seq write tries is_identifier is_role record_handoff handoff_work
    new_handoff checked_payload party is_space
three_rows = refl

drain_all_example :
    (t : Store) × (drain ready "ui" 2 9 3 (store_of handed)
      ≡ ok (entries_after (position_of "ui" (store_of handed)) (store_of handed).outbox, t))
    × (entries_after (position_of "ui" t) t.outbox ≡ [])
    × (t.outbox ≡ (store_of handed).outbox)
drain_all_example =
    drain_all ready "ui" 2 9 3 (store_of handed) refl refl refl ui_named refl
      (Run-IsSound empty (store_of handed) empty-IsSound after_hand) (omega (arith, three_rows))

transition_once_example :
    record_lifecycle_transition ready "opp-1" running none (some "screener") 9 (store_of handed)
    ≡ ok
        (record { entry = (returned started started_ok).0.entry; created = false }, store_of handed)
transition_once_example =
    transition_once ready ready "opp-1" running none (some "screener") 2 9 (store_of admitted)
      (store_of started) (store_of handed) (returned started started_ok).0
      (returned started started_ok).1 to_hand refl refl (omega arith)

-- ===== src/Outbox/Export/Tests.antt =====
-- Two rows that are exported twice, to a file whose last line is torn.
use text.Mathlib.Text.{◌==◌ as str_eq}
use text.Mathlib.TextEquality.{eq_iff}
use crypto_radar.Base.{
  ℕ, ◌+◌, ◌-◌, ◌≡◌, refl, arith, true, false, Option, none, some, [], ◌∷◌, length, all, not,
  nat_beq, if◌then◌else◌,
}
use crypto_radar.Base.Dict.{lookup, insert}
use crypto_radar.Base.Result.{Result, ok}
use crypto_radar.Invocation.Store.{Connection}
use crypto_radar.Outbox.Table.{
  OutboxFailure, OutboxKind, OutboxEntry, DeliveryId, event_id, lifecycle_id, handoff_id, Payload,
  Store, write, tries, entries_after,
}
use crypto_radar.Outbox.Consumer.{position_of, save_cursor}
use crypto_radar.Outbox.Export.{
  File, ExportResult, is_blank, export_jsonl, export_rows, append_file, append_lines, lines_of,
  delivery_ids_in,
}
use crypto_radar.Outbox.Export.Written.{IsLine}
use crypto_radar.Outbox.Export.Crash.{export_again}

-- A row of the event is one byte, its number above the blanks.
abbrev encode : DeliveryId → Option File
encode (event_id e n) = if str_eq e "e-1" then some ((n + 33) ∷ []) else none
encode (lifecycle_id e s) = none
encode (handoff_id e) = none

abbrev decode : File → Option DeliveryId
decode (x ∷ []) = some (event_id "e-1" (x - 33))
decode _ = none

abbrev encode_row : OutboxEntry → Option File
encode_row r = encode r.delivery_id

encoded :
    (id : DeliveryId) (l : File)
    → encode id ≡ some l
    → (decode l ≡ some id) × (is_blank l ≡ false) × (all (λ x. not (nat_beq x 10)) l ≡ true)
encoded (event_id e n) l h = ground (arith, eq_iff e "e-1", h)
encoded (lifecycle_id e s) l h = ground arith
encoded (handoff_id e) l h = ground arith

encoded-IsLine : (r : OutboxEntry) (l : File) → encode_row r ≡ some l → IsLine encode_row decode r l
encoded-IsLine r l h =
    let (read, visible, whole) = encoded r.delivery_id l h in
    record { read = read; visible = visible; whole = whole }

abbrev event_row : ℕ → OutboxEntry
event_row n = record {
  seq = n;
  delivery_id = event_id "e-1" n;
  kind = OutboxKind.event;
  subject_id = "e-1";
  state = some "NEW";
  sender = none;
  receiver = none;
  payload = Payload.event_payload [];
  recorded_at = n;
}

abbrev two_rows : Store
two_rows = record { outbox = event_row 1 ∷ event_row 2 ∷ []; items = []; cursors = []; events = [] }

abbrev ready : Connection
ready = record { in_transaction = false; migrated = true; busy_tries = 0 }

abbrev exported : Result OutboxFailure ((ExportResult × File) × Store)
exported = export_jsonl encode_row decode ready "jsonl:out" 7 false (123 ∷ []) two_rows

abbrev both_written : ExportResult
both_written = record { written = 2; already_in_file = 0; position = 2 }

exported_both :
    exported
    ≡ ok (
      (both_written, 123 ∷ 10 ∷ 34 ∷ 10 ∷ 35 ∷ 10 ∷ []),
      save_cursor "jsonl:out" 2 (some 6) 7 two_rows,
    )
unfolding export_jsonl export_rows append_file append_lines lines_of delivery_ids_in write tries
    entries_after position_of lookup save_cursor insert
exported_both = refl

export_again_example :
    (u : Store) × (export_jsonl encode_row decode ready "jsonl:out" 8 false
        (123 ∷ 10 ∷ 34 ∷ 10 ∷ 35 ∷ 10 ∷ [])
        two_rows
      ≡ ok (
        (
          record {
            written = 0;
            already_in_file =
                length (entries_after (position_of "jsonl:out" two_rows) two_rows.outbox);
            position = 2;
          },
          123 ∷ 10 ∷ 34 ∷ 10 ∷ 35 ∷ 10 ∷ [],
        ),
        u,
      ))
unfolding lookup
export_again_example =
    export_again encode_row decode encoded-IsLine ready "jsonl:out" 7 8 (123 ∷ [])
      (123 ∷ 10 ∷ 34 ∷ 10 ∷ 35 ∷ 10 ∷ []) two_rows (save_cursor "jsonl:out" 2 (some 6) 7 two_rows)
      both_written refl refl (omega arith) (omega arith) exported_both

-- ===== src/Outbox/Export/Crash.antt =====
-- An export that wrote its file and lost its cursor, run again.
use mathlib.Core.Path.{subst}
use crypto_radar.Base.{
  ◌≤◌, ◌≡◌, ◌∙◌, sym, arith, String, true, false, Option, some, List, [], ◌∷◌, length,
}
use crypto_radar.Base.Dict.{lookup}
use crypto_radar.Base.Equality.{string_eq}
use crypto_radar.Base.Result.{ok, bind_returned}
use crypto_radar.Invocation.Lease.{Instant}
use crypto_radar.Invocation.Store.{Connection}
use crypto_radar.Outbox.Table.{OutboxEntry, DeliveryId, Store, entries_after}
use crypto_radar.Outbox.Consumer.{position_of, save_cursor}
use crypto_radar.Outbox.Change.Works.{write_ready}
use crypto_radar.Outbox.Export.{
  File, ExportResult, byte_offset_of, last_of, append_file, export_rows, export_jsonl,
}
use crypto_radar.Outbox.Export.Once.{export_once}
use crypto_radar.Outbox.Export.Written.{IsLine}

module _ (line : OutboxEntry → Option File) (read_id : File → Option DeliveryId)
    (lawful : (r : OutboxEntry) (l : File) → line r ≡ some l → IsLine line read_id r l) where
  rows_again :
      (name : String) (now later : Instant) (file left : File) (rs : List OutboxEntry) (s t : Store)
      → (out : ExportResult) → byte_offset_of (lookup name s.cursors) ≤ length file
      → export_rows line read_id name now false file rs s ≡ ok ((out, left), t)
      → (u : Store) × (export_rows line read_id name later false left rs s
          ≡ ok (
            (record { written = 0; already_in_file = length rs; position = out.position }, left),
            u,
          ))
  unfolding export_rows
  rows_again name now later file left [] s t out le h = (s, ground arith)
  rows_again name now later file left (r ∷ rs) s t out le h =
      let offset = byte_offset_of (lookup name s.cursors) in
      let (x, is, at) = bind_returned (append_file line read_id file (r ∷ rs) offset) _ _ h in
      let same : x.0 ≡ left = ground arith in
      let again = export_once line read_id lawful file x.0 (r ∷ rs) offset x.1 x.2 le is in
      (
        save_cursor name (last_of r rs) (some (length left)) later s,
        ground (
          arith,
          subst (λ f. append_file line read_id f (r ∷ rs) offset ≡ ok (f, 0, length (r ∷ rs))) same
              again,
          at,
        ),
      )

  -- An export whose file was written and whose cursor was lost, run again on a ready connection
  -- with the tables as they were, writes no line a second time: it leaves the file as it is, skips
  -- every pending row, and answers the same position. The byte offset of the cursor is within the
  -- file, the line of a row is one visible line, and it is read as the id of the row.
  pub export_again :
      (c : Connection) (name : String) (now later : Instant) (file left : File) (s t : Store)
      (out : ExportResult)
      → c.in_transaction ≡ false
      → c.migrated ≡ true
      → c.busy_tries ≤ 3
      → byte_offset_of (lookup name s.cursors) ≤ length file
      → export_jsonl line read_id c name now false file s ≡ ok ((out, left), t)
      → (u : Store) × (export_jsonl line read_id c name later false left s
          ≡ ok (
            (
              record {
                written = 0;
                already_in_file = length (entries_after (position_of name s) s.outbox);
                position = out.position;
              },
              left,
            ),
            u,
          ))
  unfolding export_jsonl
  export_again c name now later file left s t out closed migrated free le h =
      let (u, is) =
        rows_again name now later file left (entries_after (position_of name s) s.outbox) s t out le
          (sym (write_ready c _ s closed migrated free) ∙ h) in
      (u, write_ready c _ s closed migrated free ∙ is)

-- ===== src/Outbox/Export.antt =====
-- The export of the outbox to a file, of radar_v08/adapters/outbox_store.py: `_delivery_ids_in`,
-- `_append` and `export_jsonl`. A file is its bytes. The JSON text of a row and the reading of a line
-- are parameters; a line is read as the delivery id of the object on it, or not at all.
pub mod Lines
pub mod Written
pub mod Once
pub mod Crash
pub mod Tests
use crypto_radar.Base.{
  ℕ, zero, suc, ◌+◌, String, Bool, true, false, ◌&&◌, ◌||◌, not, Option, none, some, List, [], ◌∷◌,
  ◌++◌, leb, ltb, nat_beq, length, any, if◌then◌else◌,
}
use crypto_radar.Base.Result.{Result, ok, err, ◌>>=◌, require}
use crypto_radar.Base.Dict.{lookup}
use crypto_radar.Base.Equality.{string_eq}
use crypto_radar.Invocation.Lease.{Instant}
use crypto_radar.Invocation.Store.{Connection}
use crypto_radar.Outbox.Table.{
  OutboxFailure, DeliveryId, delivery_eq, OutboxEntry, Store, Cursor, write, entries_after,
  last_seq,
}
use crypto_radar.Outbox.Consumer.{position_of, save_cursor}

abbrev pub File : Type 0
File = List ℕ

pub record ExportResult : Type 0 where
  pub written : ℕ
  pub already_in_file : ℕ
  pub position : ℕ

abbrev pub drop : ℕ → File → File
drop zero xs = xs
drop (suc n) [] = []
drop (suc n) (x ∷ xs) = drop n xs

abbrev put_byte : ℕ → List File → List File
put_byte x [] = (x ∷ []) ∷ []
put_byte x (l ∷ ls) = (x ∷ l) ∷ ls

-- `data.split(b"\n")`
abbrev pub split_lines : File → List File
split_lines [] = [] ∷ []
split_lines (x ∷ xs) =
    let rest = split_lines xs in if nat_beq x 10 then [] ∷ rest else put_byte x rest

-- `not raw.strip()`
abbrev pub is_blank : File → Bool
is_blank [] = true
is_blank (x ∷ xs) = ((leb 9 x && leb x 13) || nat_beq x 32) && is_blank xs

-- The file ends within a line.
abbrev pub is_torn : File → Bool
is_torn [] = false
is_torn (x ∷ []) = not (nat_beq x 10)
is_torn (x ∷ y ∷ xs) = is_torn (y ∷ xs)

-- The file with its last line ended.
abbrev pub whole_lines : File → File
whole_lines file = if is_torn file then file ++ (10 ∷ []) else file

abbrev pub is_in : DeliveryId → List DeliveryId → Bool
is_in id ids = any (λ i. delivery_eq id i) ids

abbrev pub last_of : OutboxEntry → List OutboxEntry → ℕ
last_of r [] = r.seq
last_of r (x ∷ xs) = last_of x xs

abbrev pub byte_offset_of : Option Cursor → ℕ
byte_offset_of none = 0
byte_offset_of (some row) = elim row.byte_offset [ none ↦ 0 | some n ↦ n ]

-- The `export_line` of a row in UTF-8, where the row is not corrupt, and the id on a line.
module _ (line : OutboxEntry → Option File) (read_id : File → Option DeliveryId) where
  abbrev pub add_id : Option DeliveryId → List DeliveryId → List DeliveryId
  add_id none ids = ids
  add_id (some id) ids = id ∷ ids

  abbrev pub ids_of : List File → List DeliveryId
  ids_of [] = []
  ids_of (l ∷ ls) = let rest = ids_of ls in if is_blank l then rest else add_id (read_id l) rest

  -- `_delivery_ids_in`; a file that is missing is empty
  unfoldable pub delivery_ids_in : File → ℕ → List DeliveryId
  delivery_ids_in file offset =
      ids_of (split_lines (drop (if leb offset (length file) then offset else 0) file))

  abbrev pub pair_line : OutboxEntry → Option File → Result OutboxFailure (OutboxEntry × File)
  pair_line r none = err OutboxFailure.corrupt_row
  pair_line r (some l) = ok (r, l)

  -- `[entry.export_line() for entry in entries]`, each with its entry
  unfoldable pub lines_of : List OutboxEntry → Result OutboxFailure (List (OutboxEntry × File))
  lines_of [] = ok []
  lines_of (r ∷ rs) = do x ← pair_line r (line r); xs ← lines_of rs; ok (x ∷ xs)

  -- The loop of `_append`: what it writes, and how many lines it writes and skips.
  unfoldable pub append_lines : List (OutboxEntry × File) → List DeliveryId → File × ℕ × ℕ
  append_lines [] seen = ([], 0, 0)
  append_lines ((r, l) ∷ xs) seen =
      let known = is_in r.delivery_id seen in
      let (body, written, skipped) =
        append_lines xs (if known then seen else r.delivery_id ∷ seen) in
      if known then (body, written, skipped + 1) else (l ++ (10 ∷ body), written + 1, skipped)

  -- `_append`: the file it leaves, and the lines written and skipped
  unfoldable pub append_file : File → List OutboxEntry → ℕ → Result OutboxFailure (File × ℕ × ℕ)
  append_file file entries offset = do
    xs ← lines_of entries
    let (body, written, skipped) = append_lines xs (delivery_ids_in file offset)
    ok (whole_lines file ++ body, written, skipped)

  unfoldable pub export_rows :
      String
      → Instant
      → Bool
      → File
      → List OutboxEntry
      → Store
      → Result OutboxFailure ((ExportResult × File) × Store)
  export_rows name now failing file [] s =
      ok ((record { written = 0; already_in_file = 0; position = position_of name s }, file), s)
  export_rows name now failing file (r ∷ rs) s = do
    (left, written, skipped) ← append_file file (r ∷ rs) (byte_offset_of (lookup name s.cursors))
    _ ← require (not failing) OutboxFailure.export_failed
    let t = save_cursor name (last_of r rs) (some (length left)) now s
    ok ((record { written = written; already_in_file = skipped; position = last_of r rs }, left), t)

  -- `export_jsonl`, on the cursor of a target and its file, where the writing fails or not. It answers
  -- with the file that it leaves; a writing that fails may leave a part of it, which is not modelled.
  unfoldable pub export_jsonl :
      Connection
      → String
      → Instant
      → Bool
      → File
      → Store
      → Result OutboxFailure ((ExportResult × File) × Store)
  export_jsonl c name now failing file s =
      write c
        (λ t. export_rows name now failing file (entries_after (position_of name t) t.outbox) t) s

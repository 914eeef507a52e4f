-- ===== src/Outbox/Consumer.antt =====
-- What reads rows, of radar_v08/adapters/outbox_store.py: `cursor_position`, `read_pending`,
-- `acknowledge`, `load_entries`, `lifecycle_state` and `first_for_subject`.
use text.Mathlib.Text.{◌==◌ as str_eq}
use crypto_radar.Base.{
  ℕ, zero, suc, String, Bool, true, false, ◌&&◌, Option, none, some, List, [], ◌∷◌, ltb, leb,
  if◌then◌else◌,
}
use crypto_radar.Base.Equality.{string_eq}
use crypto_radar.Base.Dict.{lookup, insert}
use crypto_radar.Base.Result.{Result, ok, err, require, ◌>>=◌}
use crypto_radar.Invocation.Lease.{Instant}
use crypto_radar.Invocation.Store.{Connection}
use crypto_radar.Outbox.Text.{is_identifier, is_name}
use crypto_radar.Outbox.Lifecycle.{LifecycleState}
use crypto_radar.Outbox.Record.{state_of}
use crypto_radar.Outbox.Table.{
  OutboxKind, OutboxFailure, OutboxEntry, Cursor, Store, Work, write, read, last_seq, entries_after,
}

abbrev pub take {ℓ} : {A : Type ℓ} → ℕ → List A → List A
take zero xs = []
take (suc n) [] = []
take (suc n) (x ∷ xs) = x ∷ take n xs

-- `_cursor_row`, with no row as position 0
unfoldable pub position_of : String → Store → ℕ
position_of name s = elim (lookup name s.cursors) [ none ↦ 0 | some row ↦ row.position ]

-- `_limit`
abbrev pub valid_limit : ℕ → Bool
valid_limit n = leb 1 n && leb n 10_000

-- `cursor_position`
unfoldable pub cursor_position : Connection → String → Store → Result OutboxFailure ℕ
cursor_position c name s = do
  _ ← require (is_name name) OutboxFailure.invalid_field
  read c (position_of name s)

-- `read_pending`
unfoldable pub read_pending :
    Connection → String → ℕ → Store → Result OutboxFailure (List OutboxEntry)
read_pending c name limit s = do
  _ ← require (is_name name) OutboxFailure.invalid_field
  _ ← require (valid_limit limit) OutboxFailure.invalid_field
  read c (take limit (entries_after (position_of name s) s.outbox))

abbrev pub offset_of : Option Cursor → Option ℕ
offset_of none = none
offset_of (some row) = row.byte_offset

-- `_save_cursor`
unfoldable pub save_cursor : String → ℕ → Option ℕ → Instant → Store → Store
save_cursor name position offset now s = record s {
  cursors =
      insert name (record { position = position; byte_offset = offset; updated_at = now })
        s.cursors;
}

-- The work of `acknowledge`.
unfoldable pub acknowledge_work : String → ℕ → Instant → Work ℕ
acknowledge_work name seq now s =
    if ltb (last_seq s.outbox) seq
    then err OutboxFailure.cursor_beyond_outbox
    else if leb seq (position_of name s)
    then ok (position_of name s, s)
    else ok (seq, save_cursor name seq (offset_of (lookup name s.cursors)) now s)

-- `acknowledge`
unfoldable pub acknowledge : Connection → String → ℕ → Instant → Work ℕ
acknowledge c name seq now s = do
  _ ← require (is_name name) OutboxFailure.invalid_field
  write c (acknowledge_work name seq now) s

abbrev kind_eq : OutboxKind → OutboxKind → Bool
kind_eq OutboxKind.event OutboxKind.event = true
kind_eq OutboxKind.lifecycle OutboxKind.lifecycle = true
kind_eq OutboxKind.handoff OutboxKind.handoff = true
kind_eq _ _ = false

abbrev of_kind : Option OutboxKind → List OutboxEntry → List OutboxEntry
of_kind none rs = rs
of_kind (some k) [] = []
of_kind (some k) (r ∷ rs) =
    let rest = of_kind (some k) rs in if kind_eq r.kind k then r ∷ rest else rest

-- `load_entries`
unfoldable pub load_entries :
    Connection → ℕ → ℕ → Option OutboxKind → Store → Result OutboxFailure (List OutboxEntry)
load_entries c after limit kind s = do
  _ ← require (valid_limit limit) OutboxFailure.invalid_field
  read c (take limit (of_kind kind (entries_after after s.outbox)))

-- `lifecycle_state`
unfoldable pub lifecycle_state :
    Connection → String → Store → Result OutboxFailure (Option LifecycleState)
lifecycle_state c item s = do
  _ ← require (is_identifier item) OutboxFailure.invalid_field
  read c (state_of (lookup item s.items))

abbrev pub first_in : OutboxKind → String → List OutboxEntry → Option OutboxEntry
first_in kind subject [] = none
first_in kind subject (r ∷ rs) =
    if kind_eq r.kind kind && str_eq r.subject_id subject then some r else first_in kind subject rs

-- `first_for_subject`
unfoldable pub first_for_subject :
    Connection → OutboxKind → String → Store → Result OutboxFailure (Option OutboxEntry)
first_for_subject c kind subject s = do
  _ ← require (is_identifier subject) OutboxFailure.invalid_field
  read c (first_in kind subject s.outbox)

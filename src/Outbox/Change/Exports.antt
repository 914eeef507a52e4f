-- ===== src/Outbox/Change/Exports.antt =====
-- `export_jsonl` of radar_v08/adapters/outbox_store.py is a change: it moves one cursor forward.
use crypto_radar.Base.{
  ℕ, ◌≤◌, String, refl, not, Option, some, List, [], ◌∷◌, arith, All, Bool, length,
}
use crypto_radar.Base.Equality.{string_eq}
use crypto_radar.Base.Dict.{lookup}
use crypto_radar.Base.Result.{Leaves, Leaves-bind, Leaves-require}
use crypto_radar.Invocation.Lease.{Instant}
use crypto_radar.Invocation.Store.{Connection}
use crypto_radar.Outbox.Table.{DeliveryId, OutboxEntry, Store, last_seq, entries_after}
use crypto_radar.Outbox.Consumer.{position_of}
use crypto_radar.Outbox.Export.{
  File, last_of, byte_offset_of, append_file, export_rows, export_jsonl,
}
use crypto_radar.Outbox.Change.{Change, read_on}
use crypto_radar.Outbox.Change.Works.{write-Leaves, save_cursor-Change}

-- Rows after a position, and at most at another.
abbrev IsBetween : ℕ → ℕ → OutboxEntry → Type 0
IsBetween low high r = (low ≤ r.seq) × (r.seq ≤ high)

IsBetween-mono :
    (low high top : ℕ) (rs : List OutboxEntry)
    → high ≤ top
    → All (IsBetween low high) rs
    → All (IsBetween low top) rs
IsBetween-mono low high top [] h a = tt
IsBetween-mono low high top (r ∷ rs) h a =
    ((a.0.0, omega (arith, h, a.0.1)), IsBetween-mono low high top rs h a.1)

entries_after-IsBetween :
    (p : ℕ) (rs : List OutboxEntry) → All (IsBetween p (last_seq rs)) (entries_after p rs)
unfolding entries_after last_seq
entries_after-IsBetween p [] = tt
entries_after-IsBetween p (r ∷ rs) = ground (
  arith,
  IsBetween-mono p (last_seq rs) (last_seq (r ∷ rs)) (entries_after p rs) (ground arith)
      (entries_after-IsBetween p rs),
)

last_of-IsBetween :
    (low high : ℕ) (r : OutboxEntry) (rs : List OutboxEntry)
    → All (IsBetween low high) (r ∷ rs)
    → (low ≤ last_of r rs) × (last_of r rs ≤ high)
last_of-IsBetween low high r [] h = h.0
last_of-IsBetween low high r (x ∷ rs) h = last_of-IsBetween low high x rs h.1

module _ (line : OutboxEntry → Option File) (read_id : File → Option DeliveryId) where
  export_rows-Change :
      (name : String) (now : Instant) (failing : Bool) (file : File) (rs : List OutboxEntry)
      (s : Store)
      → All (IsBetween (position_of name s) (last_seq s.outbox)) rs
      → Leaves (Change s) (export_rows line read_id name now failing file rs s)
  unfolding export_rows
  export_rows-Change name now failing file [] s h =
      read_on refl refl (λ other. (omega arith, λ q. q))
  export_rows-Change name now failing file (r ∷ rs) s h =
      let (low, high) = last_of-IsBetween _ _ r rs h in
      Leaves-bind (Change s)
        (append_file line read_id file (r ∷ rs) (byte_offset_of (lookup name s.cursors))) _
        (λ x e.
          Leaves-require (Change s) (not failing) _ _
            (λ e'. save_cursor-Change name (last_of r rs) (some (length x.0)) now s high low))

  pub export_jsonl-Change :
      (c : Connection) (name : String) (now : Instant) (failing : Bool) (file : File) (s : Store)
      → Leaves (Change s) (export_jsonl line read_id c name now failing file s)
  unfolding export_jsonl
  export_jsonl-Change c name now failing file s = write-Leaves (Change s) c _ s (
      export_rows-Change name now failing file (entries_after (position_of name s) s.outbox) s
        (entries_after-IsBetween (position_of name s) s.outbox))

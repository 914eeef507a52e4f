-- ===== src/Outbox/Change.antt =====
-- The changes that a transaction of radar_v08/adapters/outbox_store.py makes, seen from outside.
pub mod Sound
pub mod Works
pub mod Exports
use crypto_radar.Base.{
  ℕ, ◌+◌, ◌≤◌, String, ◌≡◌, refl, true, false, Option, none, some, List, [], ◌∷◌, ◌++◌,
}
use crypto_radar.Base.Equality.{string_eq}
use crypto_radar.Base.Dict.{lookup, insert}
use crypto_radar.Outbox.Lifecycle.{check_transition}
use crypto_radar.Outbox.Table.{
  OutboxKind, event_id, lifecycle_id, handoff_id, EventRow, LifecyclePayload, HandoffPayload,
  event_payload, lifecycle_payload, handoff_payload, OutboxEntry, LifecycleItem, Store, last_seq,
  by_delivery,
}
use crypto_radar.Outbox.Record.{event_rows, state_of}
use crypto_radar.Outbox.Consumer.{position_of}
use crypto_radar.Outbox.Sound.{IsAddressed}

-- One row more at the end of the outbox, under the next key.
pub record Appends (s s' : Store) (r : OutboxEntry) : Type 0 where
  pub outbox : s'.outbox ≡ s.outbox ++ r ∷ []
  pub seq : r.seq ≡ last_seq s.outbox + 1
  pub cursors : s'.cursors ≡ s.cursors

pub data Change (s s' : Store) : Type 0 where
  -- the log and the items stay; a cursor may go forward, up to the last row
  read_on :
      s'.outbox ≡ s.outbox
      → s'.items ≡ s.items
      → ((name : String)
          → (position_of name s ≤ position_of name s')
            × (position_of name s ≤ last_seq s.outbox → position_of name s' ≤ last_seq s.outbox))
      → Change s s'
  noted :
      (r : OutboxEntry) (e : String) (row : EventRow)
      → Appends s s' r
      → r.delivery_id ≡ event_id e (event_rows e s.outbox + 1)
      → r.kind ≡ OutboxKind.event
      → r.subject_id ≡ e
      → r.payload ≡ event_payload row
      → s'.items ≡ s.items
      → Change s s'
  handed :
      (r : OutboxEntry) (p : HandoffPayload)
      → Appends s s' r
      → r.delivery_id ≡ handoff_id p.id
      → by_delivery r.delivery_id s.outbox ≡ none
      → r.kind ≡ OutboxKind.handoff
      → r.payload ≡ handoff_payload p
      → IsAddressed (handoff_payload p)
      → s'.items ≡ s.items
      → Change s s'
  entered :
      (r : OutboxEntry) (p : LifecyclePayload) (row : LifecycleItem)
      → Appends s s' r
      → r.delivery_id ≡ lifecycle_id p.item_id p.state
      → by_delivery r.delivery_id s.outbox ≡ none
      → r.kind ≡ OutboxKind.lifecycle
      → r.payload ≡ lifecycle_payload p
      → p.previous_state ≡ state_of (lookup p.item_id s.items)
      → check_transition (state_of (lookup p.item_id s.items)) p.state ≡ true
      → row.state ≡ p.state
      → s'.items ≡ insert p.item_id row s.items
      → Change s s'

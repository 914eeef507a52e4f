-- ===== src/Outbox/Sound.antt =====
-- The invariant of the tables of radar_v08/adapters/outbox_store.py, as predicates.
use text.Mathlib.Text.{◌==◌ as str_eq}
use crypto_radar.Base.{ℕ, ◌≤◌, String, ◌≡◌, true, false, none, All}
use crypto_radar.Base.Equality.{string_eq}
use crypto_radar.Base.Dict.{lookup}
use crypto_radar.Outbox.Text.{is_role}
use crypto_radar.Outbox.Table.{
  DeliveryId, event_id, lifecycle_id, handoff_id, Payload, event_payload, lifecycle_payload,
  handoff_payload, Store, last_seq,
}
use crypto_radar.Outbox.Record.{event_rows, state_of}
use crypto_radar.Outbox.Consumer.{position_of}
use crypto_radar.Outbox.Log.{IsNumbered, IsDistinct, replay, IsLegal}

-- The number in an event's delivery id is at most the number of its rows.
abbrev pub IsCounted : String → ℕ → DeliveryId → Type 0
IsCounted e n (event_id a m) = str_eq a e ≡ true → m ≤ n
IsCounted e n (lifecycle_id a t) = Unit
IsCounted e n (handoff_id a) = Unit

-- A handoff has two different parties, each named by a role.
abbrev pub IsAddressed : Payload → Type 0
IsAddressed (event_payload row) = Unit
IsAddressed (lifecycle_payload p) = Unit
IsAddressed (handoff_payload p) =
    (is_role p.sender ≡ true) × (is_role p.receiver ≡ true) × (str_eq p.sender p.receiver ≡ false)

pub record IsSound (s : Store) : Type 0 where
  pub numbered : IsNumbered 0 s.outbox
  pub distinct : IsDistinct s.outbox
  pub counted : (e : String) → All (λ r. IsCounted e (event_rows e s.outbox) r.delivery_id) s.outbox
  pub addressed : All (λ r. IsAddressed r.payload) s.outbox
  pub replayed : (item : String) → state_of (lookup item s.items) ≡ replay item none s.outbox
  pub legal : (item : String) → IsLegal item none s.outbox
  pub known : (name : String) → position_of name s ≤ last_seq s.outbox

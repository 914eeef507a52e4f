-- ===== src/Invocation/Recovery.antt =====
-- `recover_expired` of radar_v08/adapters/invocation_store.py: the take-over of expired leases.
use crypto_radar.Base.{
  ℕ, zero, suc, ◌+◌, String, ◌&&◌, none, some, List, [], ◌∷◌, leb, nat_beq, if◌then◌else◌,
}
use crypto_radar.Base.Equality.{string_eq}
use crypto_radar.Base.Dict.{values, lookup, insert}
use crypto_radar.Base.Order.{Key, sort_by}
use crypto_radar.Invocation.Text.{codes, valid_text}
use crypto_radar.Invocation.Identity.{identity_equality}
use crypto_radar.Invocation.Lease.{
  Instant, is_active, InvocationFailure, ok, err, ◌>>=◌, require, lease_expiry, Lease,
  InvocationRecord, window_equality,
}
use crypto_radar.Invocation.Store.{Work, Connection, write}

-- The rows that `recover_expired` selects, in its order, before the limit.
unfoldable pub expired_rows : Instant → List InvocationRecord → List InvocationRecord
expired_rows now [] = []
expired_rows now (r ∷ rs) =
    let rest = expired_rows now rs in
    if is_active r.state && leb r.lease_expires_at now then r ∷ rest else rest

abbrev expiry_key : InvocationRecord → Key
expiry_key r = r.lease_expires_at ∷ codes r.invocation_id

abbrev take {ℓ} : {A : Type ℓ} → ℕ → List A → List A
take zero xs = []
take (suc n) [] = []
take (suc n) (x ∷ xs) = x ∷ take n xs

abbrev pub taken_over : String → Instant → Instant → InvocationRecord → InvocationRecord
taken_over owner now expires r = record r {
  generation = r.generation + 1;
  lease_owner = owner;
  lease_expires_at = expires;
  updated_at = now;
}

-- One update of `recover_expired`; it repeats the generation that was read.
unfoldable pub take_one : String → Instant → Instant → InvocationRecord → Work Lease
take_one owner now expires r s = elim (lookup r.invocation_id s.invocations) [
  | none ↦ err InvocationFailure.storage_error
  | some row ↦
      if nat_beq row.generation r.generation && is_active row.state
      then (let lease : Lease = record {
        invocation_id = r.invocation_id;
        generation = r.generation + 1;
        owner = owner;
        expires_at = expires;
      } in
          let row' = taken_over owner now expires row in
          ok (lease, record s { invocations = insert r.invocation_id row' s.invocations }))
      else err InvocationFailure.storage_error
]

-- The loop of `recover_expired`.
unfoldable pub take_over : String → Instant → Instant → List InvocationRecord → Work (List Lease)
take_over owner now expires [] s = ok ([], s)
take_over owner now expires (r ∷ rs) s = do
  (lease, s') ← take_one owner now expires r s
  (leases, s'') ← take_over owner now expires rs s'
  ok (lease ∷ leases, s'')

abbrev pub recovery_work : String → Instant → Instant → ℕ → Work (List Lease)
recovery_work owner now expires limit s =
    take_over owner now expires
      (take limit (sort_by expiry_key (expired_rows now (values s.invocations)))) s

-- `recover_expired`
unfoldable pub recover_expired : Connection → String → Instant → ℕ → ℕ → Work (List Lease)
recover_expired c owner now lease_seconds limit s = do
  expires ← lease_expiry now lease_seconds
  _ ← require (valid_text owner) InvocationFailure.invalid_field
  _ ← require (leb 1 limit && leb limit 1_000) InvocationFailure.invalid_field
  write c (recovery_work owner now expires limit) s

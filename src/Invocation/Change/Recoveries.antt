-- ===== src/Invocation/Change/Recoveries.antt =====
-- A take-over as a row of changes.
use crypto_radar.Base.{
  ℕ, ◌+◌, String, ◌≡◌, refl, List, [], ◌∷◌, true, ◌&&◌, arith, leb, Option-cases, Bool-cases, inl,
  inr, nat_beq,
}
use crypto_radar.Base.Equality.{string_eq}
use crypto_radar.Base.Dict.{lookup, insert}
use crypto_radar.Invocation.Lease.{
  is_active, Instant, InvocationFailure, ok, err, ModelBudget, InvocationRecord, Lease,
  lease_expiry,
}
use crypto_radar.Invocation.Text.{valid_text}
use crypto_radar.Invocation.Store.{Store, Connection}
use crypto_radar.Invocation.Recovery.{
  take_one, take_over, taken_over, recovery_work, recover_expired,
}
use crypto_radar.Invocation.Change.{Follows, Change, touch, Changes, done, after, Leaves}
use crypto_radar.Invocation.Change.Claims.{
  write-Leaves, require-Leaves, bind-Leaves, Leaves-of_eq, Leaves_at,
}

module _ (limits : String → ModelBudget) where
  taken_over-Follows :
      (owner : String) (now expires : Instant) (r : InvocationRecord)
      → is_active r.state ≡ true
      → Follows r (taken_over owner now expires r)
  taken_over-Follows owner now expires r active = record {
    same_id = refl;
    same_identity = refl;
    same_model = refl;
    generations = omega arith;
    attempts = omega arith;
    same_owner = λ e. ground arith;
    same_expiry = λ e. ground arith;
    final = λ e. ground arith;
  }

  take_one-Change :
      (owner : String) (now expires : Instant) (r : InvocationRecord) (s : Store)
      → Leaves (Change limits s) (take_one owner now expires r s)
  unfolding take_one
  take_one-Change owner now expires r s =
      elim (Option-cases (lookup r.invocation_id s.invocations)) [
        | inl missing ↦
            Leaves-of_eq (Change limits s) {m' = err InvocationFailure.storage_error} (ground arith)
              tt
        | inr (row, found) ↦
            elim (Bool-cases (nat_beq row.generation r.generation && is_active row.state)) [
              | inl same ↦
                  let row' = taken_over owner now expires row in
                  let s' : Store = record s {
                    invocations = insert r.invocation_id row' s.invocations;
                  } in
                  let lease : Lease = record {
                    invocation_id = r.invocation_id;
                    generation = r.generation + 1;
                    owner = owner;
                    expires_at = expires;
                  } in
                  Leaves-of_eq (Change limits s) {m' = ok (lease, s')} (ground arith) (
                    touch r.invocation_id row row' found (ground arith)
                      (taken_over-Follows owner now expires row (ground arith)) refl refl refl)
              | inr other ↦
                  Leaves-of_eq (Change limits s) {m' = err InvocationFailure.storage_error}
                    (ground arith) tt
            ]
      ]

  pub Changes-join :
      (s s' s'' : Store) → Changes limits s s' → Changes limits s' s'' → Changes limits s s''
  Changes-join s s' s'' cs done = cs
  Changes-join s s' s'' cs (after ds c) = after (Changes-join _ _ _ cs ds) c

  take_over-Changes :
      (owner : String) (now expires : Instant) (rs : List InvocationRecord) (s : Store)
      → Leaves (Changes limits s) (take_over owner now expires rs s)
  unfolding take_over
  take_over-Changes owner now expires [] s = done
  take_over-Changes owner now expires (r ∷ rs) s =
      bind-Leaves (Changes limits s) (take_one owner now expires r s) _ (λ x e.
        bind-Leaves (Changes limits s) (take_over owner now expires rs x.1) _ (λ y e'.
          Changes-join s x.1 y.1
            (after done (Leaves_at (Change limits s) x e (take_one-Change owner now expires r s)))
            (Leaves_at (Changes limits x.1) y e' (take_over-Changes owner now expires rs x.1))))

  pub recover_expired-Changes :
      (c : Connection) (owner : String) (now : Instant) (lease_seconds limit : ℕ) (s : Store)
      → Leaves (Changes limits s) (recover_expired c owner now lease_seconds limit s)
  unfolding recover_expired
  recover_expired-Changes c owner now lease_seconds limit s =
      bind-Leaves (Changes limits s) (lease_expiry now lease_seconds) _ (λ expires e.
        require-Leaves (Changes limits s) (valid_text owner) _ _ (λ v.
          require-Leaves (Changes limits s) (leb 1 limit && leb limit 1_000) _ _ (λ v'.
            write-Leaves (Changes limits s) c (recovery_work owner now expires limit) s
              (take_over-Changes owner now expires _ s))))

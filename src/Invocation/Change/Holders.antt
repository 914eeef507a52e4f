-- ===== src/Invocation/Change/Holders.antt =====
-- The actions of a holder as changes.
use crypto_radar.Base.{
  String, ◌≡◌, refl, true, Option, none, some, arith, Option-cases, Bool-cases, inl, inr,
}
use crypto_radar.Base.Equality.{◌==◌, string_eq}
use crypto_radar.Base.Dict.{lookup, insert}
use crypto_radar.Invocation.Lease.{
  InvocationState, completed, released, ReleaseReason, is_active, Instant, ok, ModelBudget,
  InvocationRecord, TransitionStatus, Transition, Lease, refusal_reason, budget_windows,
  fence_status,
}
use crypto_radar.Invocation.Store.{Store, reserve, usage_of, Work, Connection}
use crypto_radar.Invocation.Holder.{
  fenced_update, outcome, act_on, holder_work, paid_attempt, attempt_work, record_attempt,
  complete_invocation, release_invocation, ended, counted, count_attempt, more_attempts, finish,
}
use crypto_radar.Invocation.Change.{Follows, Change, keep, touch, bill, Leaves}
use crypto_radar.Invocation.Change.Claims.{write-Leaves, require-Leaves, bind-Leaves, Leaves-of_eq}
use text.Mathlib.TextEquality.{eq_iff}

module _ (limits : String → ModelBudget) where
  fenced_update_lem :
      (lease : Lease) (change : InvocationRecord → InvocationRecord) (r : InvocationRecord)
      (s s' : Store)
      → lookup lease.invocation_id s.invocations ≡ some r
      → fenced_update lease change s ≡ ok (tt, s')
      → (is_active r.state ≡ true)
        × (s'.invocations ≡ insert lease.invocation_id (change r) s.invocations)
        × (s'.budget ≡ s.budget)
  unfolding fenced_update
  fenced_update_lem lease change r s s' found h = ground arith

  counted-Follows :
      (now : Instant) (r : InvocationRecord) → is_active r.state ≡ true → Follows r (counted now r)
  counted-Follows now r active = record {
    same_id = refl;
    same_identity = refl;
    same_model = refl;
    generations = omega arith;
    attempts = omega arith;
    same_owner = λ e. refl;
    same_expiry = λ e. refl;
    final = λ e. ground arith;
  }

  first_attempt-Change :
      (lease : Lease) (now : Instant) (r : InvocationRecord) (s : Store)
      → r.attempt_count ≡ 0
      → lookup lease.invocation_id s.invocations ≡ some r
      → Leaves (Change limits s) (count_attempt lease now r s)
  first_attempt-Change lease now r s first found =
      bind-Leaves (Change limits s) (fenced_update lease (counted now) s) _ (λ x e.
        let (active, rows, budget) =
          fenced_update_lem lease (counted now) r s x.1 found (ground arith) in
        touch lease.invocation_id r (counted now r) found active (counted-Follows now r active)
          (ground arith) rows budget)

  next_attempt-Change :
      (lease : Lease) (b : ModelBudget) (now : Instant) (r : InvocationRecord) (s : Store)
      → b ≡ limits b.model
      → r.model ≡ b.model
      → more_attempts r.attempt_count ≡ true
      → lookup lease.invocation_id s.invocations ≡ some r
      → refusal_reason (usage_of b (budget_windows now) s) ≡ none
      → Leaves
          (Change limits s)
          (count_attempt lease now r (reserve r.model (budget_windows now) s))
  unfolding reserve
  next_attempt-Change lease b now r s own model more found open_ =
      bind-Leaves (Change limits s)
        (fenced_update lease (counted now) (reserve r.model (budget_windows now) s)) _
        (λ x e.
          let (active, rows, budget) =
            fenced_update_lem lease (counted now) r (reserve r.model (budget_windows now) s) x.1
              found (ground arith) in
          bill lease.invocation_id r (counted now r) b (budget_windows now) own model found active
            (counted-Follows now r active) (ground arith) open_ rows (rw (← model) budget))

  paid_attempt-Change :
      (lease : Lease) (b : ModelBudget) (now : Instant) (r : InvocationRecord) (s : Store)
      → b ≡ limits b.model
      → r.model ≡ b.model
      → lookup lease.invocation_id s.invocations ≡ some r
      → Leaves (Change limits s) (paid_attempt lease b now r s)
  unfolding paid_attempt
  paid_attempt-Change lease b now r s own model found =
      elim (Bool-cases (more_attempts r.attempt_count)) [
        | inl more ↦ elim (Option-cases (refusal_reason (usage_of b (budget_windows now) s))) [
          | inl open_ ↦
              Leaves-of_eq (Change limits s)
                {m' = count_attempt lease now r (reserve r.model (budget_windows now) s)}
                (ground arith) (next_attempt-Change lease b now r s own model more found open_)
          | inr (reason, closed) ↦
              Leaves-of_eq (Change limits s)
                {m' = ok (
                  outcome TransitionStatus.budget_exhausted r.invocation_id (some r.attempt_count),
                  s,
                )}
                (ground arith) (keep refl refl)
        ]
        | inr first ↦
            Leaves-of_eq (Change limits s) {m' = count_attempt lease now r s} (ground arith)
              (first_attempt-Change lease now r s (ground arith) found)
      ]

  act_on-Change :
      (status : TransitionStatus) (r : InvocationRecord)
      (apply : InvocationRecord → Work Transition) (s : Store)
      → Leaves (Change limits s) (apply r s)
      → Leaves (Change limits s) (act_on status r apply s)
  act_on-Change TransitionStatus.applied r apply s h = h
  act_on-Change TransitionStatus.fenced r apply s h = keep refl refl
  act_on-Change TransitionStatus.lease_expired r apply s h = keep refl refl
  act_on-Change TransitionStatus.not_active r apply s h = keep refl refl
  act_on-Change TransitionStatus.not_found r apply s h = keep refl refl
  act_on-Change TransitionStatus.budget_exhausted r apply s h = keep refl refl

  -- An action behind the fence changes what its work changes, or nothing.
  holder_work-Change :
      (lease : Lease) (now : Instant) (apply : InvocationRecord → Work Transition) (s : Store)
      → ((r : InvocationRecord)
          → lookup lease.invocation_id s.invocations ≡ some r
          → Leaves (Change limits s) (apply r s))
      → Leaves (Change limits s) (holder_work lease now apply s)
  unfolding holder_work
  holder_work-Change lease now apply s h =
      elim (Option-cases (lookup lease.invocation_id s.invocations)) [
        | inl missing ↦
            Leaves-of_eq (Change limits s)
              {m' = ok (outcome TransitionStatus.not_found lease.invocation_id none, s)}
              (ground arith) (keep refl refl)
        | inr (r, found) ↦
            Leaves-of_eq (Change limits s) {m' = act_on (fence_status (some r) lease now) r apply s}
              (ground arith) (act_on-Change (fence_status (some r) lease now) r apply s (h r found))
      ]

  pub record_attempt-Change :
      (c : Connection) (lease : Lease) (b : ModelBudget) (now : Instant) (s : Store)
      → b ≡ limits b.model
      → Leaves (Change limits s) (record_attempt c lease b now s)
  unfolding record_attempt attempt_work
  record_attempt-Change c lease b now s own =
      write-Leaves (Change limits s) c (holder_work lease now (attempt_work lease b now)) s (
        holder_work-Change lease now (attempt_work lease b now) s (λ r found.
          require-Leaves (Change limits s) (r.model == b.model) _ _ (λ same.
            paid_attempt-Change lease b now r s own (ground (arith, eq_iff r.model b.model))
              found)))

  ended-Follows :
      (state : InvocationState) (reason : Option ReleaseReason) (now : Instant)
      (r : InvocationRecord)
      → is_active r.state ≡ true
      → Follows r (ended state reason now r)
  ended-Follows state reason now r active = record {
    same_id = refl;
    same_identity = refl;
    same_model = refl;
    generations = omega arith;
    attempts = omega arith;
    same_owner = λ e. refl;
    same_expiry = λ e. refl;
    final = λ e. ground arith;
  }

  finish-Change :
      (lease : Lease) (state : InvocationState) (reason : Option ReleaseReason) (now : Instant)
      → (r : InvocationRecord) (s : Store) → lookup lease.invocation_id s.invocations ≡ some r
      → Leaves (Change limits s) (finish lease (ended state reason now) r s)
  finish-Change lease state reason now r s found =
      bind-Leaves (Change limits s) (fenced_update lease (ended state reason now) s) _ (λ x e.
        let (active, rows, budget) =
          fenced_update_lem lease (ended state reason now) r s x.1 found (ground arith) in
        touch lease.invocation_id r (ended state reason now r) found active
          (ended-Follows state reason now r active) refl rows budget)

  pub complete-Change :
      (c : Connection) (lease : Lease) (now : Instant) (s : Store)
      → Leaves (Change limits s) (complete_invocation c lease now s)
  unfolding complete_invocation
  complete-Change c lease now s =
      write-Leaves (Change limits s) c
        (holder_work lease now (finish lease (ended completed none now))) s
        (holder_work-Change lease now (finish lease (ended completed none now)) s
          (λ r found. finish-Change lease completed none now r s found))

  pub release-Change :
      (c : Connection) (lease : Lease) (reason : ReleaseReason) (now : Instant) (s : Store)
      → Leaves (Change limits s) (release_invocation c lease reason now s)
  unfolding release_invocation
  release-Change c lease reason now s =
      write-Leaves (Change limits s) c
        (holder_work lease now (finish lease (ended released (some reason) now))) s
        (holder_work-Change lease now (finish lease (ended released (some reason) now)) s
          (λ r found. finish-Change lease released (some reason) now r s found))

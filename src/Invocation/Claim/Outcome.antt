-- ===== src/Invocation/Claim/Outcome.antt =====
-- What a claim answers, and what it does to the tables with each answer.
use crypto_radar.Base.{
  ◌+◌, String, ◌≡◌, refl, sym, true, none, some, arith, Option-cases, Bool-cases, inl, inr, ◌||◌,
  if◌then◌else◌,
}
use crypto_radar.Base.Equality.{◌==◌, string_eq}
use crypto_radar.Base.Dict.{Dict, values, lookup, insert, lookup-insert}
use crypto_radar.Invocation.Text.{valid_text}
use crypto_radar.Invocation.Lease.{
  Instant, Result, ok, err, RefusalReason, ModelBudget, Lease, InvocationRecord, ClaimResult, won,
  duplicate, refused, refusal_reason, budget_windows, WindowKey, window_equality, window_eq_iff,
}
use crypto_radar.Invocation.Store.{
  Store, reserved, usage_of, observe, observe_refused, observe_one, refuse_one, reserve, hour_key,
  day_key, Demand,
}
use crypto_radar.Invocation.Sound.Spend.{reserved-reserve_iff}
use crypto_radar.Invocation.Claim.{
  Request, find_active, claimed_row, claim_work, claim_new, win_claim, refuse_claim, repeat_claim,
  insert_row,
}
use text.Mathlib.TextEquality.{eq_iff}
use mathlib.Core.Path.{subst}

-- A predicate of the answer of a call that does not raise.
abbrev pub Answers {ℓ} : {A : Type ℓ} → (A → Store → Type 0) → Result (A × Store) → Type 0
Answers P (ok (a, s')) = P a s'
Answers P (err e) = ⊥

-- The demand row of a window, once there, is there after each count.
abbrev Has : WindowKey → Dict WindowKey Demand → Type 0
Has k d = (row : Demand) × (lookup k d ≡ some row)

observe_one-Has : (k : WindowKey) (d : Dict WindowKey Demand) → Has k (observe_one k d)
observe_one-Has k d = elim (Option-cases (lookup k d)) [
  | inl new ↦ (
    record { observed = 1; refused = 0 },
    ground (arith, lookup-insert k k (record { observed = 1; refused = 0 }) d, window_eq_iff k k),
  )
  | inr (row, old) ↦ (
    record row { observed = row.observed + 1 },
    ground (
      arith,
      lookup-insert k k (record row { observed = row.observed + 1 }) d,
      window_eq_iff k k,
    ),
  )
]

insert-Has :
    (k j : WindowKey) (row : Demand) (d : Dict WindowKey Demand) → Has j d → Has j (insert k row d)
insert-Has k j row d (old, h) = elim (Bool-cases (k == j)) [
  | inl same ↦ (row, ground (arith, lookup-insert k j row d))
  | inr other ↦ (old, ground (arith, lookup-insert k j row d))
]

keeps-Has : (k j : WindowKey) (d : Dict WindowKey Demand) → Has j d → Has j (observe_one k d)
keeps-Has k j d h = elim (Option-cases (lookup k d)) [
  | inl new ↦ rw (new, observe_one) (insert-Has k j _ d h)
  | inr (row, old) ↦ rw (old, observe_one) (insert-Has k j _ d h)
]

refuse_one_lem :
    (k j : WindowKey) (d : Dict WindowKey Demand)
    → Has k d
    → Has j d
    → (d' : Dict WindowKey Demand) × (refuse_one k d ≡ ok d') × Has j d'
refuse_one_lem k j d (row, h) h' =
    (insert k (record row { refused = row.refused + 1 }) d, ground arith, insert-Has k j _ d h')

module _ (q : Request) (b : ModelBudget) (owner : String) (now expires : Instant) (id : String)
    (s : Store) where
  -- The answer says what was found, and the tables say what was done.
  abbrev pub IsOutcome : ClaimResult → Store → Type 0
  IsOutcome (won lease usage) s' =
      (find_active q.identity (values s.invocations) ≡ none)
      × (refusal_reason (usage_of b (budget_windows now) s) ≡ none)
      × (lookup id s'.invocations ≡ some (claimed_row id q owner now expires))
      × ((k : WindowKey)
          → reserved k s'.budget
            ≡ reserved k s.budget
              + (if hour_key q.model (budget_windows now) == k
                    || day_key q.model (budget_windows now) == k
                  then 1
                  else 0))
      × (lease ≡ record { invocation_id = id; generation = 1; owner = owner; expires_at = expires })
  IsOutcome (duplicate id' n) s' =
      (r : InvocationRecord) × (find_active q.identity (values s.invocations) ≡ some r)
      × (id' ≡ r.invocation_id)
      × (lookup id' s'.invocations ≡ some (record r { demand_count = n; updated_at = now }))
      × (n ≡ r.demand_count + 1)
      × (s'.budget ≡ s.budget)
  IsOutcome (refused reason usage) s' =
      (find_active q.identity (values s.invocations) ≡ none)
      × (refusal_reason (usage_of b (budget_windows now) s) ≡ some reason)
      × (s'.invocations ≡ s.invocations)
      × (s'.budget ≡ s.budget)

  Answers-of_eq :
      {m m' : Result (ClaimResult × Store)} → m ≡ m' → Answers IsOutcome m' → Answers IsOutcome m
  Answers-of_eq e h = subst (Answers IsOutcome) (sym e) h

  -- The demand that the claim has just counted is there for the refusal to count.
  refusal_counted :
      (s' : Store) × (observe_refused q.model
          (budget_windows now)
          (observe q.model (budget_windows now) s)
        ≡ ok s')
      × (s'.invocations ≡ s.invocations)
      × (s'.budget ≡ s.budget)
  unfolding observe_refused observe
  refusal_counted =
      let w = budget_windows now in
      let k = hour_key q.model w in
      let j = day_key q.model w in
      let hourly = observe_one k s.demand in
      let (d, e, has) =
        refuse_one_lem k j (observe_one j hourly)
          (keeps-Has j k hourly (observe_one-Has k s.demand)) (observe_one-Has j hourly) in
      let (d', e', _) = refuse_one_lem j j d has has in
      (record s { demand = d' }, ground arith, refl, refl)

  abbrev s1 : Store
  s1 = observe q.model (budget_windows now) s

  refuse-IsOutcome :
      (reason : RefusalReason)
      → find_active q.identity (values s.invocations) ≡ none
      → refusal_reason (usage_of b (budget_windows now) s) ≡ some reason
      → Answers IsOutcome (refuse_claim q b now reason s1)
  unfolding refuse_claim
  refuse-IsOutcome reason fresh closed =
      let (s', e, rows, budget) = refusal_counted in
      Answers-of_eq {m' = ok (refused reason (usage_of b (budget_windows now) s1), s')}
        (ground arith) (fresh, closed, rows, budget)

  win-IsOutcome :
      find_active q.identity (values s.invocations) ≡ none
      → refusal_reason (usage_of b (budget_windows now) s) ≡ none
      → valid_text id ≡ true
      → lookup id s.invocations ≡ none
      → Answers IsOutcome (win_claim q b owner now expires id s1)
  unfolding win_claim insert_row observe reserve
  win-IsOutcome fresh open_ named new =
      let s2 = reserve q.model (budget_windows now) s1 in
      let r = claimed_row id q owner now expires in
      let s3 : Store = record s2 { invocations = insert id r s.invocations } in
      let lease : Lease = record {
        invocation_id = id;
        generation = 1;
        owner = owner;
        expires_at = expires;
      } in
      Answers-of_eq {m' = ok (won lease (usage_of b (budget_windows now) s3), s3)} (ground arith) (
        fresh,
        open_,
        ground (arith, lookup-insert id id r s.invocations, eq_iff id id),
        (λ k. reserved-reserve_iff k q.model (budget_windows now) s1),
        refl,
      )

  repeat-IsOutcome :
      (r : InvocationRecord)
      → find_active q.identity (values s.invocations) ≡ some r
      → Answers IsOutcome (repeat_claim now r s1)
  unfolding repeat_claim observe
  repeat-IsOutcome r found = (
    r,
    found,
    refl,
    ground (
      arith,
      lookup-insert r.invocation_id r.invocation_id
          (record r { demand_count = r.demand_count + 1; updated_at = now }) s.invocations,
      eq_iff r.invocation_id r.invocation_id,
    ),
    refl,
    refl,
  )

  pub work-IsOutcome :
      valid_text id ≡ true
      → lookup id s.invocations ≡ none
      → Answers IsOutcome (claim_work q b owner now expires id s)
  unfolding claim_work claim_new observe usage_of
  work-IsOutcome named new = elim (Option-cases (find_active q.identity (values s.invocations))) [
    | inl fresh ↦ elim (Option-cases (refusal_reason (usage_of b (budget_windows now) s))) [
      | inl open_ ↦
          Answers-of_eq {m' = win_claim q b owner now expires id s1} (ground arith)
            (win-IsOutcome fresh open_ named new)
      | inr (reason, closed) ↦
          Answers-of_eq {m' = refuse_claim q b now reason s1} (ground arith)
            (refuse-IsOutcome reason fresh closed)
    ]
    | inr (r, found) ↦
        Answers-of_eq {m' = repeat_claim now r s1} (ground arith) (repeat-IsOutcome r found)
  ]

-- ===== src/Invocation/Change/Claims.antt =====
-- `claim_invocation` as a row of changes.
use crypto_radar.Base.{
  ℕ, String, ◌≡◌, refl, Bool, List, not, suc, zero, sym, true, false, none, some, ◌∷◌, [], arith,
  if◌then◌else◌, Option-cases, inl, inr,
}
use crypto_radar.Base.Equality.{◌==◌, string_eq}
use crypto_radar.Base.Dict.{values, lookup, insert}
use crypto_radar.Invocation.Lease.{
  is_active, Instant, BudgetWindows, InvocationFailure, open_transaction, schema_not_migrated,
  RefusalReason, Result, ok, err, ModelBudget, InvocationRecord, refusal_reason, budget_windows,
  ClaimResult, lease_expiry, ◌>>=◌, require,
}
use crypto_radar.Invocation.Text.{valid_text}
use crypto_radar.Invocation.Store.{
  Store, reserve, usage_of, observe, observe_refused, write, tries, busy_retry_delays, Work,
  Connection,
}
use crypto_radar.Invocation.Claim.{
  Request, claim_invocation, claim_work, claim_new, win_claim, refuse_claim, repeat_claim,
  insert_row, claimed_row, find_active,
}
use crypto_radar.Invocation.Sound.{IsTable}
use crypto_radar.Invocation.Sound.Rows.{active_row}
use crypto_radar.Invocation.Change.{Change, keep, create, touch, Changes, done, after, Leaves}
use text.Mathlib.TextEquality.{eq_iff}
use mathlib.Core.Path.{subst}

-- What a transaction's work leaves, `write` leaves.
tries_lem :
    {A : Type 0} (P : Store → Type 0) (delays : List ℕ) (busy : ℕ) (m : Result (A × Store))
    → Leaves P m
    → Leaves P (tries delays busy m)
unfolding tries
tries_lem P delays zero m h = h
tries_lem P [] (suc busy) m h = tt
tries_lem P (d ∷ delays) (suc busy) m h = tries_lem P delays busy m h

pub cond-Leaves :
    {A : Type 0} (P : Store → Type 0) (b : Bool) (m m' : Result (A × Store))
    → (b ≡ true → Leaves P m)
    → (b ≡ false → Leaves P m')
    → Leaves P (if b then m else m')
cond-Leaves P true m m' h h' = h refl
cond-Leaves P false m m' h h' = h' refl

pub write-Leaves :
    {A : Type 0} (P : Store → Type 0) (c : Connection) (work : Work A) (s : Store)
    → Leaves P (work s)
    → Leaves P (write c work s)
unfolding write
write-Leaves P c work s h =
    cond-Leaves P c.in_transaction (err open_transaction)
      (if not c.migrated
        then err schema_not_migrated
        else tries busy_retry_delays c.busy_tries (work s))
      (λ e. tt)
      (λ e.
        cond-Leaves P (not c.migrated) (err schema_not_migrated)
          (tries busy_retry_delays c.busy_tries (work s)) (λ e'. tt)
          (λ e'. tries_lem P busy_retry_delays c.busy_tries (work s) h))

pub require-Leaves :
    {A : Type 0} (P : Store → Type 0) (b : Bool) (e : InvocationFailure) (m : Result (A × Store))
    → (b ≡ true → Leaves P m)
    → Leaves P (require b e >>= (λ _. m))
require-Leaves P true e m h = h refl
require-Leaves P false e m h = tt

pub Leaves-of_eq :
    {A : Type 0} (P : Store → Type 0) {m m' : Result (A × Store)}
    → m ≡ m'
    → Leaves P m'
    → Leaves P m
Leaves-of_eq P e h = subst (Leaves P) (sym e) h

pub Leaves_at :
    {A : Type 0} (P : Store → Type 0) (x : A × Store) {m : Result (A × Store)}
    → m ≡ ok x
    → Leaves P m
    → P x.1
Leaves_at P x e h = subst (Leaves P) e h

pub Leaves-map :
    {A : Type 0} (P Q : Store → Type 0) (m : Result (A × Store))
    → ((s' : Store) → P s' → Q s')
    → Leaves P m
    → Leaves Q m
Leaves-map P Q (ok (a, s')) f h = f s' h
Leaves-map P Q (err e) f h = tt

pub bind-Leaves :
    {A B : Type 0} (P : Store → Type 0) (r : Result B) (f : B → Result (A × Store))
    → ((x : B) → r ≡ ok x → Leaves P (f x))
    → Leaves P (r >>= f)
bind-Leaves P (ok x) f h = h x refl
bind-Leaves P (err e) f h = tt

module _ (limits : String → ModelBudget) where
  observe_refused_lem :
      (model : String) (w : BudgetWindows) (s s' : Store)
      → observe_refused model w s ≡ ok s'
      → (s'.invocations ≡ s.invocations) × (s'.budget ≡ s.budget)
  unfolding observe_refused
  observe_refused_lem model w s s' h = ground arith

  refuse_claim-Change :
      (q : Request) (b : ModelBudget) (now : Instant) (reason : RefusalReason) (s : Store)
      → Leaves (Change limits s) (refuse_claim q b now reason s)
  unfolding refuse_claim
  refuse_claim-Change q b now reason s =
      bind-Leaves (Change limits s) (observe_refused q.model (budget_windows now) s) _
        (λ s' e. let (i, u) = observe_refused_lem q.model (budget_windows now) s s' e in keep i u)

  insert_row_lem :
      (r : InvocationRecord) (s s' : Store)
      → insert_row r s ≡ ok (tt, s')
      → (lookup r.invocation_id s.invocations ≡ none)
        × (s'.invocations ≡ insert r.invocation_id r s.invocations)
        × (s'.budget ≡ s.budget)
  unfolding insert_row
  insert_row_lem r s s' h = ground arith

  win_claim-Change :
      (q : Request) (b : ModelBudget) (owner : String) (now expires : Instant) (id : String)
      (s : Store)
      → b ≡ limits b.model
      → q.model ≡ b.model
      → find_active q.identity (values s.invocations) ≡ none
      → refusal_reason (usage_of b (budget_windows now) s) ≡ none
      → Leaves (Change limits s) (win_claim q b owner now expires id s)
  unfolding win_claim reserve
  win_claim-Change q b owner now expires id s own model fresh open_ =
      require-Leaves (Change limits s) (valid_text id) _ _ (λ v.
        bind-Leaves (Change limits s)
          (insert_row (claimed_row id q owner now expires) (reserve q.model (budget_windows now) s))
          _
          (λ x e.
            let r = claimed_row id q owner now expires in
            let (new, rows, budget) =
              insert_row_lem r (reserve q.model (budget_windows now) s) x.1 (ground arith) in
            create r b (budget_windows now) own model refl new fresh open_ rows
              (rw (← model) budget)))

  claim_new-Change :
      (q : Request) (b : ModelBudget) (owner : String) (now expires : Instant) (id : String)
      (s : Store)
      → b ≡ limits b.model
      → q.model ≡ b.model
      → find_active q.identity (values s.invocations) ≡ none
      → Leaves (Change limits s) (claim_new q b owner now expires id s)
  unfolding claim_new
  claim_new-Change q b owner now expires id s own model fresh =
      elim (Option-cases (refusal_reason (usage_of b (budget_windows now) s))) [
        | inl open_ ↦
            Leaves-of_eq (Change limits s) {m' = win_claim q b owner now expires id s}
              (ground arith) (win_claim-Change q b owner now expires id s own model fresh open_)
        | inr (reason, closed) ↦
            Leaves-of_eq (Change limits s) {m' = refuse_claim q b now reason s} (ground arith)
              (refuse_claim-Change q b now reason s)
      ]

  repeat_claim-Change :
      (now : Instant) (r : InvocationRecord) (s : Store)
      → lookup r.invocation_id s.invocations ≡ some r
      → is_active r.state ≡ true
      → Leaves (Change limits s) (repeat_claim now r s)
  unfolding repeat_claim
  repeat_claim-Change now r s found active =
      touch r.invocation_id r _ found active
        (record {
          same_id = refl;
          same_identity = refl;
          same_model = refl;
          generations = omega arith;
          attempts = omega arith;
          same_owner = λ e. refl;
          same_expiry = λ e. refl;
          final = λ e. ground arith;
        })
        refl refl refl

  -- What is a change of the tables with the demand counted is one of the tables before.
  after_observe :
      (model : String) (w : BudgetWindows) (s : Store) (m : Result (ClaimResult × Store))
      → Leaves (Change limits (observe model w s)) m
      → Leaves (Changes limits s) m
  unfolding observe
  after_observe model w s m h =
      Leaves-map (Change limits (observe model w s)) (Changes limits s) m
        (λ s' c. after (after done (keep refl refl)) c) h

  claim_work-Changes :
      (q : Request) (b : ModelBudget) (owner : String) (now expires : Instant) (id : String)
      (s : Store)
      → b ≡ limits b.model
      → q.model ≡ b.model
      → IsTable s.invocations
      → Leaves (Changes limits s) (claim_work q b owner now expires id s)
  unfolding claim_work observe
  claim_work-Changes q b owner now expires id s own model h =
      let s1 = observe q.model (budget_windows now) s in
      elim (Option-cases (find_active q.identity (values s.invocations))) [
        | inl fresh ↦
            Leaves-of_eq (Changes limits s) {m' = claim_new q b owner now expires id s1}
              (ground arith)
              (after_observe q.model (budget_windows now) s _
                (claim_new-Change q b owner now expires id s1 own model fresh))
        | inr (r, found) ↦
            let (there_is, active, same) = active_row q.identity s.invocations h found in
            Leaves-of_eq (Changes limits s) {m' = repeat_claim now r s1} (ground arith) (
              after_observe q.model (budget_windows now) s _
                (repeat_claim-Change now r s1 there_is active))
      ]

  -- A claim against the model's own budget is a row of changes.
  pub claim_invocation-Changes :
      (c : Connection) (q : Request) (b : ModelBudget) (owner : String) (now : Instant)
      → (lease_seconds : ℕ) (id : String) (s : Store) → b ≡ limits b.model
      → IsTable s.invocations
      → Leaves (Changes limits s) (claim_invocation c q b owner now lease_seconds id s)
  unfolding claim_invocation
  claim_invocation-Changes c q b owner now lease_seconds id s own h =
      require-Leaves (Changes limits s) (b.model == q.model) _ _ (λ same.
        bind-Leaves (Changes limits s) (lease_expiry now lease_seconds) _ (λ expires e.
          require-Leaves (Changes limits s) (valid_text owner) _ _ (λ v.
            write-Leaves (Changes limits s) c (claim_work q b owner now expires id) s (
              claim_work-Changes q b owner now expires id s own
                (ground (arith, eq_iff b.model q.model)) h))))

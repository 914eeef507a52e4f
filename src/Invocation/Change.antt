-- ===== src/Invocation/Change.antt =====
-- The changes that a transaction of adapters/invocation_store.py is made of, seen from outside: a
-- row is created and paid for, or an active row goes on, with or without one more unit.
pub mod Sound
pub mod Claims
pub mod Holders
pub mod Recoveries
use crypto_radar.Base.{ℕ, ◌+◌, ◌≤◌, String, ◌≡◌, refl, true, false, none, some, arith}
use crypto_radar.Base.Equality.{string_eq}
use crypto_radar.Base.Dict.{values, lookup, insert}
use crypto_radar.Invocation.Lease.{
  Result, ok, err, is_active, ModelBudget, InvocationRecord, BudgetWindows, refusal_reason,
}
use crypto_radar.Invocation.Store.{Store, usage_of, reserve}
use crypto_radar.Invocation.Claim.{find_active}
use crypto_radar.Invocation.Sound.{paid}

-- How a row may go on: it keeps its identity, its generation and its attempts only rise, the holder
-- changes with the generation alone, and an ended row stays as it is.
pub record Follows (r r' : InvocationRecord) : Type 0 where
  pub same_id : r'.invocation_id ≡ r.invocation_id
  pub same_identity : r'.identity ≡ r.identity
  pub same_model : r'.model ≡ r.model
  pub generations : r.generation ≤ r'.generation
  pub attempts : r.attempt_count ≤ r'.attempt_count
  pub same_owner : r.generation ≡ r'.generation → r'.lease_owner ≡ r.lease_owner
  pub same_expiry : r.generation ≡ r'.generation → r'.lease_expires_at ≡ r.lease_expires_at
  pub final : is_active r.state ≡ false → r' ≡ r

pub Follows-refl : (r : InvocationRecord) → Follows r r
Follows-refl r = record {
  same_id = refl;
  same_identity = refl;
  same_model = refl;
  generations = omega arith;
  attempts = omega arith;
  same_owner = λ e. refl;
  same_expiry = λ e. refl;
  final = λ e. refl;
}

pub Follows-trans : (r r' r'' : InvocationRecord) → Follows r r' → Follows r' r'' → Follows r r''
Follows-trans r r' r'' f g = record {
  same_id = ground (arith, f.same_id, g.same_id);
  same_identity = ground (arith, f.same_identity, g.same_identity);
  same_model = ground (arith, f.same_model, g.same_model);
  generations = omega (arith, f.generations, g.generations);
  attempts = omega (arith, f.attempts, g.attempts);
  same_owner = λ e. ground (arith, f.same_owner, g.same_owner, f.generations, g.generations);
  same_expiry = λ e. ground (arith, f.same_expiry, g.same_expiry, f.generations, g.generations);
  final = λ e. ground (arith, f.final e, g.final);
}

pub data Change (limits : String → ModelBudget) (s s' : Store) : Type 0 where
  keep : s'.invocations ≡ s.invocations → s'.budget ≡ s.budget → Change limits s s'
  create :
      (r : InvocationRecord) (b : ModelBudget) (w : BudgetWindows)
      → b ≡ limits b.model
      → r.model ≡ b.model
      → r.attempt_count ≡ 0
      → lookup r.invocation_id s.invocations ≡ none
      → find_active r.identity (values s.invocations) ≡ none
      → refusal_reason (usage_of b w s) ≡ none
      → s'.invocations ≡ insert r.invocation_id r s.invocations
      → s'.budget ≡ (reserve b.model w s).budget
      → Change limits s s'
  touch :
      (id : String) (r r' : InvocationRecord)
      → lookup id s.invocations ≡ some r
      → is_active r.state ≡ true
      → Follows r r'
      → paid r'.attempt_count ≡ paid r.attempt_count
      → s'.invocations ≡ insert id r' s.invocations
      → s'.budget ≡ s.budget
      → Change limits s s'
  bill :
      (id : String) (r r' : InvocationRecord) (b : ModelBudget) (w : BudgetWindows)
      → b ≡ limits b.model
      → r.model ≡ b.model
      → lookup id s.invocations ≡ some r
      → is_active r.state ≡ true
      → Follows r r'
      → paid r'.attempt_count ≡ paid r.attempt_count + 1
      → refusal_reason (usage_of b w s) ≡ none
      → s'.invocations ≡ insert id r' s.invocations
      → s'.budget ≡ (reserve b.model w s).budget
      → Change limits s s'

-- Some changes in a row.
pub data Changes (limits : String → ModelBudget) (s : Store) : Store → Type 0 where
  done : Changes limits s s
  after : {s' s'' : Store} → Changes limits s s' → Change limits s' s'' → Changes limits s s''

-- A predicate of the tables that a call leaves, if it does not raise.
abbrev pub Leaves {ℓ} : {A : Type ℓ} → (Store → Type 0) → Result (A × Store) → Type 0
Leaves P (ok (a, s')) = P s'
Leaves P (err e) = Unit

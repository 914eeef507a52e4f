-- ===== src/Invocation/Reach.antt =====
-- The tables of adapters/invocation_store.py under calls in any order.
pub mod Final
use crypto_radar.Base.{ℕ, ◌≤◌, String, ◌≡◌, refl, List, [], true, some, none, arith}
use crypto_radar.Base.Equality.{string_eq}
use crypto_radar.Base.Dict.{lookup}
use crypto_radar.Base.Dict.Total.{total}
use crypto_radar.Invocation.Lease.{
  Instant, Result, ok, ModelBudget, InvocationRecord, ReleaseReason, Transition, Lease, ClaimResult,
  WindowKind, hour, day, WindowKey, window_equality, is_active,
}
use crypto_radar.Invocation.Store.{Store, Connection, reserved}
use crypto_radar.Invocation.Claim.{Request, claim_invocation}
use crypto_radar.Invocation.Holder.{record_attempt, complete_invocation, release_invocation}
use crypto_radar.Invocation.Recovery.{recover_expired}
use crypto_radar.Invocation.Sound.{IsSound, spent, owed}
use crypto_radar.Invocation.Change.{Change, Changes, done, after}
use crypto_radar.Invocation.Change.Sound.{Changes-IsSound}
use crypto_radar.Invocation.Change.Claims.{claim_invocation-Changes, Leaves_at}
use crypto_radar.Invocation.Change.Holders.{record_attempt-Change, complete-Change, release-Change}
use crypto_radar.Invocation.Change.Recoveries.{recover_expired-Changes, Changes-join}

abbrev pub empty : Store
empty = record { invocations = []; budget = []; demand = [] }

-- One call that returns. A model is always called with its own budget.
pub data Step (limits : String → ModelBudget) (s s' : Store) : Type 0 where
  claim :
      (c : Connection) (q : Request) (b : ModelBudget) (owner : String) (now : Instant)
      → (lease_seconds : ℕ) (id : String) (out : ClaimResult) → b ≡ limits b.model
      → claim_invocation c q b owner now lease_seconds id s ≡ ok (out, s')
      → Step limits s s'
  attempt :
      (c : Connection) (lease : Lease) (b : ModelBudget) (now : Instant) (out : Transition)
      → b ≡ limits b.model
      → record_attempt c lease b now s ≡ ok (out, s')
      → Step limits s s'
  complete :
      (c : Connection) (lease : Lease) (now : Instant) (out : Transition)
      → complete_invocation c lease now s ≡ ok (out, s')
      → Step limits s s'
  release :
      (c : Connection) (lease : Lease) (reason : ReleaseReason) (now : Instant) (out : Transition)
      → release_invocation c lease reason now s ≡ ok (out, s')
      → Step limits s s'
  recover :
      (c : Connection) (owner : String) (now : Instant) (lease_seconds limit : ℕ) (out : List Lease)
      → recover_expired c owner now lease_seconds limit s ≡ ok (out, s')
      → Step limits s s'

-- Calls in a row.
pub data Run (limits : String → ModelBudget) (s : Store) : Store → Type 0 where
  start : Run limits s s
  next : {s' s'' : Store} → Run limits s s' → Step limits s' s'' → Run limits s s''

module _ (limits : String → ModelBudget) where
  Step-Changes : {s s' : Store} → Step limits s s' → IsSound limits s → Changes limits s s'
  Step-Changes {s} {s'} (claim c q b owner now secs id out own e) h =
      Leaves_at (Changes limits s) (out, s') e
        (claim_invocation-Changes limits c q b owner now secs id s own h.table)
  Step-Changes {s} {s'} (attempt c lease b now out own e) h =
      after done
        (Leaves_at (Change limits s) (out, s') e (record_attempt-Change limits c lease b now s own))
  Step-Changes {s} {s'} (complete c lease now out e) h =
      after done (Leaves_at (Change limits s) (out, s') e (complete-Change limits c lease now s))
  Step-Changes {s} {s'} (release c lease reason now out e) h =
      after done
        (Leaves_at (Change limits s) (out, s') e (release-Change limits c lease reason now s))
  Step-Changes {s} {s'} (recover c owner now secs limit out e) h =
      Leaves_at (Changes limits s) (out, s') e
        (recover_expired-Changes limits c owner now secs limit s)

  pub Run-Changes : {s s' : Store} → IsSound limits s → Run limits s s' → Changes limits s s'
  Run-Changes h start = done
  Run-Changes {s} h (next {s'} {s''} r step) =
      let cs = Run-Changes h r in
      Changes-join limits s s' s'' cs (Step-Changes step (Changes-IsSound limits cs h))

  pub empty-IsSound : IsSound limits empty
  unfolding lookup reserved
  empty-IsSound = record {
    table = record {
      unique = tt;
      keyed = λ id r h. ground arith;
      exclusive = λ id id' r r' h. ground arith;
    };
    within = record { hourly = λ m t. omega arith; daily = λ m t. omega arith };
    balanced = λ m k. refl;
  }

  pub Run-IsSound : {s : Store} → Run limits empty s → IsSound limits s
  Run-IsSound r = Changes-IsSound limits (Run-Changes empty-IsSound r) empty-IsSound

-- At any moment of any sequence of calls, two active rows of the same identity are one row: no
-- piece of model work is claimed twice at once.
pub claimed_once :
    {limits : String → ModelBudget} {s : Store} (id id' : String) (r r' : InvocationRecord)
    → Run limits empty s
    → lookup id s.invocations ≡ some r
    → lookup id' s.invocations ≡ some r'
    → is_active r.state ≡ true
    → is_active r'.state ≡ true
    → r.identity ≡ r'.identity
    → id ≡ id'
claimed_once {limits} id id' r r' run = (Run-IsSound limits run).table.exclusive id id' r r'

-- After any sequence of calls, each made with its model's own budget, no hour and no day of any
-- model has more reserved units than that budget allows.
pub within_limits :
    {limits : String → ModelBudget} {s : Store} (m : String) (t : Instant)
    → Run limits empty s
    → (reserved (record { model = m; kind = hour; start = t }) s.budget ≤ (limits m).hourly_limit)
      × (reserved (record { model = m; kind = day; start = t }) s.budget ≤ (limits m).daily_limit)
within_limits {limits} m t run =
    let w = (Run-IsSound limits run).within in (w.hourly m t, w.daily m t)

-- After any sequence of calls, each made with its model's own budget, the units a model has
-- reserved over all its windows of a kind are one for each of its rows' attempts, and one for each
-- row that has made none.
pub attempts_paid :
    {limits : String → ModelBudget} {s : Store} (m : String) (k : WindowKind)
    → Run limits empty s
    → spent m k s.budget ≡ total (owed m) s.invocations
attempts_paid {limits} m k run = (Run-IsSound limits run).balanced m k

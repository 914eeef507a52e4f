-- ===== src/Invocation/Reach/Final.antt =====
-- What a row and a lease become under later calls.
use crypto_radar.Base.{◌<◌, String, ◌≡◌, ◌≢◌, some, false, arith}
use crypto_radar.Base.Equality.{string_eq}
use crypto_radar.Base.Dict.{lookup}
use crypto_radar.Invocation.Lease.{
  Instant, ModelBudget, InvocationRecord, Lease, TransitionStatus, is_active, fence_status,
}
use crypto_radar.Invocation.Store.{Store}
use crypto_radar.Invocation.Change.Sound.{Changes-GoesOn}
use crypto_radar.Invocation.Reach.{Run, Run-Changes}
use crypto_radar.Invocation.Sound.{IsSound}

-- From sound tables, a row that is completed or released stands unchanged after any sequence of
-- later calls.
pub ended_final :
    {limits : String → ModelBudget} {s s' : Store} (id : String) (r : InvocationRecord)
    → IsSound limits s
    → Run limits s s'
    → lookup id s.invocations ≡ some r
    → is_active r.state ≡ false
    → lookup id s'.invocations ≡ some r
ended_final {limits} id r h run found over =
    let (r', found', f) = Changes-GoesOn limits id r (Run-Changes limits h run) found in
    ground (arith, f.final over)

-- From sound tables, once a row has a later generation than a lease of it, no sequence of later
-- calls brings the lease back: the fence refuses it at any moment.
pub lost_lease :
    {limits : String → ModelBudget} {s s' : Store} (lease : Lease) (r : InvocationRecord)
    (now : Instant)
    → IsSound limits s
    → Run limits s s'
    → lookup lease.invocation_id s.invocations ≡ some r
    → lease.generation < r.generation
    → fence_status (lookup lease.invocation_id s'.invocations) lease now ≢ TransitionStatus.applied
unfolding fence_status
lost_lease {limits} {s} {s'} lease r now h run found old =
    let (r', found', f) =
      Changes-GoesOn limits lease.invocation_id r (Run-Changes limits h run) found in
    ground (arith, f.generations)

-- ===== src/Invocation/Store/Ready.antt =====
-- A connection on which `_write` of adapters/invocation_store.py gets its transaction.
use crypto_radar.Base.{ℕ, zero, suc, ◌≤◌, ◌≡◌, refl, true, false, List, [], ◌∷◌, length, arith}
use crypto_radar.Invocation.Lease.{Result}
use crypto_radar.Invocation.Store.{Store, Work, Connection, write, tries, busy_retry_delays}

-- No transaction is open, the database is migrated, and it is busy on no more tries than there are
-- delays.
pub record IsReady (c : Connection) : Type 0 where
  pub closed : c.in_transaction ≡ false
  pub migrated : c.migrated ≡ true
  pub free : c.busy_tries ≤ 3

tries_free :
    {A : Type 0} (delays : List ℕ) (busy : ℕ) (m : Result A)
    → busy ≤ length delays
    → tries delays busy m ≡ m
unfolding tries
tries_free delays zero m h = refl
tries_free [] (suc busy) m h = ground arith
tries_free (d ∷ delays) (suc busy) m h = tries_free delays busy m (omega (arith, h))

pub write_ready :
    {A : Type 0} (c : Connection) (work : Work A) (s : Store) → IsReady c → write c work s ≡ work s
unfolding write
write_ready c work s h =
    ground (arith, h.closed, h.migrated, tries_free busy_retry_delays c.busy_tries (work s) h.free)

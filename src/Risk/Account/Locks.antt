-- ===== src/Risk/Account/Locks.antt =====
-- The loss locks of radar_v08/domain/risk.py and the admission they close.
use crypto_radar.Base.{ℕ, ◌≡◌, ◌≢◌, ◌⊎◌, ◌||◌, inl, inr, arith, Bool, true, none, List}
use crypto_radar.Base.Result.{ok}
use crypto_radar.Decimal.{half_even, Decimal, IsOrder, IsMonotone}
use crypto_radar.Risk.Envelope.{
  Envelope, LockKind, daily_loss, drawdown, Asked, holds, admission_refusal, percent_of,
}
use crypto_radar.Risk.Account.{daily_lock_tripped, drawdown_lock_tripped, tripped_locks}

module _ {D : Type 0} (num : Decimal D) (order : IsOrder num) (mono : IsMonotone num) where
  daily_lower :
      (e : Envelope D) (equity lower day_start : D)
      → num.leb lower equity ≡ true
      → daily_lock_tripped num e equity day_start ≡ ok true
      → daily_lock_tripped num e lower day_start ≡ ok true
  unfolding daily_lock_tripped
  daily_lower e equity lower day_start le h = ground (
    arith,
    mono.minus_left lower equity day_start le,
    order.trans (num.minus half_even lower day_start) (num.minus half_even equity day_start)
        (num.opposite half_even (percent_of num day_start e.daily_loss_pct)),
  )

  drawdown_lower :
      (e : Envelope D) (equity lower high_water : D)
      → num.leb lower equity ≡ true
      → drawdown_lock_tripped num e equity high_water ≡ ok true
      → drawdown_lock_tripped num e lower high_water ≡ ok true
  unfolding drawdown_lock_tripped
  drawdown_lower e equity lower high_water le h = ground (
    arith,
    order.trans lower equity (
        num.times half_even high_water
          (num.minus half_even (num.whole 1) (num.over half_even e.drawdown_pct (num.whole 100)))),
  )

  -- An equity that trips a lock.
  abbrev pub Trips : Envelope D → D → D → D → Type 0
  Trips e equity day_start high_water =
      (daily_lock_tripped num e equity day_start ≡ ok true)
      ⊎ (drawdown_lock_tripped num e equity high_water ≡ ok true)

  tripped_listed :
      (e : Envelope D) (equity day_start high_water : D) (locks : List LockKind)
      → Trips e equity day_start high_water
      → tripped_locks num e equity day_start high_water ≡ ok locks
      → (holds daily_loss locks || holds drawdown locks) ≡ true
  unfolding tripped_locks
  tripped_listed e equity day_start high_water locks (inl h) is = ground arith
  tripped_listed e equity day_start high_water locks (inr h) is = ground arith

  Trips-lower :
      (e : Envelope D) (equity lower day_start high_water : D)
      → num.leb lower equity ≡ true
      → Trips e equity day_start high_water
      → Trips e lower day_start high_water
  Trips-lower e equity lower day_start high_water le (inl h) =
      inl (daily_lower e equity lower day_start le h)
  Trips-lower e equity lower day_start high_water le (inr h) =
      inr (drawdown_lower e equity lower high_water le h)

  locked_out :
      (e : Envelope D) (direction : Asked) (kill : Bool) (locks : List LockKind) (positions : ℕ)
      → (holds daily_loss locks || holds drawdown locks) ≡ true
      → admission_refusal num e direction kill locks positions ≢ none
  unfolding admission_refusal
  locked_out e direction kill locks positions h is = ground arith

  -- Where an equity trips a loss lock, every equity that is not higher trips one as well, at the
  -- same day start and high-water mark, and with the locks reported there no entry is admitted. The
  -- order of decimals is transitive and the rounded difference keeps it.
  pub fall-locks :
      (e : Envelope D) (equity lower day_start high_water : D) (locks : List LockKind)
      → (direction : Asked) (kill : Bool) (positions : ℕ) → Trips e equity day_start high_water
      → num.leb lower equity ≡ true
      → tripped_locks num e lower day_start high_water ≡ ok locks
      → admission_refusal num e direction kill locks positions ≢ none
  fall-locks e equity lower day_start high_water locks direction kill positions trips le is =
      locked_out e direction kill locks positions (
        tripped_listed e lower day_start high_water locks
          (Trips-lower e equity lower day_start high_water le trips) is)

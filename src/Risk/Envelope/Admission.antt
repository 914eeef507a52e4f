-- ===== src/Risk/Envelope/Admission.antt =====
-- When an entry is admitted under an envelope of radar_v08/domain/risk.py.
use crypto_radar.Base.{ℕ, ◌≡◌, ◌↔◌, refl, arith, Bool, true, false, none, List, [], ◌∷◌}
use crypto_radar.Base.Result.{ok}
use crypto_radar.Decimal.{Decimal}
use crypto_radar.Risk.Envelope.{
  Envelope, LockKind, daily_loss, drawdown, Asked, is_long, holds, check_envelope,
  admission_refusal,
}

no_locks :
    (locks : List LockKind)
    → holds daily_loss locks ≡ false
    → holds drawdown locks ≡ false
    → locks ≡ []
no_locks [] a b = refl
no_locks (daily_loss ∷ ls) a b = ground arith
no_locks (drawdown ∷ ls) a b = ground arith

-- Everything that an entry waits for.
pub record IsFree (direction : Asked) (kill : Bool) (locks : List LockKind) (positions : ℕ)
    : Type 0 where
  pub long_only : is_long direction ≡ true
  pub released : kill ≡ false
  pub unlocked : locks ≡ []
  pub alone : positions ≡ 0

module _ {D : Type 0} (num : Decimal D) where
  one_position : (e : Envelope D) → check_envelope num e ≡ ok tt → e.max_positions ≡ 1
  unfolding check_envelope
  one_position e h = ground arith

  admitted-IsFree :
      (e : Envelope D) (direction : Asked) (kill : Bool) (locks : List LockKind) (positions : ℕ)
      → e.max_positions ≡ 1
      → admission_refusal num e direction kill locks positions ≡ none
      → IsFree direction kill locks positions
  unfolding admission_refusal
  admitted-IsFree e direction kill locks positions one h = record {
    long_only = ground arith;
    released = ground arith;
    unlocked = no_locks locks (ground arith) (ground arith);
    alone = ground arith;
  }

  free_admitted :
      (e : Envelope D) (direction : Asked) (kill : Bool) (locks : List LockKind) (positions : ℕ)
      → e.max_positions ≡ 1
      → IsFree direction kill locks positions
      → admission_refusal num e direction kill locks positions ≡ none
  unfolding admission_refusal
  free_admitted e direction kill locks positions one h =
      ground (arith, h.long_only, h.released, h.unlocked, h.alone)

  -- Under an accepted envelope an entry is admitted exactly if it is long, the kill switch is
  -- released, no lock at all is active and no position is open.
  pub admitted_iff :
      (e : Envelope D) (direction : Asked) (kill : Bool) (locks : List LockKind) (positions : ℕ)
      → check_envelope num e ≡ ok tt
      → (admission_refusal num e direction kill locks positions ≡ none)
        ↔ IsFree direction kill locks positions
  admitted_iff e direction kill locks positions accepted =
      let one = one_position e accepted in
      (
        admitted-IsFree e direction kill locks positions one,
        free_admitted e direction kill locks positions one,
      )

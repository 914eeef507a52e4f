-- ===== src/Risk/Plan/Ends.antt =====
-- The steps of `plan_long_entry` that may stop: a plan that refuses is not opened.
use mathlib.Core.Path.{subst}
use crypto_radar.Base.{String, ◌≡◌, refl, ap, arith, Bool, true, false, Option, none, some}
use crypto_radar.Base.Result.{Result, ok, err, ◌>>=◌}
use crypto_radar.Paper.Quote.{QuoteProblem}
use crypto_radar.Risk.Envelope.{Field, NoTrade, NoTradeReason, Detail}
use crypto_radar.Risk.Plan.{
  EntryPlan, Stop, raised, refused, refuse_if, raise_from, quoted, ruled, known, levelled, returned,
}
use crypto_radar.Risk.Plan.Passes.{opened}

abbrev pub Any {κ} : {A : Type κ} → A → Type 0
Any a = Unit

abbrev value_or : {A : Type 0} → A → Result Field A → A
value_or a (ok b) = b
value_or a (err field) = a

module _ {D : Type 0} where
  -- A predicate of what the steps return, if they do not stop.
  abbrev pub Ends {κ} : {A : Type κ} → (A → Type 0) → Result (Stop D) A → Type 0
  Ends P (ok a) = P a
  Ends P (err (raised field)) = Unit
  Ends P (err (refused plan)) = opened plan ≡ false

  pub Ends-bind {κ ι} :
      {A : Type κ} {B : Type ι} (P : B → Type 0) (r : Result (Stop D) A) (f : A → Result (Stop D) B)
      → Ends Any r
      → ((a : A) → r ≡ ok a → Ends P (f a))
      → Ends P (r >>= f)
  Ends-bind P (ok a) f h next = next a refl
  Ends-bind P (err (raised field)) f h next = tt
  Ends-bind P (err (refused plan)) f h next = h

  pub refuse_if-Ends :
      (b : Bool) (plan : EntryPlan D) (reason : NoTradeReason) (detail : Detail D)
      → Ends Any (refuse_if b plan reason detail)
  refuse_if-Ends true plan reason detail = refl
  refuse_if-Ends false plan reason detail = tt

  pub quoted-Ends {ℓ} :
      {A : Type ℓ} (plan : EntryPlan D) (reason : NoTradeReason) (r : Result QuoteProblem A)
      → Ends Any (quoted plan reason r)
  quoted-Ends plan reason (ok a) = tt
  quoted-Ends plan reason (err p) = refl

  pub ruled-Ends {ℓ} :
      {A : Type ℓ} (plan : EntryPlan D) (r : Result (NoTrade D) A) → Ends Any (ruled plan r)
  ruled-Ends plan (ok a) = tt
  ruled-Ends plan (err n) = refl

  pub known-Ends {ℓ} :
      {A : Type ℓ} (plan : EntryPlan D) (what : String) (o : Option A)
      → Ends Any (known plan what o)
  known-Ends plan what (some a) = tt
  known-Ends plan what none = refl

  pub levelled-Ends {ℓ} :
      {A : Type ℓ} (plan : EntryPlan D) (o : Option A) → Ends Any (levelled plan o)
  levelled-Ends plan (some a) = tt
  levelled-Ends plan none = refl

  -- Steps that satisfy a predicate satisfy a weaker one.
  pub Ends-weaken {κ} :
      {A : Type κ} (P : A → Type 0) (r : Result (Stop D) A) → Ends P r → Ends Any r
  Ends-weaken P (ok a) h = tt
  Ends-weaken P (err (raised field)) h = tt
  Ends-weaken P (err (refused plan)) h = h

  pub Ends_at {κ} :
      {A : Type κ} (P : A → Type 0) (a : A) (r : Result (Stop D) A) → r ≡ ok a → Ends P r → P a
  Ends_at P a r e h = subst (Ends P) e h

  -- An opened plan is one that the steps return.
  pub returned_lem :
      (P : EntryPlan D → Type 0) (r : Result (Stop D) (EntryPlan D)) (plan : EntryPlan D)
      → Ends P r
      → returned r ≡ ok plan
      → opened plan ≡ true
      → P plan
  returned_lem P (ok p) plan h e o = subst P (ap (value_or p) e) h
  returned_lem P (err (raised field)) plan h e o = ground arith
  returned_lem P (err (refused p)) plan h e o = ground (arith, ap (value_or p) e)

pub raise_from-Ends {ℓ} :
    (D : Type 0) {A : Type ℓ} (r : Result Field A) → Ends {D = D} Any (raise_from r)
raise_from-Ends D (ok a) = tt
raise_from-Ends D (err field) = tt

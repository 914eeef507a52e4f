-- ===== src/Base/Result.antt =====
-- Calls that return a value and the tables they leave, or fail and leave everything as it was.
use mathlib.Core.Path.{◌≡◌, refl, sym, ap, subst}
use native.Mathlib.Omega.{arith}
use mathlib.Core.Bool.{Bool, true, false}
use crypto_radar.Base.Tests.{if◌then◌else◌}

pub data Result {ℓ κ} (E : Type ℓ) (A : Type κ) : Type (ℓ ⊔ κ) where
  ok : A → Result E A
  err : E → Result E A

infixl 5 ◌>>=◌
abbrev pub ◌>>=◌ {ℓ κ ι} :
    {E : Type ℓ} {A : Type κ} {B : Type ι} → Result E A → (A → Result E B) → Result E B
ok a >>= f = f a
err e >>= f = err e

abbrev pub require {ℓ} : {E : Type ℓ} → Bool → E → Result E (Unit {0})
require true e = ok tt
require false e = err e

module _ {ℓ} {E : Type ℓ} {S : Type 0} where
  -- A predicate of the tables that a call leaves, if it does not fail.
  abbrev pub Leaves {κ} : {A : Type κ} → (S → Type 0) → Result E (A × S) → Type 0
  Leaves P (ok (a, s)) = P s
  Leaves P (err e) = Unit

  pub Leaves_at {κ} :
      {A : Type κ} (P : S → Type 0) (x : A × S) {m : Result E (A × S)}
      → m ≡ ok x
      → Leaves P m
      → P x.1
  Leaves_at P x e h = subst (Leaves P) e h

  pub Leaves-eq {κ} :
      {A : Type κ} (P : S → Type 0) {m m' : Result E (A × S)} → m ≡ m' → Leaves P m' → Leaves P m
  Leaves-eq P e h = subst (Leaves P) (sym e) h

  pub Leaves-if {κ} :
      {A : Type κ} (P : S → Type 0) (b : Bool) (m m' : Result E (A × S))
      → (b ≡ true → Leaves P m)
      → (b ≡ false → Leaves P m')
      → Leaves P (if b then m else m')
  Leaves-if P true m m' h h' = h refl
  Leaves-if P false m m' h h' = h' refl

  pub Leaves-require {κ} :
      {A : Type κ} (P : S → Type 0) (b : Bool) (e : E) (m : Result E (A × S))
      → (b ≡ true → Leaves P m)
      → Leaves P (require b e >>= (λ _. m))
  Leaves-require P true e m h = h refl
  Leaves-require P false e m h = tt

  pub Leaves-bind {κ ι} :
      {A : Type κ} {B : Type ι} (P : S → Type 0) (r : Result E B) (f : B → Result E (A × S))
      → ((x : B) → r ≡ ok x → Leaves P (f x))
      → Leaves P (r >>= f)
  Leaves-bind P (ok x) f h = h x refl
  Leaves-bind P (err e) f h = tt

module _ {ℓ} {E : Type ℓ} where
  -- A predicate of the value that a call returns, if it does.
  abbrev pub Gives {κ} : {A : Type κ} → (A → Type 0) → Result E A → Type 0
  Gives P (ok a) = P a
  Gives P (err e) = Unit

  pub Gives_at {κ} :
      {A : Type κ} (P : A → Type 0) (a : A) {m : Result E A} → m ≡ ok a → Gives P m → P a
  Gives_at P a e h = subst (Gives P) e h

  pub Gives-eq {κ} :
      {A : Type κ} (P : A → Type 0) {m m' : Result E A} → m ≡ m' → Gives P m' → Gives P m
  Gives-eq P e h = subst (Gives P) (sym e) h

  pub Gives-const {κ} : {A : Type κ} {P : Type 0} → P → (m : Result E A) → Gives (λ _. P) m
  Gives-const h (ok a) = h
  Gives-const h (err e) = tt

  pub Gives-if {κ} :
      {A : Type κ} (P : A → Type 0) (b : Bool) (m m' : Result E A)
      → (b ≡ true → Gives P m)
      → (b ≡ false → Gives P m')
      → Gives P (if b then m else m')
  Gives-if P true m m' h h' = h refl
  Gives-if P false m m' h h' = h' refl

  pub Gives-require {κ} :
      {A : Type κ} (P : A → Type 0) (b : Bool) (e : E) (m : Result E A)
      → (b ≡ true → Gives P m)
      → Gives P (require b e >>= (λ _. m))
  Gives-require P true e m h = h refl
  Gives-require P false e m h = tt

  pub Gives-bind {κ ι} :
      {A : Type κ} {B : Type ι} (P : A → Type 0) (r : Result E B) (f : B → Result E A)
      → ((x : B) → r ≡ ok x → Gives P (f x))
      → Gives P (r >>= f)
  Gives-bind P (ok x) f h = h x refl
  Gives-bind P (err e) f h = tt

-- What a chain that returns has returned on the way.
pub bind_returned {ℓ κ ι} :
    {E : Type ℓ} {A : Type κ} {B : Type ι} (r : Result E A) (f : A → Result E B) (b : B)
    → (r >>= f) ≡ ok b
    → (a : A) × (r ≡ ok a) × (f a ≡ ok b)
bind_returned (ok a) f b h = (a, refl, h)
bind_returned (err e) f b h = ground arith

abbrev pub value_or {ℓ κ} : {E : Type ℓ} {A : Type κ} → A → Result E A → A
value_or a (ok b) = b
value_or a (err e) = a

-- Two results that are equal have equal values.
pub ok_value {ℓ κ} :
    {E : Type ℓ} {A : Type κ} {a b : A} → ◌≡◌ {A = Result E A} (ok a) (ok b) → a ≡ b
ok_value {a} h = ap (value_or a) h

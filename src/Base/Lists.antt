-- ===== src/Base/Lists.antt =====
-- Lists measured and searched by native numbers.
use Prim.Native.Nat.{ℕ, suc, ◌+◌}
use mathlib.Core.Path.{◌≡◌, refl}
use mathlib.Core.Bool.{Bool, true, false, ◌&&◌, ◌||◌}
use mathlib.Core.List.{List, [], ◌∷◌, ◌++◌}
use native.Mathlib.Omega.{arith}

module _ {ℓ} {A : Type ℓ} where
  abbrev pub length : List A → ℕ
  length [] = 0
  length (x ∷ xs) = suc (length xs)

  pub length-append : (xs ys : List A) → length (xs ++ ys) ≡ length xs + length ys
  length-append [] ys = omega arith
  length-append (x ∷ xs) ys = omega (arith, length-append xs ys)

  -- Python's `any` and `all` over a test.
  abbrev pub any : (A → Bool) → List A → Bool
  any p [] = false
  any p (x ∷ xs) = p x || any p xs

  abbrev pub all : (A → Bool) → List A → Bool
  all p [] = true
  all p (x ∷ xs) = p x && all p xs

-- Python's `sum` of the numbers that a function reads from each element.
abbrev pub sum_of {ℓ} : {A : Type ℓ} → (A → ℕ) → List A → ℕ
sum_of f [] = 0
sum_of f (x ∷ xs) = f x + sum_of f xs

-- A predicate of every element, as a tuple.
abbrev pub All {ℓ κ} : {X : Type ℓ} → (X → Type κ) → List X → Type κ
All Q [] = Unit
All Q (first ∷ rest) = Q first × All Q rest

pub All-append {ℓ κ} :
    {X : Type ℓ} (Q : X → Type κ) (left right : List X)
    → All Q left
    → All Q right
    → All Q (left ++ right)
All-append Q [] right nothing held = held
All-append Q (first ∷ rest) right both held = (both.0, All-append Q rest right both.1 held)

pub All-map {ℓ κ κ'} :
    {A : Type ℓ} (P : A → Type κ) (Q : A → Type κ') (xs : List A)
    → ((x : A) → P x → Q x)
    → All P xs
    → All Q xs
All-map P Q [] f h = tt
All-map P Q (x ∷ xs) f h = (f x h.0, All-map P Q xs f h.1)

pub data Elem {ℓ} {A : Type ℓ} (a : A) : List A → Type ℓ where
  here : {x : A} {xs : List A} → a ≡ x → Elem a (x ∷ xs)
  there : {x : A} {xs : List A} → Elem a xs → Elem a (x ∷ xs)

pub All-elem {ℓ κ} :
    {A : Type ℓ} (P : A → Type κ) (a : A) {xs : List A} → Elem a xs → All P xs → P a
All-elem P a (here e) h = rw e h.0
All-elem P a (there m) h = All-elem P a m h.1

pub All-self {ℓ} : {A : Type ℓ} (xs : List A) → All (λ x. Elem x xs) xs
All-self [] = tt
All-self (x ∷ xs) =
    (here refl, All-map (λ y. Elem y xs) (λ y. Elem y (x ∷ xs)) xs (λ y m. there m) (All-self xs))

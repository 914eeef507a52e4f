-- ===== src/Base/Order.antt =====
-- Python's order of tuples, and `sorted`, `min` and `max` with a key. A key is the list of its
-- numbers, so that tuples that end in a text compare by its code points.
pub mod Extremes
pub mod Sorting
use Prim.Native.Nat.{ℕ, zero, suc, ◌+◌}
use mathlib.Core.Path.{◌≡◌, refl}
use mathlib.Core.Bool.{Bool, true, false, ◌&&◌, ◌||◌}
use mathlib.Core.Option.{Option, none, some}
use mathlib.Core.List.{List, [], ◌∷◌}
use native.Mathlib.Omega.{arith}
use crypto_radar.Base.Tests.{ltb, nat_beq, if◌then◌else◌, Bool-cases}
use crypto_radar.Base.Lists.{All, length, All-map}

abbrev pub Key : Type 0
Key = List ℕ

-- `a < b` of two keys: the first difference decides, and a proper beginning is smaller.
pub lex_lt : Key → Key → Bool
lex_lt [] [] = false
lex_lt [] (y ∷ ys) = true
lex_lt (x ∷ xs) [] = false
lex_lt (x ∷ xs) (y ∷ ys) = ltb x y || (nat_beq x y && lex_lt xs ys)

pub lex_lt_irrefl : (a : Key) → lex_lt a a ≡ false
unfolding lex_lt
lex_lt_irrefl [] = refl
lex_lt_irrefl (x ∷ xs) = ground (arith, lex_lt_irrefl xs)

pub lex_lt_asymm : (a b : Key) → lex_lt a b ≡ true → lex_lt b a ≡ false
unfolding lex_lt
lex_lt_asymm [] [] h = refl
lex_lt_asymm [] (y ∷ ys) h = refl
lex_lt_asymm (x ∷ xs) [] h = ground arith
lex_lt_asymm (x ∷ xs) (y ∷ ys) h = ground (arith, lex_lt_asymm xs ys)

-- `not (b < a)` is transitive: keys are totally ordered.
pub not_lt_trans : (a b c : Key) → lex_lt b a ≡ false → lex_lt c b ≡ false → lex_lt c a ≡ false
unfolding lex_lt
not_lt_trans [] b [] h k = refl
not_lt_trans [] b (z ∷ zs) h k = ground (arith, lem b)
  where
    lem : (b : Key) → lex_lt (z ∷ zs) [] ≡ false
    lem b = refl
not_lt_trans (x ∷ xs) [] c h k = ground arith
not_lt_trans (x ∷ xs) (y ∷ ys) [] h k = ground arith
not_lt_trans (x ∷ xs) (y ∷ ys) (z ∷ zs) h k = ground (arith, not_lt_trans xs ys zs)

module _ {ℓ} {A : Type ℓ} (key : A → Key) where
  -- `min(best, *xs, key=key)`: the first of the smallest.
  unfoldable pub min_by : A → List A → A
  min_by best [] = best
  min_by best (x ∷ xs) = min_by (if lex_lt (key x) (key best) then x else best) xs

  -- `max(best, *xs, key=key)`: the first of the largest.
  unfoldable pub max_by : A → List A → A
  max_by best [] = best
  max_by best (x ∷ xs) = max_by (if lex_lt (key best) (key x) then x else best) xs

  unfoldable pub place : A → List A → List A
  place x [] = x ∷ []
  place x (y ∷ ys) = if lex_lt (key y) (key x) then y ∷ place x ys else x ∷ y ∷ ys

  -- `sorted(xs, key=key)`, which keeps the order of equal keys.
  unfoldable pub sort_by : List A → List A
  unfolding place
  sort_by [] = []
  sort_by (x ∷ xs) = place x (sort_by xs)

  -- `x` is ranked no worse than `y`.
  abbrev pub NotAfter : A → A → Type 0
  NotAfter x y = lex_lt (key y) (key x) ≡ false

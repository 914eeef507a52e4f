-- ===== src/Base/Order/Extremes.antt =====
-- The least and the greatest element by a key, Python's `min` and `max`.
use mathlib.Core.Path.{refl}
use mathlib.Core.Logic.{inl, inr}
use mathlib.Core.List.{List, [], ◌∷◌}
use crypto_radar.Base.Tests.{if◌then◌else◌, Bool-cases}
use crypto_radar.Base.Lists.{All, Elem, here, there}
use crypto_radar.Base.Order.{
  Key, lex_lt, lex_lt_irrefl, lex_lt_asymm, not_lt_trans, min_by, max_by, NotAfter,
}

module _ {ℓ} {A : Type ℓ} (key : A → Key) where
  -- The better of two elements is ranked no worse than either.
  abbrev better_of : A → A → A
  better_of best x = if lex_lt (key x) (key best) then x else best

  better_of_bounds :
      (best x : A) → NotAfter key (better_of best x) best × NotAfter key (better_of best x) x
  better_of_bounds best x = elim (Bool-cases (lex_lt (key x) (key best))) [
    | inl before ↦ rw before (lex_lt_asymm (key x) (key best) before, lex_lt_irrefl (key x))
    | inr after ↦ rw after (lex_lt_irrefl (key best), after)
  ]

  better_of-elem : (best x : A) (xs : List A) → Elem (better_of best x) (best ∷ x ∷ xs)
  better_of-elem best x xs = elim (Bool-cases (lex_lt (key x) (key best))) [
    | inl before ↦ rw before (there (here refl))
    | inr after ↦ rw after (here refl)
  ]

  -- The minimum is ranked no worse than any element.
  pub min_by_least : (best : A) (xs : List A) → All (NotAfter key (min_by key best xs)) (best ∷ xs)
  unfolding min_by
  min_by_least best [] = (lex_lt_irrefl (key best), tt)
  min_by_least best (x ∷ xs) =
      let n = better_of best x in
      let least = min_by_least n xs in
      let bounds = better_of_bounds best x in
      (
        not_lt_trans (key (min_by key n xs)) (key n) (key best) least.0 bounds.0,
        (not_lt_trans (key (min_by key n xs)) (key n) (key x) least.0 bounds.1, least.1),
      )

  pub min_by-elem : (best : A) (xs : List A) → Elem (min_by key best xs) (best ∷ xs)
  unfolding min_by
  min_by-elem best [] = here refl
  min_by-elem best (x ∷ xs) = place_back best x xs (min_by-elem (better_of best x) xs)
    where
      place_back :
          {m : A} (best x : A) (xs : List A)
          → Elem m (better_of best x ∷ xs)
          → Elem m (best ∷ x ∷ xs)
      place_back best x xs (here e) = rw e (better_of-elem best x xs)
      place_back best x xs (there m) = there (there m)

  worse_of : A → A → A
  worse_of best x = if lex_lt (key best) (key x) then x else best

  worse_of_bounds :
      (best x : A) → NotAfter key best (worse_of best x) × NotAfter key x (worse_of best x)
  unfolding worse_of
  worse_of_bounds best x = elim (Bool-cases (lex_lt (key best) (key x))) [
    | inl before ↦ rw before (lex_lt_asymm (key best) (key x) before, lex_lt_irrefl (key x))
    | inr after ↦ rw after (lex_lt_irrefl (key best), after)
  ]

  worse_of-elem : (best x : A) (xs : List A) → Elem (worse_of best x) (best ∷ x ∷ xs)
  unfolding worse_of
  worse_of-elem best x xs = elim (Bool-cases (lex_lt (key best) (key x))) [
    | inl before ↦ rw before (there (here refl))
    | inr after ↦ rw after (here refl)
  ]

  -- Every element is ranked no worse than the maximum.
  pub max_by_greatest :
      (best : A) (xs : List A) → All (λ x. NotAfter key x (max_by key best xs)) (best ∷ xs)
  unfolding max_by worse_of
  max_by_greatest best [] = (lex_lt_irrefl (key best), tt)
  max_by_greatest best (x ∷ xs) =
      let n = worse_of best x in
      let greatest = max_by_greatest n xs in
      let bounds = worse_of_bounds best x in
      (
        not_lt_trans (key best) (key n) (key (max_by key n xs)) bounds.0 greatest.0,
        (not_lt_trans (key x) (key n) (key (max_by key n xs)) bounds.1 greatest.0, greatest.1),
      )

  pub max_by-elem : (best : A) (xs : List A) → Elem (max_by key best xs) (best ∷ xs)
  unfolding max_by worse_of
  max_by-elem best [] = here refl
  max_by-elem best (x ∷ xs) = place_back best x xs (max_by-elem (worse_of best x) xs)
    where
      place_back :
          {m : A} (best x : A) (xs : List A)
          → Elem m (worse_of best x ∷ xs)
          → Elem m (best ∷ x ∷ xs)
      place_back best x xs (here e) = rw e (worse_of-elem best x xs)
      place_back best x xs (there m) = there (there m)

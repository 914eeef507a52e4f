-- ===== src/Base/Order/Sorting.antt =====
-- `sorted` lists the same elements.
use mathlib.Core.Logic.{inl, inr}
use mathlib.Core.List.{List, [], ◌∷◌}
use crypto_radar.Base.Tests.{Bool-cases}
use crypto_radar.Base.Lists.{All, Elem, here, there}
use crypto_radar.Base.Order.{Key, lex_lt, lex_lt_asymm, not_lt_trans, place, sort_by, NotAfter}

module _ {ℓ} {A : Type ℓ} (key : A → Key) where
  place-elem : {a x : A} (xs : List A) → Elem a (x ∷ xs) → Elem a (place key x xs)
  unfolding place
  place-elem [] m = m
  place-elem {a} {x} (y ∷ ys) m = elim (Bool-cases (lex_lt (key y) (key x))) [
    | inl before ↦ rw before (move m (place-elem ys))
    | inr after ↦ rw after m
  ]
    where
      move :
          Elem a (x ∷ y ∷ ys)
          → (Elem a (x ∷ ys) → Elem a (place key x ys))
          → Elem a (y ∷ place key x ys)
      move (here e) ih = there (ih (here e))
      move (there (here e)) ih = here e
      move (there (there m)) ih = there (ih (there m))

  -- What stands in a list stands in the sorted list.
  pub sort_by-elem : {a : A} {xs : List A} → Elem a xs → Elem a (sort_by key xs)
  unfolding sort_by
  sort_by-elem (here {xs = xs} e) = place-elem (sort_by key xs) (here e)
  sort_by-elem (there {xs = xs} m) = place-elem (sort_by key xs) (there (sort_by-elem m))

module _ {ℓ κ} {A : Type ℓ} (key : A → Key) (P : A → Type κ) where
  place-All : (x : A) (xs : List A) → P x → All P xs → All P (place key x xs)
  unfolding place
  place-All x [] h hs = (h, tt)
  place-All x (y ∷ ys) h hs = elim (Bool-cases (lex_lt (key y) (key x))) [
    | inl before ↦ rw before (hs.0, place-All x ys h hs.1)
    | inr after ↦ rw after (h, hs)
  ]

  pub sort_by-All : (xs : List A) → All P xs → All P (sort_by key xs)
  unfolding sort_by
  sort_by-All [] h = tt
  sort_by-All (x ∷ xs) h = place-All x (sort_by key xs) h.0 (sort_by-All xs h.1)

-- A symmetric relation between all pairs survives the sort.
abbrev pub Pairs {ℓ κ} : {A : Type ℓ} → (A → A → Type κ) → List A → Type κ
Pairs R [] = Unit
Pairs R (x ∷ xs) = All (R x) xs × Pairs R xs

module _ {ℓ κ} {A : Type ℓ} (key : A → Key) (R : A → A → Type κ)
    (symm : (x y : A) → R x y → R y x) where
  place-Pairs : (x : A) (xs : List A) → All (R x) xs → Pairs R xs → Pairs R (place key x xs)
  unfolding place
  place-Pairs x [] h hs = (tt, tt)
  place-Pairs x (y ∷ ys) h hs = elim (Bool-cases (lex_lt (key y) (key x))) [
    | inl before ↦
        rw before (place-All key (R y) x ys (symm x y h.0) hs.0, place-Pairs x ys h.1 hs.1)
    | inr after ↦ rw after (h, hs)
  ]

  pub sort_by-Pairs : (xs : List A) → Pairs R xs → Pairs R (sort_by key xs)
  unfolding sort_by
  sort_by-Pairs [] h = tt
  sort_by-Pairs (x ∷ xs) h =
      place-Pairs x (sort_by key xs) (sort_by-All key (R x) xs h.0) (sort_by-Pairs xs h.1)

-- In ranking order, no entry stands before a better one.
module _ {ℓ} {A : Type ℓ} (key : A → Key) where
  place-IsRanked :
      (x : A) (xs : List A) → Pairs (NotAfter key) xs → Pairs (NotAfter key) (place key x xs)
  unfolding place
  place-IsRanked x [] hs = (tt, tt)
  place-IsRanked x (y ∷ ys) hs = elim (Bool-cases (lex_lt (key y) (key x))) [
    | inl before ↦ rw before (
      place-All key (NotAfter key y) x ys (lex_lt_asymm (key y) (key x) before) hs.0,
      place-IsRanked x ys hs.1,
    )
    | inr after ↦ rw after ((after, beyond ys hs.0 after), hs)
  ]
    where
      beyond : (zs : List A) → All (NotAfter key y) zs → NotAfter key x y → All (NotAfter key x) zs
      beyond [] h k = tt
      beyond (z ∷ zs) h k = (not_lt_trans (key x) (key y) (key z) k h.0, beyond zs h.1 k)

  pub sort_by-IsRanked : (xs : List A) → Pairs (NotAfter key) (sort_by key xs)
  unfolding sort_by
  sort_by-IsRanked [] = tt
  sort_by-IsRanked (x ∷ xs) = place-IsRanked x (sort_by key xs) (sort_by-IsRanked xs)

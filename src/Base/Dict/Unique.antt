-- ===== src/Base/Dict/Unique.antt =====
-- Dicts that list each key once: what they hold, and their size under each update.
use mathlib.Core.Path.{◌≡◌, refl}
use mathlib.Core.Option.{none, some}
use mathlib.Core.List.{[], ◌∷◌}
use native.Mathlib.Omega.{arith}
use Prim.Native.Nat.{◌+◌, ◌≤◌}
use mathlib.Core.Path.{sym}
use mathlib.Core.Logic.{inl, inr}
use mathlib.Core.Option.{some-injective}
use crypto_radar.Base.Tests.{Bool-cases}
use crypto_radar.Base.Lists.{Elem, here, there, length, All}
use crypto_radar.Base.Equality.{Eq, ◌==◌}
use crypto_radar.Base.Dict.{Dict, values, lookup, insert, erase, lookup-insert, lookup-erase}

module _ {ℓ κ} {K : Type ℓ} {V : Type κ} ⦃e : Eq K⦄ where
  abbrev pub IsUnique : Dict K V → Type κ
  IsUnique [] = Unit
  IsUnique ((k, v) ∷ d) = (lookup k d ≡ none) × IsUnique d

  pub insert-IsUnique : (k : K) (v : V) (d : Dict K V) → IsUnique d → IsUnique (insert k v d)
  unfolding insert lookup
  insert-IsUnique k v [] h = (refl, tt)
  insert-IsUnique k v ((j, w) ∷ d) h =
      ground
        (arith, e.test_iff j k, e.test_iff k j, insert-IsUnique k v d h.1, lookup-insert k j v d)

  pub erase-IsUnique : (k : K) (d : Dict K V) → IsUnique d → IsUnique (erase k d)
  unfolding erase
  erase-IsUnique k [] h = tt
  erase-IsUnique k ((j, w) ∷ d) h = ground (arith, erase-IsUnique k d h.1, lookup-erase k j d)

  erase_missing : (k : K) (d : Dict K V) → lookup k d ≡ none → erase k d ≡ d
  unfolding erase lookup
  erase_missing k [] h = refl
  erase_missing k ((j, w) ∷ d) h = ground (arith, erase_missing k d)

  pub length-erase :
      (k : K) (v : V) (d : Dict K V)
      → IsUnique d
      → lookup k d ≡ some v
      → length (erase k d) + 1 ≡ length d
  unfolding erase lookup
  length-erase k v [] u h = ground arith
  length-erase k v ((j, w) ∷ d) u h =
      ground (arith, length-erase k v d u.1, e.test_iff j k, erase_missing k d)

  pub length-insert : (k : K) (v : V) (d : Dict K V) → length (insert k v d) ≤ length d + 1
  unfolding insert
  length-insert k v [] = omega arith
  length-insert k v ((j, w) ∷ d) = ground (arith, length-insert k v d)

  -- A property of every value that a key finds is a property of every value.
  pub All-values {κ'} :
      (P : V → Type κ') (d : Dict K V)
      → IsUnique d
      → ((k : K) (v : V) → lookup k d ≡ some v → P v)
      → All P (values d)
  unfolding values lookup
  All-values P [] u h = tt
  All-values P ((j, w) ∷ d) u h = (
    h j w (ground (arith, e.test_iff j j)),
    All-values P d u.1 (λ k v found. h k v (ground (arith, e.test_iff j k))),
  )

  pub elem-values : (k : K) {v : V} (d : Dict K V) → lookup k d ≡ some v → Elem v (values d)
  unfolding values lookup
  elem-values k [] h = cc
  elem-values k ((j, w) ∷ d) h = elim (Bool-cases (j == k)) [
    | inl same ↦ here (sym (some-injective _ _ (rw same at h)))
    | inr other ↦ there (elem-values k d (rw other at h))
  ]

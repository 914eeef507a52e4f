-- ===== src/Base/Dict/Total.antt =====
-- A sum over the entries of a dict, and how a write changes it.
use Prim.Native.Nat.{ℕ, ◌+◌}
use mathlib.Core.Path.{◌≡◌}
use mathlib.Core.Option.{none, some}
use mathlib.Core.List.{[], ◌∷◌}
use native.Mathlib.Omega.{arith}
use crypto_radar.Base.Equality.{Eq}
use crypto_radar.Base.Dict.{Dict, lookup, insert}

abbrev pub total {ℓ κ} : {K : Type ℓ} {V : Type κ} → (K → V → ℕ) → Dict K V → ℕ
total f [] = 0
total f ((k, v) ∷ d) = f k v + total f d

module _ {ℓ κ} {K : Type ℓ} {V : Type κ} ⦃e : Eq K⦄ (f : K → V → ℕ) where
  pub total-insert_new :
      (k : K) (v : V) (d : Dict K V)
      → lookup k d ≡ none
      → total f (insert k v d) ≡ total f d + f k v
  unfolding lookup insert
  total-insert_new k v [] h = omega arith
  total-insert_new k v ((j, w) ∷ d) h = ground (arith, total-insert_new k v d)

  pub total-insert_old :
      (k : K) (v w : V) (d : Dict K V)
      → lookup k d ≡ some w
      → total f (insert k v d) + f k w ≡ total f d + f k v
  unfolding lookup insert
  total-insert_old k v w [] h = ground arith
  total-insert_old k v w ((j, u) ∷ d) h = ground (arith, e.test_iff j k, total-insert_old k v w d)

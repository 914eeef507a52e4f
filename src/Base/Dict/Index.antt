-- ===== src/Base/Dict/Index.antt =====
-- A second dict that leads from a key inside a value back to the place of the value.
use mathlib.Core.Path.{◌≡◌}
use mathlib.Core.Logic.{◌↔◌}
use mathlib.Core.Option.{Option, none, some}
use native.Mathlib.Omega.{arith}
use crypto_radar.Base.Equality.{Eq}
use crypto_radar.Base.Dict.{Dict, lookup, insert, erase, lookup-insert, lookup-erase}

module _ {ℓ κ ι} {I : Type ι} {K : Type ℓ} {V : Type κ} ⦃e : Eq K⦄ ⦃i : Eq I⦄ (f : V → K) where
  -- The inner key of the value at a place.
  abbrev pub key_at : I → Dict I V → Option K
  key_at id d = elim (lookup id d) [ none ↦ none | some v ↦ some (f v) ]

  -- The index leads from exactly the inner keys that are there to their places.
  abbrev pub IsIndex : Dict I V → Dict K I → Type (ι ⊔ ℓ)
  IsIndex d ix = (id : I) (k : K) → (lookup k ix ≡ some id) ↔ (key_at id d ≡ some k)

  pub insert-IsIndex :
      (id : I) (v : V) (d : Dict I V) (ix : Dict K I)
      → lookup id d ≡ none
      → lookup (f v) ix ≡ none
      → IsIndex d ix
      → IsIndex (insert id v d) (insert (f v) id ix)
  insert-IsIndex id v d ix new fresh h = λ j k. ground (
    arith,
    lookup-insert id j v d,
    lookup-insert (f v) k id ix,
    e.test_iff (f v) k,
    i.test_iff id j,
    h j k,
    h id (f v),
    h j (f v),
    h id k,
  )

  pub erase-IsIndex :
      (id : I) (v : V) (d : Dict I V) (ix : Dict K I)
      → lookup id d ≡ some v
      → IsIndex d ix
      → IsIndex (erase id d) (erase (f v) ix)
  erase-IsIndex id v d ix found h = λ j k. ground (
    arith,
    lookup-erase id j d,
    lookup-erase (f v) k ix,
    e.test_iff (f v) k,
    i.test_iff id j,
    h j k,
    h id (f v),
    h j (f v),
  )

-- ===== src/Float.antt =====
-- Python's floats as a parameter: what radar_v08/router.py and radar_v08/setups.py use of them, with
-- the tests on values that may be missing.
use crypto_radar.Base.{ℕ, Bool, true, false, Option, none, some, List, [], ◌∷◌}

-- `>=`, `>`, `abs`, `min`, `max`, `math.isfinite`, the arithmetic, `round(x, 2)`, and the literals
-- n and n / 10.
pub record Float (F : Type 0) : Type 0 where
  pub at_least : F → F → Bool
  pub above : F → F → Bool
  pub magnitude : F → F
  pub smaller : F → F → F
  pub larger : F → F → F
  pub is_finite : F → Bool
  pub plus : F → F → F
  pub minus : F → F → F
  pub times : F → F → F
  pub over : F → F → F
  pub round_2 : F → F
  pub whole : ℕ → F
  pub tenths : ℕ → F

-- `bool` of a flag that may be missing
abbrev pub is_true : Option Bool → Bool
is_true none = false
is_true (some b) = b

-- `x is not None and x >= y`
abbrev pub reaches : {F : Type 0} → Float F → Option F → F → Bool
reaches num none y = false
reaches num (some x) y = num.at_least x y

-- A list with an element that a test adds.
abbrev pub when {ℓ} : {A : Type ℓ} → Bool → A → List A
when true x = x ∷ []
when false x = []

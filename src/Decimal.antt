-- ===== src/Decimal.antt =====
-- Python's finite decimals as a parameter: what radar_v08/domain/paper.py and radar_v08/domain/risk.py
-- use of them, for amounts that the precisions hold; and the values that stand for a number in their
-- inputs.
pub mod Fixed
use crypto_radar.Base.{ℕ, ◌≡◌, Bool, true, false, ◌&&◌, not, String, if◌then◌else◌}

-- `PAPER_CONTEXT` and `RISK_CONTEXT` are the same, `QUANTITY_CONTEXT` rounds down, and `ambient` is the
-- context of the caller.
pub data Context : Type 0 where
  half_even down ambient : Context

-- `Decimal(text)`, which drops the blanks at both ends.
pub data Parsed (D : Type 0) : Type 0 where
  invalid unbounded : Parsed D
  finite : D → Parsed D

-- `<=`, the arithmetic of a context, `quantize` to the cent (to even and up) and to a number of decimals
-- (down), `to_integral_value` down, the literals n and n / 100, 10^-n, and the reading of a text.
pub record Decimal (D : Type 0) : Type 0 where
  pub leb : D → D → Bool
  pub plus : Context → D → D → D
  pub minus : Context → D → D → D
  pub times : Context → D → D → D
  pub over : Context → D → D → D
  pub opposite : Context → D → D
  pub cents : D → D
  pub cents_up : D → D
  pub to_decimals : ℕ → D → D
  pub floor : D → D
  pub whole : ℕ → D
  pub hundredths : ℕ → D
  pub lot_step : ℕ → D
  pub parse : String → Parsed D

-- A Python value where a number is expected. A float is the decimal of its shortest text, and a number
-- below zero that is an int is one less than the opposite of the given one.
pub data Raw (D : Type 0) : Type 0 where
  missing other : Raw D
  boolean : Bool → Raw D
  text : String → Raw D
  integer below_zero : ℕ → Raw D
  float decimal : D → Raw D
  unbounded_float unbounded_decimal : Raw D

module _ {D : Type 0} (num : Decimal D) where
  abbrev pub zero_d : D
  zero_d = num.whole 0

  -- `<`
  abbrev pub less : D → D → Bool
  less a b = not (num.leb b a)

  -- `==`
  abbrev pub same : D → D → Bool
  same a b = num.leb a b && num.leb b a

  abbrev pub least : D → D → D
  least a b = if less b a then b else a

-- What the comparison of finite decimals promises.
pub record IsOrder {D : Type 0} (num : Decimal D) : Type 0 where
  pub total : (a b : D) → num.leb a b ≡ false → num.leb b a ≡ true
  pub trans : (a b c : D) → num.leb a b ≡ true → num.leb b c ≡ true → num.leb a c ≡ true

-- What correct rounding promises of the operations of `RISK_CONTEXT`: they keep the order.
pub record IsMonotone {D : Type 0} (num : Decimal D) : Type 0 where
  pub times_right :
      (a b c : D)
      → num.leb a (num.whole 0) ≡ false
      → num.leb b c ≡ true
      → num.leb (num.times Context.half_even a b) (num.times Context.half_even a c) ≡ true
  pub over_left :
      (a b : D)
      → num.leb a b ≡ true
      → num.leb
          (num.over Context.half_even a (num.whole 100))
          (num.over Context.half_even b (num.whole 100))
        ≡ true
  pub minus_left :
      (a b c : D)
      → num.leb a b ≡ true
      → num.leb (num.minus Context.half_even a c) (num.minus Context.half_even b c) ≡ true
  pub minus_right :
      (a b c : D)
      → num.leb b c ≡ true
      → num.leb (num.minus Context.half_even a c) (num.minus Context.half_even a b) ≡ true

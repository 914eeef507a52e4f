-- ===== src/Risk/Pair.antt =====
-- The venue rules of a pair, of radar_v08/domain/risk.py.
pub mod Valid
use crypto_radar.Base.{
  ℕ, String, Bool, true, false, ◌&&◌, not, Option, none, some, leb, ltb, length, if◌then◌else◌,
}
use crypto_radar.Base.Dict.{Dict, lookup}
use crypto_radar.Base.Equality.{string_eq}
use crypto_radar.Base.Result.{Result, ok, err, ◌>>=◌, require}
use crypto_radar.Invocation.Text.{codes}
use crypto_radar.Decimal.{Decimal, Raw, Parsed, same}
use crypto_radar.Paper.Quote.{strip}
use crypto_radar.Risk.Envelope.{NoTrade, NoTradeReason, Detail, problem}

pub record PairRules (D : Type 0) : Type 0 where
  pub lot_decimals : ℕ
  pub ordermin : D
  pub costmin : D
  pub tick : D
  pub tick_source : String

-- A raw entry of the venue: nothing that is a mapping, or a mapping.
abbrev pub Entry : Type 0 → Type 0
Entry D = Dict String (Raw D)

module _ {D : Type 0} (num : Decimal D) where
  -- `_missing`
  abbrev pub missing_rule : String → String → NoTrade D
  missing_rule field what = record {
    reason = NoTradeReason.missing_pair_rules;
    detail = problem field what;
  }

  -- The value of a key, with a missing key as `None`.
  abbrev pub field_of : Entry D → String → Raw D
  field_of entry field = elim (lookup field entry) [ none ↦ Raw.missing | some v ↦ v ]

  abbrev decimals_of : String → Raw D → Result (NoTrade D) ℕ
  decimals_of field Raw.missing = err (missing_rule field "missing")
  decimals_of field (Raw.integer n) =
      if leb n 18 then ok n else err (missing_rule field "too_large")
  decimals_of field (Raw.below_zero n) = err (missing_rule field "negative")
  decimals_of field _ = err (missing_rule field "not_an_integer")

  -- `_decimals_field`
  unfoldable pub decimals_field : Entry D → String → Result (NoTrade D) ℕ
  decimals_field entry field = decimals_of field (field_of entry field)

  abbrev not_negative : String → D → Result (NoTrade D) D
  not_negative field d =
      if num.leb (num.whole 0) d then ok d else err (missing_rule field "negative")

  abbrev parsed : String → Parsed D → Result (NoTrade D) D
  parsed field Parsed.invalid = err (missing_rule field "not_a_number")
  parsed field Parsed.unbounded = err (missing_rule field "not_finite")
  parsed field (Parsed.finite d) = not_negative field d

  abbrev decimal_of : String → Raw D → Result (NoTrade D) D
  decimal_of field Raw.missing = err (missing_rule field "missing")
  decimal_of field Raw.other = err (missing_rule field "not_a_number")
  decimal_of field (Raw.boolean b) = err (missing_rule field "not_exact")
  decimal_of field (Raw.float d) = err (missing_rule field "not_exact")
  decimal_of field Raw.unbounded_float = err (missing_rule field "not_exact")
  decimal_of field (Raw.text t) =
      if leb (length (strip (codes t))) 0
      then err (missing_rule field "missing")
      else parsed field (num.parse t)
  decimal_of field (Raw.integer n) = not_negative field (num.whole n)
  decimal_of field (Raw.below_zero n) = err (missing_rule field "negative")
  decimal_of field (Raw.decimal d) = not_negative field d
  decimal_of field Raw.unbounded_decimal = err (missing_rule field "not_finite")

  -- `_decimal_text_field`
  unfoldable pub decimal_text_field : Entry D → String → Result (NoTrade D) D
  decimal_text_field entry field = decimal_of field (field_of entry field)

  abbrev is_given : Raw D → Bool
  is_given Raw.missing = false
  is_given _ = true

  -- The tick of `parse_pair_rules` and the field it is from: `tick_size`, or else `pair_decimals`.
  unfoldable pub given_tick : Entry D → Result (NoTrade D) (D × String)
  unfolding decimal_text_field
  given_tick entry = do
    tick ← decimal_text_field entry "tick_size"
    _ ← require (not (same num tick (num.whole 0))) (missing_rule "tick_size" "not_positive")
    ok (tick, "tick_size")

  unfoldable pub absent_tick : Entry D → Result (NoTrade D) (D × String)
  absent_tick entry = elim (lookup "pair_decimals" entry) [
    | none ↦ err (missing_rule "tick_size" "missing")
    | some v ↦ decimals_field entry "pair_decimals" >>= (λ n. ok (num.lot_step n, "pair_decimals"))
  ]

  unfoldable pub tick_of : Entry D → Result (NoTrade D) (D × String)
  tick_of entry =
      if is_given (field_of entry "tick_size") then given_tick entry else absent_tick entry

  -- `parse_pair_rules`, of a mapping or of another value
  unfoldable pub parse_pair_rules : Option (Entry D) → Result (NoTrade D) (PairRules D)
  parse_pair_rules none = err (missing_rule "entry" "missing")
  parse_pair_rules (some entry) = do
    lot_decimals ← decimals_field entry "lot_decimals"
    ordermin ← decimal_text_field entry "ordermin"
    costmin ← decimal_text_field entry "costmin"
    x ← tick_of entry
    ok (record {
      lot_decimals = lot_decimals;
      ordermin = ordermin;
      costmin = costmin;
      tick = x.0;
      tick_source = x.1;
    })

-- ===== src/Paper/Quote.antt =====
-- The quotes of radar_v08/domain/paper.py and the values they are read from.
use text.Mathlib.Text.{◌==◌ as str_eq}
use crypto_radar.Base.{
  ℕ, ◌+◌, String, Bool, true, false, ◌&&◌, not, Option, none, some, List, [], ◌∷◌, map, leb, ltb,
  nat_beq, length, if◌then◌else◌,
}
use crypto_radar.Base.Result.{Result, ok, err, ◌>>=◌, require}
use crypto_radar.Invocation.Text.{codes, is_space}
use crypto_radar.Decimal.{half_even, Decimal, Raw}

pub data Direction : Type 0 where
  long short : Direction

pub data QuoteProblem : Type 0 where
  missing not_a_number not_finite not_positive crossed not_online : QuoteProblem

pub record Quote (D : Type 0) : Type 0 where
  pub bid : D
  pub ask : D

-- `status`: nothing, a text, or a value of another type.
pub data Status : Type 0 where
  unrecorded foreign : Status
  named : String → Status

abbrev drop_front : List ℕ → List ℕ
drop_front [] = []
drop_front (c ∷ cs) = if is_space c then drop_front cs else c ∷ cs

abbrev put_kept : ℕ → List ℕ → List ℕ
put_kept c [] = if is_space c then [] else c ∷ []
put_kept c (d ∷ ds) = c ∷ d ∷ ds

abbrev drop_end : List ℕ → List ℕ
drop_end [] = []
drop_end (c ∷ cs) = put_kept c (drop_end cs)

-- `str.strip`
abbrev pub strip : List ℕ → List ℕ
strip cs = drop_end (drop_front cs)

-- `str.lower` of one character, as far as the comparison with a lower ASCII text sees it
abbrev lower : ℕ → ℕ
lower c = if leb b'A' c && leb c b'Z' then c + 32 else c

abbrev pub same_codes : List ℕ → List ℕ → Bool
same_codes [] [] = true
same_codes (c ∷ cs) (d ∷ ds) = nat_beq c d && same_codes cs ds
same_codes _ _ = false

-- The status is one that `validate_quote` refuses: a text that is neither blank nor `online`, or no text.
unfoldable pub is_offline : Status → Bool
is_offline unrecorded = false
is_offline foreign = true
is_offline (named t) =
    let cs = strip (codes t) in
    ltb 0 (length cs) && not (same_codes (map lower cs) (codes "online"))

module _ {D : Type 0} (num : Decimal D) where
  abbrev positive : D → Result QuoteProblem D
  positive d = if num.leb d (num.whole 0) then err QuoteProblem.not_positive else ok d

  -- `_price`
  unfoldable pub price : Raw D → Result QuoteProblem D
  price Raw.missing = err QuoteProblem.missing
  price Raw.other = err QuoteProblem.not_a_number
  price (Raw.boolean b) = err QuoteProblem.not_a_number
  price (Raw.text t) = err QuoteProblem.not_a_number
  price (Raw.integer n) = positive (num.whole n)
  price (Raw.below_zero n) = err QuoteProblem.not_positive
  price (Raw.float d) = positive d
  price (Raw.decimal d) = positive d
  price Raw.unbounded_float = err QuoteProblem.not_finite
  price Raw.unbounded_decimal = err QuoteProblem.not_finite

  -- `validate_quote`
  unfoldable pub validate_quote : Raw D → Raw D → Status → Result QuoteProblem (Quote D)
  validate_quote bid ask status = do
    _ ← require (not (is_offline status)) QuoteProblem.not_online
    b ← price bid
    a ← price ask
    _ ← require (num.leb b a) QuoteProblem.crossed
    ok (record { bid = b; ask = a })

  -- `validate_atr`
  abbrev pub validate_atr : Raw D → Result QuoteProblem D
  validate_atr atr = price atr

  -- `Quote.mid`
  unfoldable pub mid : Quote D → D
  mid q = num.over half_even (num.plus half_even q.bid q.ask) (num.whole 2)

-- `parse_direction`, of a text or of a value of another type
unfoldable pub parse_direction : Option String → Option Direction
parse_direction none = none
parse_direction (some t) =
    if str_eq t "LONG"
    then some Direction.long
    else if str_eq t "SHORT"
    then some Direction.short
    else none

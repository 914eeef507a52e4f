-- ===== src/Invocation/Identity.antt =====
-- `InvocationIdentity`, the OC-1 identity of one planned piece of model work.
use text.Mathlib.TextEquality.{eq_iff}
use text.Mathlib.Text.{◌==◌ as str_eq}
use crypto_radar.Base.{
  List, [], ◌∷◌, ◌||◌, leb, nat_beq, all, length, if◌then◌else◌, ℕ, Option, String, ◌≡◌, ◌↔◌, Bool,
  true, false, ◌&&◌, arith,
}
use crypto_radar.Invocation.Text.{codes, valid_text}
use crypto_radar.Base.Equality.{Eq}

-- `InstrumentKind` of radar_v08/domain/integrity.py
pub data InstrumentKind : Type 0 where
  spot futures : InstrumentKind

pub data Direction : Type 0 where
  long short none : Direction

pub record InvocationIdentity : Type 0 where
  pub venue : String
  pub market_kind : InstrumentKind
  pub native_instrument : String
  pub setup : String
  pub direction : Direction
  pub evidence_hash : String
  pub policy_version : String

abbrev pub kind_eq : InstrumentKind → InstrumentKind → Bool
kind_eq spot spot = true
kind_eq futures futures = true
kind_eq _ _ = false

abbrev pub direction_eq : Direction → Direction → Bool
direction_eq long long = true
direction_eq short short = true
direction_eq none none = true
direction_eq _ _ = false

-- The dataclass compares field by field, in the order of `columns`.
unfoldable pub identity_eq : InvocationIdentity → InvocationIdentity → Bool
identity_eq a b =
    str_eq a.venue b.venue
    && kind_eq a.market_kind b.market_kind
    && str_eq a.native_instrument b.native_instrument
    && str_eq a.setup b.setup
    && direction_eq a.direction b.direction
    && str_eq a.evidence_hash b.evidence_hash
    && str_eq a.policy_version b.policy_version

pub kind_eq_iff : (a b : InstrumentKind) → (kind_eq a b ≡ true) ↔ (a ≡ b)
kind_eq_iff a b = ground arith

pub direction_eq_iff : (a b : Direction) → (direction_eq a b ≡ true) ↔ (a ≡ b)
direction_eq_iff a b = ground arith

pub identity_eq_iff : (a b : InvocationIdentity) → (identity_eq a b ≡ true) ↔ (a ≡ b)
unfolding identity_eq
identity_eq_iff a b = ground (
  arith,
  eq_iff a.venue b.venue,
  kind_eq_iff a.market_kind b.market_kind,
  eq_iff a.native_instrument b.native_instrument,
  eq_iff a.setup b.setup,
  direction_eq_iff a.direction b.direction,
  eq_iff a.evidence_hash b.evidence_hash,
  eq_iff a.policy_version b.policy_version,
)

instance abbrev pub identity_equality : Eq InvocationIdentity
identity_equality = record { test = identity_eq; test_iff = identity_eq_iff }

-- The digits of a hash, if the text begins with `sha256:`.
abbrev pub strip_prefix : List ℕ → List ℕ → Option (List ℕ)
strip_prefix [] cs = Option.some cs
strip_prefix (p ∷ ps) [] = Option.none
strip_prefix (p ∷ ps) (c ∷ cs) = if nat_beq p c then strip_prefix ps cs else Option.none

abbrev is_hex : ℕ → Bool
is_hex c = (leb b'0' c && leb c b'9') || (leb b'a' c && leb c b'f')

abbrev pub valid_digest : Option (List ℕ) → Bool
valid_digest Option.none = false
valid_digest (Option.some digest) = nat_beq (length digest) 64 && all is_hex digest

-- `InvocationIdentity.__post_init__` raises `INVALID_FIELD` exactly where this is false.
unfoldable pub valid_identity : InvocationIdentity → Bool
unfolding valid_text
valid_identity i =
    valid_text i.venue
    && valid_text i.native_instrument
    && valid_text i.setup
    && valid_text i.policy_version
    && valid_text i.evidence_hash
    && valid_digest (strip_prefix (codes "sha256:") (codes i.evidence_hash))

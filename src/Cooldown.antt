-- ===== src/Cooldown.antt =====
-- radar_v08/cooldown.py on the table `model_cooldowns` of radar_v08/store.py. Python's floats, the
-- hours between two moments and the limits of radar_v08/config.py are parameters.
pub mod Restart
pub mod Tests
use text.Mathlib.Text.{◌==◌ as str_eq}
use text.Mathlib.TextEquality.{eq_iff}
use crypto_radar.Base.{
  ℕ, String, ◌≡◌, ◌↔◌, Bool, true, false, ◌&&◌, ◌||◌, not, Option, none, some, arith, if◌then◌else◌,
}
use crypto_radar.Base.Equality.{Eq}
use crypto_radar.Base.Dict.{Dict, lookup, insert}
use crypto_radar.Float.{Float}
use crypto_radar.Invocation.Lease.{Instant}

-- The primary key of the table.
pub record Pair : Type 0 where
  pub asset : String
  pub model : String

abbrev pair_eq : Pair → Pair → Bool
pair_eq a b = str_eq a.asset b.asset && str_eq a.model b.model

pub pair_eq_iff : (a b : Pair) → (pair_eq a b ≡ true) ↔ (a ≡ b)
pair_eq_iff a b = ground (arith, eq_iff a.asset b.asset, eq_iff a.model b.model)

instance abbrev pub pair_equality : Eq Pair
pair_equality = record { test = pair_eq; test_iff = pair_eq_iff }

-- A row of the table.
pub record Sent (F : Type 0) : Type 0 where
  pub last_sent : Instant
  pub setup_type : String
  pub direction : String
  pub opportunity_score : Option F

pub data Reason : Type 0 where
  no_prior_send cooldown_expired setup_type_changed direction_changed opportunity_increase
        in_cooldown :
      Reason

-- `(allowed, reason)`
pub record Verdict : Type 0 where
  pub allowed : Bool
  pub reason : Reason

abbrev allow : Reason → Verdict
allow r = record { allowed = true; reason = r }

-- What the check reads of config.py, and `(now - last_sent).total_seconds() / 3600.0`.
pub record Limits (F : Type 0) : Type 0 where
  pub cooldown_hours : F
  pub opportunity_jump : F
  pub elapsed_hours : Instant → Instant → F

module _ {F : Type 0} where
  -- `get_cooldown`
  unfoldable pub get_cooldown : Pair → Dict Pair (Sent F) → Option (Sent F)
  get_cooldown p table = lookup p table

  -- `set_cooldown`
  unfoldable pub set_cooldown : Pair → Sent F → Dict Pair (Sent F) → Dict Pair (Sent F)
  set_cooldown p sent table = insert p sent table

  abbrev pub sent_at : Instant → String → String → Option F → Sent F
  sent_at now setup direction score = record {
    last_sent = now;
    setup_type = setup;
    direction = direction;
    opportunity_score = score;
  }

  -- `record_send`
  unfoldable pub record_send :
      Pair → Instant → String → String → Option F → Dict Pair (Sent F) → Dict Pair (Sent F)
  unfolding set_cooldown
  record_send p now setup direction score table =
      set_cooldown p (sent_at now setup direction score) table

  module _ (num : Float F) (limits : Limits F) where
    abbrev pub jumped : Option F → Option F → Bool
    jumped none before = false
    jumped (some score) none = num.at_least (num.minus score (num.whole 0)) limits.opportunity_jump
    jumped (some score) (some before) =
        num.at_least (num.minus score before) limits.opportunity_jump

    -- `check_cooldown` of the row that it reads.
    abbrev pub judge : Instant → String → String → Option F → Option (Sent F) → Verdict
    judge now setup direction score none = allow no_prior_send
    judge now setup direction score (some row) =
        if num.at_least (limits.elapsed_hours now row.last_sent) limits.cooldown_hours
        then allow cooldown_expired
        else if not (str_eq row.setup_type setup)
        then allow setup_type_changed
        else if not (str_eq row.direction direction)
        then allow direction_changed
        else if jumped score row.opportunity_score
        then allow opportunity_increase
        else record { allowed = false; reason = in_cooldown }

    unfoldable pub check_cooldown :
        Pair → Instant → String → String → Option F → Dict Pair (Sent F) → Verdict
    unfolding get_cooldown
    check_cooldown p now setup direction score table =
        judge now setup direction score (get_cooldown p table)

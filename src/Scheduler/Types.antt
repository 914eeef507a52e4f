-- ===== src/Scheduler/Types.antt =====
-- The enums and plain records of scheduler.py.
use crypto_radar.Base.{ℕ, ◌+◌, String, ◌≡◌, Bool, true, false, Option, none, some}
use crypto_radar.Scheduler.Time.{Instant}
use Prim.Native.String.{len}

pub data SchedulerFailure : Type 0 where
  invalid_field invalid_policy invalid_clock clock_went_backwards unknown_item : SchedulerFailure

pub data Horizon : Type 0 where
  min_15 hour_1 hour_4 hour_24 : Horizon

pub data Band : Type 0 where
  high eligible : Band

pub data Role : Type 0 where
  screener challenger deep_analyst : Role

pub data ItemState : Type 0 where
  queued running completed failed superseded dropped_backpressure abort_stale : ItemState
  deterministic_only abstain not_eligible integrity_invalid incompatible_version : ItemState

-- `ACTIVE_ITEM_STATES`; every other state is terminal.
abbrev pub is_active : ItemState → Bool
is_active queued = true
is_active running = true
is_active _ = false

pub data StaleReason : Type 0 where
  deadline_passed queued_age_exceeded late_result : StaleReason

pub data AdmissionStatus : Type 0 where
  admitted duplicate refused : AdmissionStatus

pub data IdleReason : Type 0 where
  busy empty : IdleReason

pub data CallRefusal : Type 0 where
  not_running deadline_passed role_disabled input_over_role_cap invocation_cap : CallRefusal
  repair_cap prompt_token_cap output_token_cap deadline_unfit : CallRefusal

pub data TokenBasis : Type 0 where
  tokenizer_count utf8_byte_upper_bound : TokenBasis

pub record TokenBound : Type 0 where
  pub upper_bound : ℕ
  pub basis : TokenBasis

-- `utf8_byte_upper_bound`: the bytes of the text, and the template's own tokens.
unfoldable pub utf8_byte_bound : String → ℕ → TokenBound
utf8_byte_bound text special_tokens = record {
  upper_bound = len text + special_tokens;
  basis = TokenBasis.utf8_byte_upper_bound;
}

pub record HorizonLimits : Type 0 where
  pub analysis_deadline_seconds : ℕ
  pub max_queued_age_seconds : ℕ

pub record RoleProfile : Type 0 where
  pub hard_timeout_seconds : ℕ
  pub max_input_tokens : ℕ
  pub output_cap_tokens : ℕ
  pub enabled : Bool

pub record Transition : Type 0 where
  pub item_id : String
  pub state : ItemState
  pub at : Instant
  pub related_id : Option String
  pub stale_reason : Option StaleReason

abbrev pub transition : String → ItemState → Instant → Transition
transition id state now = record {
  item_id = id;
  state = state;
  at = now;
  related_id = none;
  stale_reason = none;
}

abbrev pub abort : String → StaleReason → Instant → Transition
abort id reason now = record {
  item_id = id;
  state = ItemState.abort_stale;
  at = now;
  related_id = none;
  stale_reason = some reason;
}

-- A public call returns, or raises `SchedulerError` before it has changed anything, or meets a
-- dict key that is not there (Python's `KeyError`).
pub data Outcome {ℓ} (A : Type ℓ) : Type ℓ where
  ok : A → Outcome A
  err : SchedulerFailure → Outcome A
  key_error : Outcome A

infixl 5 ◌>>=◌
abbrev pub ◌>>=◌ {ℓ κ} : {A : Type ℓ} {B : Type κ} → Outcome A → (A → Outcome B) → Outcome B
ok a >>= f = f a
err e >>= f = err e
key_error >>= f = key_error

-- A call that may be refused but meets no missing key, and whose results have a property.
abbrev pub Safe {ℓ} : {A : Type ℓ} → (A → Type 0) → Outcome A → Type 0
Safe P (ok a) = P a
Safe P (err e) = Unit
Safe P key_error = ⊥

pub Safe-bind {ℓ κ} :
    {A : Type ℓ} {B : Type κ} (P : A → Type 0) (Q : B → Type 0) (m : Outcome A) (f : A → Outcome B)
    → Safe P m
    → ((a : A) → P a → Safe Q (f a))
    → Safe Q (m >>= f)
Safe-bind P Q (ok a) f h k = k a h
Safe-bind P Q (err e) f h k = tt
Safe-bind P Q key_error f h k = h

pub Safe-map {ℓ} :
    {A : Type ℓ} (P Q : A → Type 0) → ((a : A) → P a → Q a) → (m : Outcome A) → Safe P m → Safe Q m
Safe-map P Q f (ok a) h = f a h
Safe-map P Q f (err e) h = tt
Safe-map P Q f key_error h = h

pub Safe-of_eq {ℓ} : {A : Type ℓ} (P : A → Type 0) {m n : Outcome A} → m ≡ n → Safe P n → Safe P m
Safe-of_eq P e h = rw e h

-- Where the first part is known to return, the rest decides.
pub Safe-returns {ℓ κ} :
    {A : Type ℓ} {B : Type κ} (Q : B → Type 0) (m : Outcome A) (f : A → Outcome B) (a : A)
    → m ≡ ok a
    → Safe Q (f a)
    → Safe Q (m >>= f)
Safe-returns Q m f a e k = rw e k

-- A call that returns, with a result that has a property.
abbrev pub Returns {ℓ} : {A : Type ℓ} → (A → Type 0) → Outcome A → Type 0
Returns P (ok a) = P a
Returns P (err e) = ⊥
Returns P key_error = ⊥

pub Returns-of_eq {ℓ} :
    {A : Type ℓ} (P : A → Type 0) {m n : Outcome A} → m ≡ n → Returns P n → Returns P m
Returns-of_eq P e h = rw e h

pub Returns-then {ℓ κ} :
    {A : Type ℓ} {B : Type κ} (Q : B → Type 0) (m : Outcome A) (f : A → Outcome B) (a : A)
    → m ≡ ok a
    → Returns Q (f a)
    → Returns Q (m >>= f)
Returns-then Q m f a e k = rw e k

pub Returns-Safe {ℓ} :
    {A : Type ℓ} (P Q : A → Type 0)
    → ((a : A) → P a → Q a)
    → (m : Outcome A) → Returns P m
    → Safe Q m
Returns-Safe P Q f (ok a) h = f a h
Returns-Safe P Q f (err e) h = tt
Returns-Safe P Q f key_error h = h

pub Returns-map {ℓ} :
    {A : Type ℓ} (P Q : A → Type 0)
    → ((a : A) → P a → Q a)
    → (m : Outcome A) → Returns P m
    → Returns Q m
Returns-map P Q f (ok a) h = f a h
Returns-map P Q f (err e) h = absurd h
Returns-map P Q f key_error h = absurd h

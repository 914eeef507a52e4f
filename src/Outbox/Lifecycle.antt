-- ===== src/Outbox/Lifecycle.antt =====
-- The lifecycle of a work item, of radar_v08/adapters/outbox_store.py.
use crypto_radar.Base.{String, Bool, true, false, Option, none, some}

pub data LifecycleState : Type 0 where
  queued loading running finished failed abort_stale superseded dropped_backpressure :
      LifecycleState

-- `LifecycleState.value`
abbrev pub value : LifecycleState → String
value queued = "QUEUED"
value loading = "LOADING"
value running = "RUNNING"
value finished = "FINISHED"
value failed = "FAILED"
value abort_stale = "ABORT_STALE"
value superseded = "SUPERSEDED"
value dropped_backpressure = "DROPPED_BACKPRESSURE"

-- `TERMINAL_STATES`
abbrev pub is_terminal : LifecycleState → Bool
is_terminal queued = false
is_terminal loading = false
is_terminal running = false
is_terminal _ = true

-- `INITIAL_STATES`
abbrev pub is_initial : LifecycleState → Bool
is_initial queued = true
is_initial superseded = true
is_initial dropped_backpressure = true
is_initial abort_stale = true
is_initial _ = false

-- `new in ALLOWED_TRANSITIONS[current]`
abbrev pub allowed : LifecycleState → LifecycleState → Bool
allowed queued loading = true
allowed queued running = true
allowed queued superseded = true
allowed queued dropped_backpressure = true
allowed queued abort_stale = true
allowed loading running = true
allowed loading failed = true
allowed loading abort_stale = true
allowed running finished = true
allowed running failed = true
allowed running abort_stale = true
allowed _ _ = false

-- `check_transition` raises `INVALID_TRANSITION` where this is false.
abbrev pub check_transition : Option LifecycleState → LifecycleState → Bool
check_transition none new = is_initial new
check_transition (some current) new = allowed current new

abbrev pub state_eq : LifecycleState → LifecycleState → Bool
state_eq queued queued = true
state_eq loading loading = true
state_eq running running = true
state_eq finished finished = true
state_eq failed failed = true
state_eq abort_stale abort_stale = true
state_eq superseded superseded = true
state_eq dropped_backpressure dropped_backpressure = true
state_eq _ _ = false

-- ===== src/Scheduler/Calls.antt =====
-- `authorize_call`, `complete` and `fail`: what the worker does with the running item.
pub mod Total
use crypto_radar.Base.{
  ℕ, ◌+◌, ◌*◌, String, Bool, true, false, ◌&&◌, not, Option, none, some, List, [], ◌∷◌, ◌++◌, ltb,
  leb, if◌then◌else◌,
}
use crypto_radar.Base.Equality.{◌==◌, string_eq}
use crypto_radar.Invocation.Text.{valid_text}
use crypto_radar.Scheduler.Time.{Instant, second}
use crypto_radar.Scheduler.Types.{
  Role, RoleProfile, ItemState, StaleReason, SchedulerFailure, CallRefusal, TokenBound, Outcome, ok,
  err, key_error, ◌>>=◌, Transition, transition, abort,
}
use crypto_radar.Scheduler.Policy.{SchedulerPolicy}
use crypto_radar.Scheduler.Version.{require}
use crypto_radar.Scheduler.State.{Running, State, id_of, read_clock, begin, sweep_state}

pub record CallUsage : Type 0 where
  pub invocations : ℕ
  pub repairs : ℕ
  pub prompt_tokens : ℕ
  pub output_tokens : ℕ

pub record CallDecision : Type 0 where
  pub item_id : String
  pub refusal : Option CallRefusal
  pub call_deadline : Option Instant
  pub usage : CallUsage
  pub transitions : List Transition

pub record CompletionResult : Type 0 where
  pub item_id : String
  pub state : ItemState
  pub publishable : Bool
  pub transitions : List Transition

-- `_Running.usage`
abbrev pub usage : Running → CallUsage
usage r = record {
  invocations = r.invocations;
  repairs = r.repairs;
  prompt_tokens = r.prompt_tokens;
  output_tokens = r.output_tokens;
}

abbrev pub no_usage : CallUsage
no_usage = record { invocations = 0; repairs = 0; prompt_tokens = 0; output_tokens = 0 }

-- The first rule that a call of the running item breaks, in the order of the tests.
unfoldable pub call_refusal :
    SchedulerPolicy → Instant → Running → Role → Bool → TokenBound → Option CallRefusal
call_refusal p now r role repair prompt =
    let profile = p.role_profiles role in
    if r.aborted
    then some CallRefusal.deadline_passed
    else if not profile.enabled
    then some CallRefusal.role_disabled
    else if ltb profile.max_input_tokens prompt.upper_bound
    then some CallRefusal.input_over_role_cap
    else if ltb p.max_invocations (r.invocations + 1)
    then some CallRefusal.invocation_cap
    else if repair && ltb p.max_repairs (r.repairs + 1)
    then some CallRefusal.repair_cap
    else if ltb p.max_prompt_tokens (r.prompt_tokens + prompt.upper_bound)
    then some CallRefusal.prompt_token_cap
    else if ltb p.max_output_tokens (r.output_tokens + profile.output_cap_tokens)
    then some CallRefusal.output_token_cap
    else if ltb r.entry.deadline
        (now + profile.hard_timeout_seconds * second + p.finalization_reserve_seconds * second)
    then some CallRefusal.deadline_unfit
    else none

-- What an allowed call reserves.
abbrev pub reserve : SchedulerPolicy → Running → Role → Bool → TokenBound → Running
reserve p r role repair prompt = record r {
  invocations = r.invocations + 1;
  repairs = r.repairs + (if repair then 1 else 0);
  prompt_tokens = r.prompt_tokens + prompt.upper_bound;
  output_tokens = r.output_tokens + (p.role_profiles role).output_cap_tokens;
}

abbrev pub decision :
    String → Option CallRefusal → Option Instant → CallUsage → List Transition → CallDecision
decision id refused until used out = record {
  item_id = id;
  refusal = refused;
  call_deadline = until;
  usage = used;
  transitions = out;
}

-- The decision about the running item, if it has the id of the call.
unfoldable pub decide :
    SchedulerPolicy
    → Instant
    → String
    → Role
    → Bool
    → TokenBound
    → List Transition
    → State
    → CallDecision × State
decide p now id role repair prompt out s =
    let not_running : CallDecision × State =
      (decision id (some CallRefusal.not_running) none no_usage out, s) in
    elim s.running [
      | none ↦ not_running
      | some r ↦
          if not (id_of r.entry == id)
          then not_running
          else elim (call_refusal p now r role repair prompt) [
            | some reason ↦ (decision id (some reason) none (usage r) out, s)
            | none ↦
                let r' = reserve p r role repair prompt in
                let until = now + (p.role_profiles role).hard_timeout_seconds * second in
                (decision id none (some until) (usage r') out, record s { running = some r' })
          ]
    ]

-- `authorize_call`
unfoldable pub authorize_call :
    SchedulerPolicy
    → Option Instant
    → String
    → Role
    → Bool
    → TokenBound
    → State
    → Outcome (CallDecision × State)
authorize_call p reading id role repair prompt s = do
  _ ← require (valid_text id) SchedulerFailure.invalid_field
  now ← read_clock p reading s
  (out, s') ← begin p now s
  ok (decide p now id role repair prompt out s')

-- `_require_running`
unfoldable pub require_running : String → State → Outcome Running
require_running id s = elim s.running [
  | none ↦ err SchedulerFailure.unknown_item
  | some r ↦ if id_of r.entry == id then ok r else err SchedulerFailure.unknown_item
]

abbrev pub was_aborted : Option Running → Bool
was_aborted none = false
was_aborted (some r) = r.aborted

abbrev pub completion : String → ItemState → Bool → List Transition → CompletionResult
completion id state publishable out = record {
  item_id = id;
  state = state;
  publishable = publishable;
  transitions = out;
}

-- The end of `complete` and `fail`: an aborted item stays `ABORT_STALE`.
abbrev pub finish :
    String → ItemState → Bool → Instant → List Transition → State → CompletionResult × State
finish id state publishable now out s =
    let s' = record s { running = none } in
    if was_aborted s.running
    then (completion id ItemState.abort_stale false out, s')
    else (completion id state publishable (out ++ transition id state now ∷ []), s')

-- A result after the deadline aborts the item with its own reason, before the sweep.
abbrev pub late : String → Instant → Running → Running × List Transition
late id now r =
    if not r.aborted && leb r.entry.deadline now
    then (record r { aborted = true }, abort id StaleReason.late_result now ∷ [])
    else (r, [])

-- `complete`
unfoldable pub complete :
    SchedulerPolicy → Option Instant → String → State → Outcome (CompletionResult × State)
complete p reading id s = do
  _ ← require (valid_text id) SchedulerFailure.invalid_field
  now ← read_clock p reading s
  r ← require_running id s
  let (r', early) = late id now r
  (swept, s') ← sweep_state p now (record s { last_now = some now; running = some r' })
  ok (finish id ItemState.completed true now (early ++ swept) s')

-- `fail`
unfoldable pub fail :
    SchedulerPolicy → Option Instant → String → State → Outcome (CompletionResult × State)
fail p reading id s = do
  _ ← require (valid_text id) SchedulerFailure.invalid_field
  now ← read_clock p reading s
  _ ← require_running id s
  (out, s') ← begin p now s
  ok (finish id ItemState.failed false now out s')

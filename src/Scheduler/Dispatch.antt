-- ===== src/Scheduler/Dispatch.antt =====
-- `DeadlineScheduler.dispatch`: which queued item gets the one inference slot.
pub mod Choice
pub mod Total
use crypto_radar.Base.{
  ℕ, ◌+◌, ◌%◌, String, Bool, true, false, ◌&&◌, Option, none, some, List, [], ◌∷◌, ◌++◌, nat_beq,
  if◌then◌else◌,
}
use crypto_radar.Base.Dict.{values}
use crypto_radar.Base.Order.{min_by}
use crypto_radar.Scheduler.Time.{Instant}
use crypto_radar.Scheduler.Types.{
  Band, high, eligible, Role, ItemState, IdleReason, Outcome, ok, err, key_error, ◌>>=◌, Transition,
  transition,
}
use crypto_radar.Scheduler.Policy.{SchedulerPolicy}
use crypto_radar.Scheduler.State.{
  QueuedEntry, Running, State, id_of, rank_key, fair_key, read_clock, path_fits, remove, begin,
}

pub record Dispatched : Type 0 where
  pub item_id : String
  pub path : List Role
  pub deadline : Instant
  pub slot_number : ℕ
  pub fair_slot : Bool

pub record DispatchResult : Type 0 where
  pub dispatched : Option Dispatched
  pub idle : Option IdleReason
  pub transitions : List Transition

abbrev pub is_eligible : Band → Bool
is_eligible high = false
is_eligible eligible = true

-- The entries that a reserved slot may go to, in the order of the queue.
unfoldable pub lower_band : SchedulerPolicy → Instant → List QueuedEntry → List QueuedEntry
lower_band p now [] = []
lower_band p now (e ∷ es) =
    let rest = lower_band p now es in
    if is_eligible e.band && path_fits p e.path now e.deadline then e ∷ rest else rest

-- `min(lower, key=_fair_key)`, if there is one
unfoldable pub fairest : List QueuedEntry → Option QueuedEntry
fairest [] = none
fairest (e ∷ es) = some (min_by fair_key e es)

-- The choice from a queue that is not empty, and whether the reserved slot was used for it.
unfoldable pub choose :
    SchedulerPolicy → Instant → ℕ → QueuedEntry → List QueuedEntry → QueuedEntry × Bool
choose p now slot e es =
    let ordinary : QueuedEntry × Bool = (min_by rank_key e es, false) in
    if nat_beq (slot % p.fair_slot_every) 0
    then elim (fairest (lower_band p now (e ∷ es))) [ none ↦ ordinary | some f ↦ (f, true) ]
    else ordinary

-- `_Running(chosen, now)`
abbrev pub start : QueuedEntry → Instant → Running
start e now = record {
  entry = e;
  dispatched_at = now;
  invocations = 0;
  repairs = 0;
  prompt_tokens = 0;
  output_tokens = 0;
  aborted = false;
}

abbrev idle : IdleReason → List Transition → State → DispatchResult × State
idle reason out s = (record { dispatched = none; idle = some reason; transitions = out }, s)

-- The choice leaves the queue and runs.
unfoldable pub run_chosen :
    Instant → ℕ → QueuedEntry → Bool → List Transition → State → Outcome (DispatchResult × State)
run_chosen now slot chosen fair out s = do
  (gone, s') ← remove (id_of chosen) (record s { slots_used = slot })
  let dispatched : Dispatched = record {
    item_id = id_of chosen;
    path = chosen.path;
    deadline = chosen.deadline;
    slot_number = slot;
    fair_slot = fair;
  }
  ok (
    record {
      dispatched = some dispatched;
      idle = none;
      transitions = out ++ transition (id_of chosen) ItemState.running now ∷ [];
    },
    record s' { running = some (start chosen now) },
  )

unfoldable pub dispatch_swept :
    SchedulerPolicy → Instant → List Transition → State → Outcome (DispatchResult × State)
dispatch_swept p now out s = elim s.running [
  | some r ↦ ok (idle IdleReason.busy out s)
  | none ↦ elim (values s.queue) [
    | [] ↦ ok (idle IdleReason.empty out s)
    | e ∷ es ↦
        let slot = s.slots_used + 1 in
        let (chosen, fair) = choose p now slot e es in run_chosen now slot chosen fair out s
  ]
]

-- `dispatch`
unfoldable pub dispatch :
    SchedulerPolicy → Option Instant → State → Outcome (DispatchResult × State)
dispatch p reading s = do
  now ← read_clock p reading s
  (out, s') ← begin p now s
  dispatch_swept p now out s'

-- ===== src/Outbox/Reach.antt =====
-- The outbox tables under calls in any order, and under the callers' changes of `events`.
pub mod Drain
pub mod Again
use crypto_radar.Base.{
  ℕ, ◌+◌, ◌≤◌, String, ◌≡◌, refl, sym, ◌∙◌, ap, true, false, Option, none, some, List, [], ◌∷◌,
  ◌++◌, arith, All, Elem, Bool,
}
use mathlib.Core.List.{append_assoc}
use crypto_radar.Base.Equality.{string_eq}
use crypto_radar.Base.Dict.{Dict, lookup}
use crypto_radar.Base.Result.{Result, ok, Leaves, Leaves_at}
use crypto_radar.Invocation.Lease.{Instant}
use crypto_radar.Invocation.Store.{Connection}
use crypto_radar.Outbox.Lifecycle.{LifecycleState}
use crypto_radar.Outbox.Table.{DeliveryId, EventRow, OutboxEntry, Store, last_seq}
use crypto_radar.Outbox.Record.{
  state_of, RecordResult, Handoff, record_event_row, record_lifecycle_transition, record_handoff,
}
use crypto_radar.Outbox.Consumer.{position_of, acknowledge}
use crypto_radar.Outbox.Log.{IsNumbered, IsDistinct, replay, IsLegal}
use crypto_radar.Outbox.Sound.{IsSound, IsAddressed}
use crypto_radar.Outbox.Change.{Appends, Change, read_on, noted, handed, entered}
use crypto_radar.Outbox.Change.Sound.{Change-IsSound}
use crypto_radar.Outbox.Export.{File, ExportResult, export_jsonl}
use crypto_radar.Outbox.Change.Exports.{export_jsonl-Change}
use crypto_radar.Outbox.Change.Works.{
  record_event_row-Change, record_lifecycle_transition-Change, record_handoff-Change,
  acknowledge-Change,
}

abbrev pub empty : Store
empty = record { outbox = []; items = []; cursors = []; events = [] }

-- One call that returns, or a change of the legacy table.
pub data Step (s s' : Store) : Type 0 where
  note :
      (c : Connection) (id : String) (now : Instant) (out : OutboxEntry)
      → record_event_row c id now s ≡ ok (out, s')
      → Step s s'
  transit :
      (c : Connection) (item : String) (state : LifecycleState) (related reason : Option String)
      → (now : Instant) (out : RecordResult)
      → record_lifecycle_transition c item state related reason now s ≡ ok (out, s')
      → Step s s'
  hand :
      (c : Connection) (h : Handoff) (now : Instant) (out : RecordResult)
      → record_handoff c h now s ≡ ok (out, s')
      → Step s s'
  ack :
      (c : Connection) (name : String) (seq : ℕ) (now : Instant) (out : ℕ)
      → acknowledge c name seq now s ≡ ok (out, s')
      → Step s s'
  ship :
      (line : OutboxEntry → Option File) (read_id : File → Option DeliveryId) (c : Connection)
      → (name : String) (now : Instant) (failing : Bool) (file : File) (out : ExportResult × File)
      → export_jsonl line read_id c name now failing file s ≡ ok (out, s')
      → Step s s'
  caller : (events : Dict String EventRow) → s' ≡ record s { events = events } → Step s s'

pub data Run (s : Store) : Store → Type 0 where
  start : Run s s
  next : {s' s'' : Store} → Run s s' → Step s' s'' → Run s s''

pub Step-Change : (s s' : Store) → Step s s' → Change s s'
unfolding position_of
Step-Change s s' (note c id now out e) =
    Leaves_at (Change s) (out, s') e (record_event_row-Change c id now s)
Step-Change s s' (transit c item state related reason now out e) =
    Leaves_at (Change s) (out, s') e
      (record_lifecycle_transition-Change c item state related reason now s)
Step-Change s s' (hand c h now out e) =
    Leaves_at (Change s) (out, s') e (record_handoff-Change c h now s)
Step-Change s s' (ack c name seq now out e) =
    Leaves_at (Change s) (out, s') e (acknowledge-Change c name seq now s)
Step-Change s s' (ship line read_id c name now failing file out e) =
    Leaves_at (Change s) (out, s') e (export_jsonl-Change line read_id c name now failing file s)
Step-Change s s' (caller events e) =
    read_on (ap Store.outbox e) (ap Store.items e) (λ name. ground (arith, ap Store.cursors e))

pub empty-IsSound : IsSound empty
unfolding lookup position_of last_seq
empty-IsSound = record {
  numbered = tt;
  distinct = tt;
  counted = λ e. tt;
  addressed = tt;
  replayed = λ item. refl;
  legal = λ item. tt;
  known = λ name. omega arith;
}

pub Run-IsSound : (s s' : Store) → IsSound s → Run s s' → IsSound s'
Run-IsSound s s' h start = h
Run-IsSound s _ h (next {s'} {s''} r step) =
    Change-IsSound s' s'' (Step-Change s' s'' step) (Run-IsSound s s' h r)

-- After any sequence of calls from empty tables, the state that the item table holds for an item is
-- the one that a replay of the item's rows in the outbox ends in; and each of these rows is an
-- allowed move from the state that the rows before it lead to, which it names as the previous
-- state.
pub items_replay_log :
    {s : Store} (item : String)
    → Run empty s
    → (state_of (lookup item s.items) ≡ replay item none s.outbox) × IsLegal item none s.outbox
items_replay_log {s} item run =
    let h = Run-IsSound empty s empty-IsSound run in (h.replayed item, h.legal item)

-- After any sequence of calls from empty tables, the rows of the outbox are numbered 1, 2 and so on
-- without a gap, and no two of them have the same delivery id.
pub log-IsNumbered : {s : Store} → Run empty s → IsNumbered 0 s.outbox × IsDistinct s.outbox
log-IsNumbered {s} run = let h = Run-IsSound empty s empty-IsSound run in (h.numbered, h.distinct)

-- After any sequence of calls from empty tables, every handoff in the outbox has a sender and a
-- receiver that are role names and differ.
pub handoffs-IsAddressed : {s : Store} → Run empty s → All (λ r. IsAddressed r.payload) s.outbox
handoffs-IsAddressed {s} run = (Run-IsSound empty s empty-IsSound run).addressed

-- The log goes on and the cursors go forward.
pub record Extends (s s' : Store) : Type 0 where
  pub more : List OutboxEntry
  pub log : s'.outbox ≡ s.outbox ++ more
  pub cursors : (name : String) → position_of name s ≤ position_of name s'

append_nil : (rs : List OutboxEntry) → rs ≡ rs ++ []
append_nil [] = refl
append_nil (r ∷ rs) = ap (λ xs. r ∷ xs) (append_nil rs)

Change-Extends : (s s' : Store) → Change s s' → Extends s s'
unfolding position_of
Change-Extends s s' (read_on log items cursors) = record {
  more = [];
  log = log ∙ append_nil s.outbox;
  cursors = λ name. (cursors name).0;
}
Change-Extends s s' (noted r e row a id kind subject payload items) = record {
  more = r ∷ [];
  log = a.outbox;
  cursors = λ name. ground (arith, a.cursors);
}
Change-Extends s s' (handed r p a id new kind payload addressed items) = record {
  more = r ∷ [];
  log = a.outbox;
  cursors = λ name. ground (arith, a.cursors);
}
Change-Extends s s' (entered r p row a id new kind payload before move state items) = record {
  more = r ∷ [];
  log = a.outbox;
  cursors = λ name. ground (arith, a.cursors);
}

-- Any sequence of calls only adds rows at the end of the outbox, and takes no consumer's cursor
-- back.
pub Run-Extends : {s s' : Store} → Run s s' → Extends s s'
Run-Extends {s} start = record {
  more = [];
  log = append_nil s.outbox;
  cursors = λ name. omega arith;
}
Run-Extends {s} (next {s'} {s''} r step) =
    let x = Run-Extends r in
    let y = Change-Extends s' s'' (Step-Change s' s'' step) in
    record {
      more = x.more ++ y.more;
      log = y.log ∙ (ap (λ l. l ++ y.more) x.log ∙ append_assoc s.outbox x.more y.more);
      cursors = λ name. omega (arith, x.cursors name, y.cursors name);
    }

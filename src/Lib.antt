-- ===== src/Lib.antt =====
-- crypto_radar: the program is a market scanner that classifies setups of crypto assets, routes the
-- strongest ones to language models, and keeps those paid or local calls inside deadlines and
-- budgets. What is modelled, by part:
--
-- * Scheduler/ is radar_v08/workflow/scheduler.py, the deadline scheduler of the analysis worker.
--   Scheduler/Policy.antt is `SchedulerPolicy`, Scheduler/Version.antt `OpportunityVersion` and its
--   checks, Scheduler/State.antt the private state of `DeadlineScheduler` (the queue and its two
--   indexes as dicts in insertion order, the running item, the slots, the last moment) with
--   `_read_clock`, `_begin`, `_sweep`, `_insert` and `_remove`; Scheduler/Admission.antt is `admit`,
--   Scheduler/Dispatch.antt `dispatch`, Scheduler/Calls.antt `authorize_call`, `complete` and `fail`.
--   The proofs are in the modules below these and in Scheduler/Queue, Invariant and Reach. The
--   clock is a parameter of each call: the reading it gives, or none for a naive datetime.
-- * Invocation/ is radar_v08/domain/invocation.py (Text, Identity, Lease, Reads) and
--   radar_v08/adapters/invocation_store.py (Store, Claim, Holder, Recovery, Reads). The three tables
--   are dicts by their primary keys. A transaction is a function from the tables to an answer and
--   the tables it commits, or an error that commits nothing. The scheduler uses the identity.
--   Invocation/Sound.antt says what the tables keep, Invocation/Change.antt which changes a
--   transaction is made of, and Invocation/Reach.antt runs calls in any order.
-- * Outbox/ is radar_v08/adapters/outbox_store.py, the outbox that carries events, lifecycle moves and
--   handoffs to consumers: Outbox/Text.antt its patterns, Outbox/Lifecycle.antt the state machine of
--   a work item, Outbox/Table.antt the tables and the transactions, Outbox/Record.antt what writes
--   rows, Outbox/Consumer.antt what reads and acknowledges them, and Outbox/Export.antt the export to
--   a file of bytes. Outbox/Log.antt reads the outbox as the history of its items, Outbox/Sound.antt
--   says what the tables keep, Outbox/Change.antt which changes a call is made of, and
--   Outbox/Reach.antt runs calls in any order. The caller of `record_event_row` may change the legacy
--   table of events at will.
-- * Paper/ is radar_v08/domain/paper.py: Paper/Quote.antt the quotes, Paper/Exit.antt the exit policy,
--   Paper/Play.antt the sums and the admission of a play. Risk/ is radar_v08/domain/risk.py:
--   Risk/Envelope.antt the envelope, its budget and the admission, Risk/Pair.antt the rules of a pair,
--   Risk/Sizing.antt the quantities and costs, Risk/Plan.antt and Risk/Plan/Steps.antt the plan of an
--   entry, Risk/Account.antt equity, locks and settlement. Python's decimals are the parameter of
--   Decimal.antt, whose records `IsOrder` and `IsMonotone` name what a theorem relies on;
--   Decimal/Fixed.antt has numbers that satisfy them, for the tests.
-- * Router.antt is radar_v08/router.py and Setups.antt is radar_v08/setups.py, on Python's floats
--   as the parameter of Float.antt, with the thresholds of radar_v08/config.py as parameters.
-- * Cooldown.antt is radar_v08/cooldown.py with the two queries of radar_v08/store.py that it makes.
-- * TradingMode.antt is radar_v08/domain/trading_mode.py.
-- * Base/ has the dicts, the orders and the list lemmas that all parts share.
--
-- Numbers: a moment is in microseconds since year 1, and the scheduler's bound of a datetime is
-- explicit; a score of the scheduler is a whole number of units of 2^-1074. Every loop is structural
-- recursion over a list, so no fuel is used: the tries of a busy database go through its list of
-- delays, and the loop of an entry's plan through the passes that are left of its three.
--
-- Not modelled: the network, the files and the databases behind the tables; rows of a corrupt
-- database; the arguments of a wrong Python type, which the types of the model exclude; the
-- scanner's statistics; the JSON texts of payloads and lines; the overflow and the invalid operations
-- of decimals outside their precision; the stores of the paper game and the pilot, and the ledger
-- parts.
pub mod Base
pub mod Float
pub mod Invocation
pub mod Scheduler
pub mod Cooldown
pub mod Router
pub mod Setups
pub mod TradingMode
pub mod Outbox
pub mod Decimal
pub mod Paper
pub mod Risk

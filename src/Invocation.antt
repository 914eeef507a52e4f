-- ===== src/Invocation.antt =====
-- The paid-model invocations of radar_v08: their domain types (domain/invocation.py) and the
-- transactions that claim, pay for, end and take over an invocation (adapters/invocation_store.py).
pub mod Text
pub mod Identity
pub mod Lease
pub mod Store
pub mod Claim
pub mod Holder
pub mod Recovery
pub mod Reads
pub mod Sound
pub mod Change
pub mod Reach
pub mod Tests

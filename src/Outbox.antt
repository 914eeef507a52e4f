-- ===== src/Outbox.antt =====
-- The delivery outbox of radar_v08 (adapters/outbox_store.py).
pub mod Text
pub mod Lifecycle
pub mod Table
pub mod Record
pub mod Consumer
pub mod Export
pub mod Log
pub mod Sound
pub mod Change
pub mod Reach
pub mod Tests

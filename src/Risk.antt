-- ===== src/Risk.antt =====
-- The risk engine of the pilot, radar_v08/domain/risk.py.
pub mod Envelope
pub mod Pair
pub mod Sizing
pub mod Plan
pub mod Account
pub mod Tests

-- ===== src/Paper.antt =====
-- The plays of radar_v08/domain/paper.py.
pub mod Quote
pub mod Exit
pub mod Play
pub mod Tests

-- ===== src/Scheduler.antt =====
-- The OC-1 admission, queue and deadline policy (radar_v08/workflow/scheduler.py).
pub mod Time
pub mod Types
pub mod Policy
pub mod Version
pub mod State
pub mod Admission
pub mod Dispatch
pub mod Calls
pub mod Queue
pub mod Invariant
pub mod Reach
pub mod Tests

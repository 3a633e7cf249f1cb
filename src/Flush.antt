-- ===== src/Flush.antt =====
-- The planner of a flush, emp-ag2pc/backend/flush_plan.h.
pub mod Plan
pub mod Ends
pub mod Needed
pub mod Canonical
pub mod Inputs
pub mod Stale
pub mod Compact
pub mod Value

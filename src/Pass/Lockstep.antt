-- ===== src/Pass/Lockstep.antt =====
-- The garble, the evaluate and the gamma-check pass of emp-ag2pc/backend/pass_ctx.h over one source:
-- each wire's state at the two parties fits together.
pub mod Tables
pub mod State
pub mod Rows
pub mod Chunks
pub mod Gate
pub mod AndGate
pub mod Steps
pub mod Kept
pub mod Whole
pub mod Check
pub mod CheckKept
pub mod CheckAll

-- ===== src/Pass/Slots.antt =====
-- The slot map that AG2PCSlotMaskPass of emp-ag2pc/backend/pass_ctx.h builds.
pub mod Valid
pub mod Alloc
pub mod Free
pub mod Step
pub mod Operations
pub mod Run

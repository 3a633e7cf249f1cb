-- ===== src/Pass.antt =====
-- The passes of emp-ag2pc/backend/pass_ctx.h and how the engine drives them over one source.
pub mod Source
pub mod Liveness
pub mod SlotMask
pub mod Garble
pub mod Evaluate
pub mod GammaCheck
pub mod Numbering
pub mod Reads
pub mod Coverage
pub mod Slots
pub mod Lockstep
pub mod Keeps

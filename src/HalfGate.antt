-- ===== src/HalfGate.antt =====
-- The half gate of emp-ag2pc/backend/pass_ctx.h: what and_gate of the garble, the evaluate and
-- the gamma-check pass compute from the labels, masks and shares of one AND.
pub mod Defs
pub mod Label
pub mod Gamma
pub mod Gate

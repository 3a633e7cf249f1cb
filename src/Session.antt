-- ===== src/Session.antt =====
-- emp-ag2pc/session: the gate recorder and the session that owns it.
pub mod Recorder
pub mod Recording
pub mod Carried
pub mod Roundtrip
pub mod State
pub mod Keeps
pub mod Flushing
pub mod Arguments
pub mod Batch
pub mod Fresh
pub mod Runs
pub mod Errors
pub mod Parts
pub mod Finish
pub mod Adding

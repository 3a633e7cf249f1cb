-- ===== src/Engine.antt =====
-- AG2PCEngine of emp-ag2pc/backend/engine.h.
pub mod Load
pub mod Slots
pub mod Paths
pub mod Opened
pub mod Masks
pub mod Rechecked
pub mod Sizes
pub mod Exchange
pub mod Program
pub mod Stream

-- ===== src/TriplePool.antt =====
-- The authenticated AND shares of emp-ag2pc/backend/triple_pool.h.
pub mod Defs
pub mod BucketSize
pub mod Run
pub mod Shared
pub mod Leaky
pub mod Combine
pub mod Layer
pub mod Fold
pub mod Inplace
pub mod Sigma

-- ===== src/Protocol.antt =====
-- AG2PCProtocol of emp-ag2pc/backend/protocol.h: input authentication and output decoding.
pub mod Defs
pub mod Lists
pub mod Owners
pub mod Wire
pub mod Decode
pub mod Binding
pub mod Cut
pub mod Inputs
pub mod Public
pub mod Roundtrip

-- ===== src/ChunkPipe.antt =====
-- chunk_pipe of emp-ag2pc/backend/helper.h, with one producer and one consumer.
pub mod Defs
pub mod Threads
pub mod Index
pub mod Fifo
pub mod Runs
pub mod Wake
pub mod Inevitable
pub mod Asleep
pub mod Live

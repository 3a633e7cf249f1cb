-- ===== src/Lib.antt =====
-- emp-ag2pc: two-party authenticated garbling, modelled from its C++ sources.
--
-- Parties 1 (the garbler) and 2 (the evaluator) run a circuit. AG2PCSession records gates into a
-- chunk, plans a flush and runs the planned program through the engine, which drives five passes
-- over one stream of gates. The parts and their files:
-- - Block, Block/Defs, Block/Laws: the 128-bit block of emp-tool as an interface with its laws, and
--   LSB, LSB1 of emp-ag2pc/backend/helper.h.
-- - Wires: emp-ag2pc/backend/secure_wires.h. RunState: emp-ag2pc/backend/run_state.h.
-- - HalfGate: what and_gate of the garble, the evaluate and the gamma-check pass of
--   emp-ag2pc/backend/pass_ctx.h compute for one AND, and how the results fit together.
-- - Pass: the passes of emp-ag2pc/backend/pass_ctx.h. Pass/Source is the gate-stream source of
--   emp-ag2pc/backend/engine.h, a tree of calls whose branches take the wire id that a pass hands
--   back, so that a stored program and a live body are the same thing. Pass/Liveness, SlotMask,
--   Garble, Evaluate and GammaCheck are the passes; Numbering, Reads, Coverage, Slots and
--   Lockstep prove.
-- - Protocol: process_inputs, decode, public_wires and check_secure_wires of
--   emp-ag2pc/backend/protocol.h at one party, with the messages that it receives as arguments, and
--   what both parties hold after an exchange of their messages.
-- - FEq: feq_check of emp-ag2pc/backend/helper.h.
-- - ChunkPipe: chunk_pipe of emp-ag2pc/backend/helper.h, its operations in Defs and the steps of the
--   two threads that use it in Threads; Index, Fifo, Runs, Wake, Inevitable, Asleep and Live prove.
-- - TriplePool: emp-ag2pc/backend/triple_pool.h. TriplePool/Defs has what one party computes between
--   messages, TriplePool/Run the run of compute_inplace by two parties, TriplePool/BucketSize
--   get_bucket_size; Shared, Leaky, Combine, Layer, Fold, Inplace and Sigma prove.
-- - Engine: how run_source of emp-ag2pc/backend/engine.h prepares a run (Load), and the two parties'
--   pass 2 with the c_gamma exchange (Paths), and the checks of run_program (Program); Slots, Opened,
--   Rechecked, Sizes, Exchange, Stream and Masks prove.
-- - Circuit: emp-ag2pc/backend/canonical.h and the circuit programs of emp-tool.
-- - Session/Recorder: AG2PCCtx of emp-ag2pc/session/ag2pc_ctx.h. Session/Carried (the
--   carried states), State (flush_, checkpoint, reveal), Arguments (the runs) and Batch (the inputs):
--   AG2PCSession of emp-ag2pc/session/ag2pc_session.h. Flush: emp-ag2pc/backend/flush_plan.h.
-- - Tests: runs, and the theorems at concrete inputs.
--
-- Arrays are lists and an index of -1 is `none`. An operation that ends the process by `error` gives
-- `none`. The search of plan_flush runs on fuel: one for each root and two for each gate, since a
-- turn pops one id and marks a gate when it pushes two. The receiver task of pass 2 runs on fuel of
-- the number of ANDs, since a turn takes at least one row. The loop of get_bucket_size runs on fuel
-- of one more than the security parameter, since each turn at least doubles the bound. What the
-- repository only calls is a parameter: the block operators, MITCCRH and the hash of emp-tool, the
-- shares that the COT extension mints, random labels and coins, validate_program. The session takes
-- the engine and the protocol as arguments; Session/Errors puts run_program of Engine/Program in.
-- A thread that waits on a condition variable of a chunk pipe sleeps until a notification; wake-ups
-- without one, after which it would only test its predicate again, are left out.
-- Not modelled: sockets, the threads beside those of a chunk pipe, and profiling.
pub mod Prelude
pub mod Block
pub mod Wires
pub mod HalfGate
pub mod RunState
pub mod Pass
pub mod Protocol
pub mod FEq
pub mod ChunkPipe
pub mod TriplePool
pub mod Engine
pub mod Circuit
pub mod Session
pub mod Flush
pub mod Tests

-- ===== src/Tests.antt =====
-- Runs of the model on small inputs, and the theorems at inputs that meet their hypotheses.
mod Bits
mod HalfGate
mod Session
mod Pass
mod Protocol
mod TriplePool
mod ChunkPipe
mod Carried
mod Inputs
mod Lockstep

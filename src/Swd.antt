-- ===== src/Swd.antt =====
-- swd: Serial Wire Debug framing, connection and batches over a caller-supplied wire.
pub mod Types
pub mod Sequence
pub mod Frame
pub mod Env
pub mod Transfer
pub mod Dormant
pub mod Lifecycle
pub mod Batch
pub mod Invariant
pub mod Sim
pub mod Examples
pub mod Session

-- ===== src/Coresight.antt =====
-- The coresight package: component identities, ROM tables, and the walk over them.
pub mod Component
pub mod Rom
pub mod Walk
pub mod Offsets
pub mod Tree
pub mod Keeps
pub mod Bounded
pub mod Examples

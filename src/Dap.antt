-- ===== src/Dap.antt =====
-- The dap package: the registers of a debug port, and the requests that a transaction plans.
pub mod Register
pub mod Plan
pub mod Accesses
pub mod Selects
pub mod Reaches
pub mod Banks
pub mod Results
pub mod Contract
pub mod Segments
pub mod Tiles
pub mod Examples

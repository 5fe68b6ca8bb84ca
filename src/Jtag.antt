-- ===== src/Jtag.antt =====
-- Package jtag: the TAP controller over a wire, scans, discovery and a chain of borrowed TAPs.
pub mod State
pub mod Path
pub mod Env
pub mod Conn
pub mod Tracking
pub mod Measure
pub mod Discover
pub mod Layout
pub mod Chain
pub mod Tap
pub mod Examples

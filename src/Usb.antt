-- ===== src/Usb.antt =====
-- The usb package: the descriptors of a configuration, usb/configuration.go.
pub mod Types
pub mod Endpoint
pub mod Parser
pub mod Indexed
pub mod Parsed
pub mod Contract
pub mod Active
pub mod Snapshot
pub mod Termination
pub mod Examples

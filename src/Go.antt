-- ===== src/Go.antt =====
-- What the Go packages share of the language: error values and the state that a method changes.
pub mod Errors
pub mod State
pub mod Hoare
pub mod Returns

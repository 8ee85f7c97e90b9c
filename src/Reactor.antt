-- ===== src/Reactor.antt =====
-- The package reactor: event loops over rings.
pub mod RequestId
pub mod Nonce
pub mod Registry
pub mod Consumer
pub mod Net
pub mod Generic
pub mod Goroutines
pub mod Submitting

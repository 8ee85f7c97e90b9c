-- ===== src/Uring/Sq/Refine.antt =====
-- The submission queue refines the bounded two-part queue: `QueueSQE`, `flushSQ` and the kernel's
-- consumption, each against its specification.
pub mod Push
pub mod Flush
pub mod Consume

-- ===== src/Uring.antt =====
-- The package uring: the low-level interface of io_uring.
pub mod Entry
pub mod Operation
pub mod Sq
pub mod Cq
pub mod Params
pub mod Ring
pub mod Setup
pub mod CreateMany
pub mod Register

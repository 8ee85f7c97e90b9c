-- ===== src/Example.antt =====
-- example/: the servers that show the use of the packages.
pub mod Echo
pub mod Threads
pub mod Start

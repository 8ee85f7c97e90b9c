-- ===== src/Net.antt =====
-- net/: TCP connections and a listener on the network reactor.
pub mod Conn
pub mod Listener

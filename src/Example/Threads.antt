-- ===== src/Example/Threads.antt =====
-- example/echo-server-multi-thread/main.go: a goroutine for each connection, which echoes what it
-- reads. The connection is an interface, `net.Conn`: a record of its calls on a state `K`.
pub mod Cat
mod Tests
use go_uring.Base.{
  ℕ, zero, suc, Bool, true, false, ◌||◌, Option, none, some, List, [], ◌∷◌, length, ltb, ◌==◌,
  if◌then◌else◌,
}

-- `MaxConns` and `MaxMsgLen`
abbrev pub max_conns : ℕ
max_conns = 4096

abbrev pub max_msg_len : ℕ
max_msg_len = 2048

-- The calls of a connection that the server makes. `read` of a buffer of a size gives the bytes that
-- it has put there, which are as many as it returns; `write` returns how many it has sent.
pub record Stream (K E : Type 0) : Type 0 where
  pub fd : ℕ
  pub read : (size : ℕ) → K → (List ℕ × Option E) × K
  pub write : List ℕ → K → (ℕ × Option E) × K
  pub close : K → Option E × K
  pub is_eof : E → Bool

-- How `handleConn` ends: it returns, `checkErr` ends the process with the error of a call, or the
-- descriptor has no buffer.
pub data Ended (E : Type 0) : Type 0 where
  returned no_buffer : Ended E
  read_failed write_failed close_failed : E → Ended E

module _ {K E : Type 0} (conn : Stream K E) where
  -- `err == io.EOF || n == 0`
  abbrev pub is_end : List ℕ × Option E → Bool
  is_end (bytes, none) = length bytes == 0
  is_end (bytes, some e) = conn.is_eof e || (length bytes == 0)

  close_conn : Option E × K → Ended E × K
  close_conn (none, w) = (returned, w)
  close_conn (some e, w) = (close_failed e, w)

  after_write : (ℕ × Option E) × K → (K → Option (Ended E × K)) → Option (Ended E × K)
  after_write ((n, none), w) again = again w
  after_write ((n, some e), w) again = some (write_failed e, w)

  after_read : List ℕ × Option E → K → (K → Option (Ended E × K)) → Option (Ended E × K)
  unfolding after_write
  after_read (bytes, some e) w again = some (read_failed e, w)
  after_read (bytes, none) w again = after_write (conn.write bytes w) again

  -- The loop of `handleConn`, with fuel.
  unfoldable pub echo_loop : ℕ → K → Option (Ended E × K)
  unfolding close_conn after_read
  echo_loop zero w = none
  echo_loop (suc fuel) w =
      let (out, w') = conn.read max_msg_len w in
      let closed = some (close_conn (conn.close w')) in
      let goes_on = after_read out w' (echo_loop fuel) in if is_end out then closed else goes_on

  unfoldable pub handle_conn : ℕ → K → Option (Ended E × K)
  unfolding echo_loop
  handle_conn fuel w =
      let served = echo_loop fuel w in if ltb conn.fd max_conns then served else some (no_buffer, w)

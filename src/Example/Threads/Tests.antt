-- ===== src/Example/Threads/Tests.antt =====
-- Runs and instances: a peer that sends two chunks, and a connection that is reset.
use go_uring.Base.{
  ℕ, ◌-◌, ◌+◌, ◌^◌, ◌≡◌, refl, Bool, true, false, none, some, List, [], ◌∷◌, ◌++◌, length, arith,
}
use go_uring.Net.Conn.{Conn, OpError, read_op, errno, op_error, finish_read, new_conn}
use go_uring.Example.Threads.{Stream, returned, handle_conn}
use go_uring.Example.Threads.Cat.{
  Feeds, joined, ReadsCompletions, handle_conn_echoes, Spares, handle_conn-Spares,
}

-- What the peer has yet to send, what it was sent, and whether the connection is open.
record Peer : Type 0 where
  incoming : List (List ℕ)
  received : List ℕ
  is_open : Bool

next_chunk : List (List ℕ) → List ℕ
next_chunk [] = []
next_chunk (chunk ∷ chunks) = chunk

later_chunks : List (List ℕ) → List (List ℕ)
later_chunks [] = []
later_chunks (chunk ∷ chunks) = chunks

abbrev talking : Stream Peer (Unit {0})
talking = record {
  fd = 7;
  read = λ size p. ((next_chunk p.incoming, none), record p { incoming = later_chunks p.incoming });
  write = λ bytes p. ((length bytes, none), record p { received = p.received ++ bytes });
  close = λ p. (none, record p { is_open = false });
  is_eof = λ e. true;
}

abbrev hello : List (List ℕ)
hello = (1 ∷ 2 ∷ []) ∷ (3 ∷ []) ∷ []

abbrev peer : Peer
peer = record { incoming = hello; received = []; is_open = true }

hello-Feeds : Feeds talking hello peer
unfolding next_chunk later_chunks
hello-Feeds = (omega arith, refl, refl, (omega arith, refl, refl, (refl, refl)))

handle_conn_echoes_example :
    (p : Peer) × (handle_conn talking 3 peer ≡ some (returned, (talking.close p).1))
    × (p.received ≡ peer.received ++ joined talking hello)
handle_conn_echoes_example =
    handle_conn_echoes talking (λ p. p.received) (λ bytes p h. refl) (λ p. refl) hello peer
      (omega arith) hello-Feeds

abbrev idle : Conn ℕ
idle = new_conn 7 80 8080

-- ECONNRESET
abbrev reset : OpError ℕ
reset = op_error read_op idle (errno 104)

abbrev resetting : Stream ℕ (OpError ℕ)
resetting = record {
  fd = 7;
  read = λ size w. (([], some reset), w + 1);
  write = λ bytes w. ((length bytes, none), w);
  close = λ w. (none, w);
  is_eof = λ e. false;
}

resetting-ReadsCompletions : ReadsCompletions resetting idle
unfolding finish_read new_conn
resetting-ReadsCompletions w = (record { user_data = 0; res = 2 ^ 32 - 104; flags = 0 }, refl)

resetting_closes : handle_conn resetting 1 0 ≡ some (returned, 1)
unfolding handle_conn
resetting_closes = refl

handle_conn-Spares_example :
    Spares resetting idle resetting-ReadsCompletions (handle_conn resetting 1 0)
handle_conn-Spares_example = handle_conn-Spares resetting idle resetting-ReadsCompletions 1 0

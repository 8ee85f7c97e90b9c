-- ===== src/Example/Threads/Cat.antt =====
-- What `handleConn` sends, and what ends it.
use go_uring.Base.{
  ℕ, zero, suc, ◌≤◌, ◌<◌, ◌≡◌, refl, sym, ap, ◌∙◌, true, false, Bool-cases, inl, ◌⊎◌, inr, Option,
  none, some, List, [], ◌∷◌, ◌++◌, append_assoc, append-nil, length, ltb, lt→ltb, ◌==◌, arith,
}
use go_uring.Uring.Entry.{CqEvent}
use go_uring.Net.Conn.{Conn, OpError, finish_read}
use go_uring.Net.Conn.Finish.{finish_read-error}
use go_uring.Example.Threads.{
  Stream, Ended, returned, read_failed, no_buffer, max_conns, max_msg_len, is_end, close_conn,
  after_write, after_read, echo_loop, handle_conn,
}

module _ {K E : Type 0} (conn : Stream K E) where
  -- The peer sends these chunks and then nothing more: each is read and sent back whole, and the
  -- read after them returns no bytes.
  abbrev pub Feeds : List (List ℕ) → K → Type 0
  Feeds [] w =
      let (out, w') = conn.read max_msg_len w in (length out.0 ≡ 0) × ((conn.close w').0 ≡ none)
  Feeds (chunk ∷ chunks) w =
      let (out, w') = conn.read max_msg_len w in
      (0 < length chunk)
      × (out ≡ (chunk, none))
      × ((conn.write chunk w').0 ≡ (length chunk, none))
      × Feeds chunks (conn.write chunk w').1

  abbrev pub joined : List (List ℕ) → List ℕ
  joined [] = []
  joined (chunk ∷ chunks) = chunk ++ joined chunks

  is_end-empty : (out : List ℕ × Option E) → length out.0 ≡ 0 → is_end conn out ≡ true
  is_end-empty (bytes, none) h = ground arith
  is_end-empty (bytes, some e) h = elim (Bool-cases (conn.is_eof e)) [
    | inl eof ↦ rw eof refl
    | inr other ↦ rw other (ground arith)
  ]

  close_conn-returned :
      (out : Option E × K) → out.0 ≡ none → close_conn conn out ≡ (returned, out.1)
  unfolding close_conn
  close_conn-returned (none, w) h = refl
  close_conn-returned (some e, w) h = cc

  after_write-again :
      (out : (ℕ × Option E) × K) (n : ℕ) (again : K → Option (Ended E × K))
      → out.0 ≡ (n, none)
      → after_write conn out again ≡ again out.1
  unfolding after_write
  after_write-again ((m, none), w) n again h = refl
  after_write-again ((m, some e), w) n again h = cc

  -- The last round and one that goes on.
  ends :
      (fuel : ℕ) (w : K)
      → Feeds [] w
      → echo_loop conn (suc fuel) w ≡ some (returned, (conn.close (conn.read max_msg_len w).1).1)
  unfolding echo_loop
  ends fuel w h =
      rw (is_end-empty (conn.read max_msg_len w).0 h.0)
        (ap some (close_conn-returned (conn.close (conn.read max_msg_len w).1) h.1))

  goes_on :
      (fuel : ℕ) (chunk : List ℕ) (chunks : List (List ℕ)) (w : K)
      → Feeds (chunk ∷ chunks) w
      → echo_loop conn (suc fuel) w
        ≡ echo_loop conn fuel (conn.write chunk (conn.read max_msg_len w).1).1
  unfolding echo_loop after_read
  goes_on fuel chunk chunks w h =
      let more : (length chunk == 0) ≡ false = ground (arith, h.0) in
      rw (h.1, more)
        (after_write-again (conn.write chunk (conn.read max_msg_len w).1) (length chunk)
          (echo_loop conn fuel) h.2)

  module _ (sent : K → List ℕ)
      (sends : (bytes : List ℕ) (w : K)
        → (conn.write bytes w).0 ≡ (length bytes, none)
        → sent (conn.write bytes w).1 ≡ sent w ++ bytes)
      (reads : (w : K) → sent (conn.read max_msg_len w).1 ≡ sent w) where
    loop_sends :
        (chunks : List (List ℕ)) (w : K)
        → Feeds chunks w
        → (w' : K) × (echo_loop conn (suc (length chunks)) w ≡ some (returned, (conn.close w').1))
          × (sent w' ≡ sent w ++ joined chunks)
    loop_sends [] w h =
        ((conn.read max_msg_len w).1, ends 0 w h, reads w ∙ sym (append-nil (sent w)))
    loop_sends (chunk ∷ chunks) w h =
        let w1 = (conn.read max_msg_len w).1 in
        let (w', runs, is) = loop_sends chunks (conn.write chunk w1).1 h.3 in
        (
          w',
          goes_on (suc (length chunks)) chunk chunks w h ∙ runs,
          is
              ∙ ap (λ l. l ++ joined chunks) (sends chunk w1 h.2 ∙ ap (λ l. l ++ chunk) (reads w))
              ∙ append_assoc (sent w) chunk (joined chunks),
        )

    -- A connection below `max_conns` whose reads give these chunks and whose writes are complete gets
    -- all of them back, in order and nothing else, and after that it is closed; the loop ends one
    -- round after the last chunk.
    pub handle_conn_echoes :
        (chunks : List (List ℕ)) (w : K)
        → conn.fd < max_conns
        → Feeds chunks w
        → (w' : K) × (handle_conn conn (suc (length chunks)) w ≡ some (returned, (conn.close w').1))
          × (sent w' ≡ sent w ++ joined chunks)
    unfolding handle_conn
    handle_conn_echoes chunks w lt h =
        let (w', runs, is) = loop_sends chunks w h in (w', rw (lt→ltb _ _ lt) runs, is)

-- A connection of the package `net`: what its read returns is what `Read` makes of a completion.
abbrev pub ReadsCompletions : {K A : Type 0} → Stream K (OpError A) → Conn A → Type 0
ReadsCompletions {K} conn c =
    (w : K)
    → let (out, w') = conn.read max_msg_len w in
      (cqe : CqEvent) × (finish_read c cqe ≡ (length out.0, out.1))

module _ {K A : Type 0} (conn : Stream K (OpError A)) (c : Conn A)
    (reads : ReadsCompletions conn c) where
  error_is_end :
      (out : List ℕ × Option (OpError A)) (cqe : CqEvent)
      → finish_read c cqe ≡ (length out.0, out.1)
      → (is_end conn out ≡ true) ⊎ (out.1 ≡ none)
  error_is_end (bytes, none) cqe h = inr refl
  error_is_end (bytes, some e) cqe h =
      inl (is_end-empty conn (bytes, some e) (finish_read-error c cqe (length bytes) e h))

  -- It is still running, has returned, or has ended the process with the error of a write or of the
  -- close; or it has panicked, and the descriptor is past the buffers.
  abbrev pub Spares : Option (Ended (OpError A) × K) → Type 0
  Spares (some (read_failed e, w)) = ⊥
  Spares (some (no_buffer, w)) = max_conns ≤ conn.fd
  Spares out = Unit {0}

  written :
      (out : (ℕ × Option (OpError A)) × K) (again : K → Option (Ended (OpError A) × K))
      → ((w2 : K) → Spares (again w2))
      → Spares (after_write conn out again)
  unfolding after_write
  written ((n, some f), w) again more = tt
  written ((n, none), w) again more = more w

  closed : (out : Option (OpError A) × K) → Spares (some (close_conn conn out))
  unfolding close_conn
  closed (none, w) = tt
  closed (some f, w) = tt

  ends_by :
      (out : List ℕ × Option (OpError A)) (w : K) (again : K → Option (Ended (OpError A) × K))
      → out.1 ≡ none
      → ((w2 : K) → Spares (again w2))
      → Spares (after_read conn out w again)
  unfolding after_read
  ends_by (bytes, some f) w again h more = absurd (let no : some f ≡ none = h in cc)
  ends_by (bytes, none) w again h more = written (conn.write bytes w) again more

  loop-Spares : (fuel : ℕ) (w : K) → Spares (echo_loop conn fuel w)
  unfolding echo_loop
  loop-Spares zero w = tt
  loop-Spares (suc fuel) w =
      let out = conn.read max_msg_len w in
      elim (Bool-cases (is_end conn out.0)) [
        | inl end ↦ rw end (closed (conn.close out.1))
        | inr more ↦ rw more (
            ends_by out.0 out.1 (echo_loop conn fuel)
              (elim (error_is_end out.0 (reads w).0 (reads w).1) [
                | inl end ↦ absurd (let no : true ≡ false = sym end ∙ more in cc)
                | inr fine ↦ fine
              ])
              (λ w2. loop-Spares fuel w2))
      ]

  -- On a connection of the package `net`, after any number of rounds, `handleConn` is still
  -- running, has returned, or has ended the process with the error of a write or of the close, or
  -- it has panicked for a descriptor of 4096 or more. The error of a read, a reset, a passed
  -- deadline or any other, never ends the process.
  pub handle_conn-Spares : (fuel : ℕ) (w : K) → Spares (handle_conn conn fuel w)
  unfolding handle_conn
  handle_conn-Spares fuel w = elim (Bool-cases (ltb conn.fd max_conns)) [
    | inl known ↦ rw known (loop-Spares fuel w)
    | inr unknown ↦ rw unknown (ground (arith, unknown))
  ]

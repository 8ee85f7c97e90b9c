-- ===== src/Example/Echo/Queue.antt =====
-- `addAccept`, `addRead` and `addWrite`: the entry that each queues, and the new state of the
-- connection.
use go_uring.Base.{
  ℕ, zero, suc, ◌≤◌, ◌<◌, ◌≡◌, refl, ap, ◌∙◌, [], ◌∷◌, ◌++◌, some, set, leb, lt→ltb, arith, true,
}
use go_uring.Base.Int.{pos}
use go_uring.Uring.Entry.{SqEntry, zero_entry, to_u32, to_u64}
use go_uring.Uring.Operation.{Slice, Operation, accept, recv, send, set_buffer, prep_sqe}
use go_uring.Uring.Operation.Code.{number, accept_code, recv_code, send_code}
use go_uring.Uring.Sq.{Queued, ok, entry_of, queue_sqe}
use go_uring.Uring.Sq.Queue.{Pending, total}
use go_uring.Uring.Sq.Inv.{IsValid, pending}
use go_uring.Uring.Sq.Refine.Push.{queue_sqe_refines}
use go_uring.Example.Echo.{
  ConnType, accepting, reading, writing, ConnInfo, max_conns, max_msg_len, make_buffers, Served,
  running, Server, checked, queue_op, add_accept, add_read, add_write, read_from, write_to,
  with_conn,
}
use go_uring.Example.Echo.Table.{IsTable, IsConn, get_elem?-make_buffers}

-- The entries of the three operations of the server. A receive fills the whole buffer of the
-- connection, a send takes the first `n` bytes of the same buffer.
abbrev pub accept_entry : (fd addr len_addr : ℕ) → SqEntry
accept_entry fd addr len_addr = record zero_entry {
  op_code = number accept_code;
  fd = to_u32 fd;
  addr = to_u64 addr;
  off = to_u64 len_addr;
  user_data = fd;
}

abbrev pub recv_entry : (address : ℕ → ℕ) → ℕ → SqEntry
recv_entry address fd = record zero_entry {
  op_code = number recv_code;
  fd = to_u32 fd;
  addr = to_u64 (address fd);
  len = max_msg_len;
  user_data = fd;
}

abbrev pub send_entry : (address : ℕ → ℕ) → (fd n : ℕ) → SqEntry
send_entry address fd n = record zero_entry {
  op_code = number send_code;
  fd = to_u32 fd;
  addr = to_u64 (address fd);
  len = to_u32 n;
  user_data = fd;
}

-- `entry_of` as the queue of a server meets it: no flags.
abbrev Queues : Operation → ℕ → SqEntry → Type 0
Queues op ud e = entry_of 0 op 0 ud zero_entry ≡ some e

accept-Queues :
    (fd addr len_addr : ℕ) → Queues (accept fd 0 addr len_addr) fd (accept_entry fd addr len_addr)
unfolding entry_of prep_sqe
accept-Queues fd addr len_addr = refl

recv-Queues :
    (address : ℕ → ℕ) (fd : ℕ)
    → Queues
        (recv fd (record { base = address fd; len = max_msg_len }) 0)
        fd
        (recv_entry address fd)
unfolding entry_of prep_sqe
recv-Queues address fd = refl

send-Queues :
    (address : ℕ → ℕ) (fd n : ℕ)
    → 0 < n
    → Queues (send fd (record { base = address fd; len = n }) 0) fd (send_entry address fd n)
unfolding entry_of prep_sqe
send-Queues address fd zero h = absurd (omega arith)
send-Queues address fd (suc n) h = refl

-- What an operation that is queued for the connection `fd` leaves: its entry behind all others, and
-- the state of the connection.
pub record Added {K : Type 0} (fd : ℕ) (typ : ConnType) (e : SqEntry) (s : Server K)
    (out : Served (Server K)) : Type 0 where
  pub after : Server K
  pub runs : out ≡ running after
  pub info : ConnInfo
  pub is_conn : IsConn fd info
  pub same_fd : info.fd ≡ fd
  pub same_typ : info.typ ≡ typ
  pub stored : after.conns ≡ set s.conns fd info
  pub kept : after.world ≡ s.world
  pub valid : IsValid 12 after.ring.sq_ring
  pub queued : pending max_conns after.ring.sq_ring ≡ record (pending max_conns s.ring.sq_ring) {
    prepared = (pending max_conns s.ring.sq_ring).prepared ++ (e ∷ []);
  }

-- What `IsValid` and a free entry are for a server.
abbrev pub HasRoom : {K : Type 0} → Server K → Type 0
HasRoom s = IsValid 12 s.ring.sq_ring × (total (pending max_conns s.ring.sq_ring) < max_conns)

module _ {K : Type 0} (s : Server K) (room : HasRoom s) (t : IsTable s.conns) (fd : ℕ)
    (lt : fd < max_conns) where
  -- The queue takes an entry while fewer than `max_conns` are pending.
  queue_op-Added :
      (op : Operation) (typ : ConnType) (e : SqEntry) (ci : ConnInfo)
      → Queues op fd e
      → IsConn fd ci
      → ci.fd ≡ fd
      → ci.typ ≡ typ
      → Added fd typ e s (queue_op op fd (with_conn fd ci s))
  unfolding queue_op checked
  queue_op-Added op typ e ci q c f y =
      let refined = queue_sqe_refines room.0 0 op 0 fd e q in
      let pushed : (
        (queue_sqe 0 op 0 fd s.ring.sq_ring).0,
        pending max_conns (queue_sqe 0 op 0 fd s.ring.sq_ring).1,
      )
          ≡ (
            ok,
            record (pending max_conns s.ring.sq_ring) {
              prepared = (pending max_conns s.ring.sq_ring).prepared ++ (e ∷ []);
            },
          ) =
        refined.1 ∙ rw (lt→ltb _ _ room.1) refl in
      record {
        after = record s {
          conns = set s.conns fd ci;
          ring = record s.ring { sq_ring = (queue_sqe 0 op 0 fd s.ring.sq_ring).1 };
        };
        runs = rw (ap (λ (o : Queued × Pending). o.0) pushed) refl;
        info = ci;
        is_conn = c;
        same_fd = f;
        same_typ = y;
        stored = refl;
        kept = refl;
        valid = refined.0;
        queued = ap (λ (o : Queued × Pending). o.1) pushed;
      }

  pub add_accept_lem :
      (addr len_addr : ℕ)
      → Added fd accepting (accept_entry fd addr len_addr) s (add_accept fd addr len_addr s)
  unfolding add_accept
  add_accept_lem addr len_addr =
      let (ci, found, c) = t fd lt in
      rw found (
        queue_op-Added (accept fd 0 addr len_addr) accepting (accept_entry fd addr len_addr)
          (record ci { fd = fd; typ = accepting }) (accept-Queues fd addr len_addr)
          (record { receives = c.receives; sends = c.sends }) refl refl)

  module _ (address : ℕ → ℕ) where
    abbrev buff : Slice
    buff = record { base = address fd; len = max_msg_len }

    pub add_read_lem :
        Added fd reading (recv_entry address fd) s (add_read (make_buffers address) (pos fd) s)
    unfolding add_read read_from set_buffer
    add_read_lem =
        let (ci, found, c) = t fd lt in
        rw (get_elem?-make_buffers address fd lt, found)
          (queue_op-Added (set_buffer buff ci.recv_op) reading (recv_entry address fd)
            (record ci { fd = fd; typ = reading; recv_op = set_buffer buff ci.recv_op })
            (ap (λ o. entry_of 0 o 0 fd zero_entry) (c.receives buff) ∙ recv-Queues address fd)
            (record { receives = λ b. ap (set_buffer b) (c.receives buff); sends = c.sends }) refl
            refl)

    pub add_write_lem :
        (n : ℕ)
        → 0 < n
        → n ≤ max_msg_len
        → Added fd writing (send_entry address fd n) s (add_write (make_buffers address) fd n s)
    unfolding add_write write_to set_buffer
    add_write_lem n h fits =
        let (ci, found, c) = t fd lt in
        let part : Slice = record { base = address fd; len = n } in
        let whole : leb n max_msg_len ≡ true = ground arith in
        rw (get_elem?-make_buffers address fd lt, found, whole)
          (queue_op-Added (set_buffer part ci.send_op) writing (send_entry address fd n)
            (record ci { fd = fd; typ = writing; send_op = set_buffer part ci.send_op })
            (ap (λ o. entry_of 0 o 0 fd zero_entry) (c.sends part) ∙ send-Queues address fd n h)
            (record { receives = c.receives; sends = λ b. ap (set_buffer b) (c.sends part) }) refl
            refl)

-- ===== src/Net/Conn/Reaches.antt =====
-- A read or a write without a deadline, from the call to the submission queue of its loop.
use go_uring.Base.{ℕ, zero, suc, ◌<◌, ◌≡◌, refl, Option, none, some, [], get_or, length, arith}
use go_uring.Uring.Entry.{SqEntry, zero_entry, to_u32, to_u64}
use go_uring.Uring.Operation.{Slice, recv, send, prep_sqe}
use go_uring.Uring.Operation.Code.{number, recv_code, send_code}
use go_uring.Uring.Sq.{entry_of}
use go_uring.Reactor.Net.{
  net_recv, net_send, net_fd, operation_of, RingNetEventLoop, NetworkReactor, loop_for_fd,
}
use go_uring.Reactor.Net.Queue.{IsReactor}
use go_uring.Reactor.Net.Loop.{publisher_request}
use go_uring.Reactor.Net.Loop.Published.{Published, HasRoom, queue-Published}
use go_uring.Net.Conn.{Conn, Waiter, reader, writer, until_deadline}
use go_uring.Net.Conn.Answer.{
  Direction, reading, writing, last_op_id, start_op, start_read-queue, start_write-queue,
}

abbrev pub deadline_of : {A : Type 0} → Direction → Conn A → Option ℕ
deadline_of reading c = c.read_deadline
deadline_of writing c = c.write_deadline

-- The entry of the read or the write of the buffer, with the id of the request.
abbrev pub op_entry : {A : Type 0} → Direction → Conn A → Slice → ℕ → SqEntry
op_entry d c b ud = record zero_entry {
  op_code = number (elim d [ reading ↦ recv_code | writing ↦ send_code ]);
  fd = to_u32 c.fd;
  addr = to_u64 b.base;
  len = to_u32 b.len;
  user_data = ud;
}

recv-entry :
    {A : Type 0} (c : Conn A) (base len ud : ℕ)
    → 0 < len
    → entry_of 0 (recv c.fd (record { base = base; len = len }) 0) 0 ud zero_entry
      ≡ some (op_entry reading c (record { base = base; len = len }) ud)
unfolding entry_of prep_sqe
recv-entry c base zero ud h = absurd (omega arith)
recv-entry c base (suc n) ud h = refl

send-entry :
    {A : Type 0} (c : Conn A) (base len ud : ℕ)
    → 0 < len
    → entry_of 0 (send c.fd (record { base = base; len = len }) 0) 0 ud zero_entry
      ≡ some (op_entry writing c (record { base = base; len = len }) ud)
unfolding entry_of prep_sqe
send-entry c base zero ud h = absurd (omega arith)
send-entry c base (suc n) ud h = refl

-- The loop of the connection.
abbrev pub own_loop :
    {A : Type 0} → RingNetEventLoop → Conn A → NetworkReactor Waiter → RingNetEventLoop
own_loop default c r = get_or r.loops (loop_for_fd (length r.loops) c.fd) default

module _ {A : Type 0} (default : RingNetEventLoop) (r : NetworkReactor Waiter) (v : IsReactor r)
    (now : ℕ) (b : Slice) (c : Conn A) (link_spec : ℕ) where
  -- `Read` or `Write` of a buffer that is not empty, without a deadline, on a loop that has a free
  -- entry and no other request: its publisher queues exactly the receive or the send of this buffer
  -- on this descriptor, under the id that the connection keeps, behind all that was pending, and no
  -- callback is lost.
  pub op-Published :
      (d : Direction) (k : ℕ)
      → deadline_of d c ≡ none
      → 0 < b.len
      → (own_loop default c r).req_buss ≡ []
      → HasRoom k (own_loop default c r)
      → let (c', r') = start_op d default now b c r in
        Published k
          (op_entry d c b (last_op_id d c'))
          []
          (own_loop default c r)
          r'.registry
          (publisher_request 0 link_spec (own_loop default c r') r'.registry)
  unfolding net_fd operation_of until_deadline
  op-Published reading k endless some_byte empty room =
      rw (start_read-queue default r v now b c, endless)
        (queue-Published default r v (net_recv c.fd b.base b.len 0) (reader c.fd) _ 0 link_spec _
          empty room refl (recv-entry c b.base b.len _ some_byte))
  op-Published writing k endless some_byte empty room =
      rw (start_write-queue default r v now b c, endless)
        (queue-Published default r v (net_send c.fd b.base b.len 0) (writer c.fd) _ 0 link_spec _
          empty room refl (send-entry c b.base b.len _ some_byte))

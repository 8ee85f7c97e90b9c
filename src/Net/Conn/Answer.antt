-- ===== src/Net/Conn/Answer.antt =====
-- A read or a write on a reactor: its completion, and its deadline.
use go_uring.Base.{
  ℕ, ◌^◌, ◌<◌, ◌≡◌, refl, ap, Option, none, some, List, [], ◌∷◌, ◌++◌, false, true, length, ◌==◌,
  if◌then◌else◌, arith,
}
use go_uring.Base.Int.{ℤ, pos, is_negative}
use go_uring.Base.Word.{u32_mod}
use go_uring.Uring.Entry.{CqEvent}
use go_uring.Uring.Operation.{Slice, cancel}
use go_uring.Reactor.RequestId.{request_nonce, cancel_nonce}
use go_uring.Reactor.Registry.Pending.{Call, run_calls, adds_to, is_popped}
use go_uring.Reactor.Net.{
  NetOperation, net_recv, net_send, net_fd, RingNetEventLoop, NetworkReactor, loop_for_fd, queue,
  queue_with_deadline, deliver,
}
use go_uring.Reactor.Net.Queue.{IsReactor, buss_of, cancel_request_lem}
use go_uring.Reactor.Net.Answer.{queue_answered}
use go_uring.Net.Conn.{
  Conn, Waiter, reader, until, until_deadline, start_read, start_write, writer, set_write_deadline,
  set_read_deadline,
}

abbrev timeout_of : Option ℤ → ℤ
timeout_of none = pos 0
timeout_of (some left) = left

queue_with_deadline-queue :
    {C : Type 0} (default : RingNetEventLoop) (op : NetOperation) (cb : C) (left : Option ℤ)
    (r : NetworkReactor C)
    → queue_with_deadline default op cb left r ≡ queue default op cb (timeout_of left) r
unfolding queue_with_deadline
queue_with_deadline-queue default op cb none r = refl
queue_with_deadline-queue default op cb (some left) r = refl

until_past : (now t : ℕ) → t < now → is_negative (until now t) ≡ true
unfolding until
until_past now t h = ground arith

-- The two directions of a connection, each with a call, a callback and a deadline of its own.
pub data Direction : Type 0 where
  reading writing : Direction

abbrev pub waiter_of : Direction → ℕ → Waiter
waiter_of reading fd = reader fd
waiter_of writing fd = writer fd

module _ {A : Type 0} where
  abbrev pub last_op_id : Direction → Conn A → ℕ
  last_op_id reading c = c.last_read_op_id
  last_op_id writing c = c.last_write_op_id

  abbrev pub start_op :
      Direction
      → RingNetEventLoop
      → ℕ
      → Slice
      → Conn A
      → NetworkReactor Waiter
      → Conn A × NetworkReactor Waiter
  start_op reading = start_read
  start_op writing = start_write

  abbrev pub set_op_deadline :
      Direction
      → RingNetEventLoop
      → ℕ
      → Option ℕ
      → Conn A
      → NetworkReactor Waiter
      → Conn A × NetworkReactor Waiter
  set_op_deadline reading = set_read_deadline
  set_op_deadline writing = set_write_deadline

module _ {A : Type 0} (default : RingNetEventLoop) (r : NetworkReactor Waiter) (v : IsReactor r)
    (now : ℕ) (b : Slice) (c : Conn A) where
  abbrev read : NetOperation
  read = net_recv c.fd b.base b.len 0

  abbrev write : NetOperation
  write = net_send c.fd b.base b.len 0

  abbrev timeout : Option ℕ → ℤ
  timeout t = timeout_of (until_deadline now t)

  pub start_read-queue :
      let (id, r') = queue default read (reader c.fd) (timeout c.read_deadline) r in
      start_read default now b c r ≡ (record c { last_read_op_id = id }, r')
  unfolding start_read
  start_read-queue =
      ap (λ (o : ℕ × NetworkReactor Waiter). (record c { last_read_op_id = o.0 }, o.1))
        (queue_with_deadline-queue default read (reader c.fd) (until_deadline now c.read_deadline)
          r)

  pub start_write-queue :
      let (id, r') = queue default write (writer c.fd) (timeout c.write_deadline) r in
      start_write default now b c r ≡ (record c { last_write_op_id = id }, r')
  unfolding start_write
  start_write-queue =
      ap (λ (o : ℕ × NetworkReactor Waiter). (record c { last_write_op_id = o.0 }, o.1))
        (queue_with_deadline-queue default write (writer c.fd) (until_deadline now c.write_deadline)
          r)

  module _ (small : c.fd < 2 ^ 31) where
    -- The completion with the id that `Read` or `Write` keeps is sent to the reader or the writer
    -- of the connection, whatever other operations are queued and completed in between: if no other
    -- completion had this id, and fewer than 2^32 operations were queued for the descriptor.
    pub op_answered :
        (d : Direction) (calls : List (Call Waiter)) (cqe : CqEvent)
        → let (c', r') = start_op d default now b c r in
          (cqe.user_data ≡ last_op_id d c')
          → adds_to c.fd calls < u32_mod
          → is_popped c.fd (request_nonce (last_op_id d c')) calls ≡ false
          → (deliver (cqe ∷ []) (run_calls calls r'.registry)).0
            ≡ (some (waiter_of d c.fd), cqe) ∷ []
    unfolding net_fd
    op_answered reading =
        rw start_read-queue
          (queue_answered default r v read (reader c.fd) (timeout c.read_deadline) small)
    op_answered writing =
        rw start_write-queue
          (queue_answered default r v write (writer c.fd) (timeout c.write_deadline) small)

    -- A deadline in the past, set while a read or a write waits, sends the cancellation of this
    -- operation to the loop that it was sent to, behind it, and to no other.
    pub set_deadline_past :
        (d : Direction) (t i : ℕ)
        → t < now
        → let (c', r') = start_op d default now b c r in
          buss_of default (set_op_deadline d default now (some t) c' r').1.loops i ≡ (
            if loop_for_fd (length r.loops) c.fd == i
            then buss_of default r'.loops i
              ++ (record {
                op = cancel 0 (last_op_id d c');
                flags = 0;
                user_data = cancel_nonce;
                timeout = pos 0;
              }
                  ∷ [])
            else buss_of default r'.loops i)
    unfolding set_read_deadline set_write_deadline net_fd
    set_deadline_past reading t i past =
        rw (start_read-queue, until_past now t past)
          (cancel_request_lem default r v read (reader c.fd) (timeout c.read_deadline) small i)
    set_deadline_past writing t i past =
        rw (start_write-queue, until_past now t past)
          (cancel_request_lem default r v write (writer c.fd) (timeout c.write_deadline) small i)

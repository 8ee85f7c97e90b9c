-- ===== src/Net/Conn.antt =====
-- net/netconn.go. A call that waits on its channel is two steps: the request that it queues, and what
-- it makes of the completion that the callback sends. The lock of a direction makes them a pair.
pub mod Finish
pub mod Answer
pub mod Reaches
mod Tests
use go_uring.Base.{ℕ, ◌-◌, ◌==◌, Bool, true, false, Option, none, some, if◌then◌else◌, leb, not}
use go_uring.Base.Int.{ℤ, pos, negsuc, is_negative}
use go_uring.Uring.Entry.{CqEvent, event_error}
use go_uring.Uring.Operation.{Slice}
use go_uring.Reactor.Net.{
  NetOperation, net_recv, net_send, RingNetEventLoop, NetworkReactor, queue_with_deadline,
  cancel_request,
}

-- `Conn`: addresses are opaque, a deadline is a time in nanoseconds, `none` for the zero time. Its
-- two operations hold the descriptor and the buffer.
pub record Conn (A : Type 0) : Type 0 where
  pub fd : ℕ
  pub l_addr : A
  pub r_addr : A
  pub read_deadline : Option ℕ
  pub write_deadline : Option ℕ
  pub last_read_op_id : ℕ
  pub last_write_op_id : ℕ

-- The callbacks that the package queues: each sends the event to the channel of its owner.
pub data Waiter : Type 0 where
  reader : (fd : ℕ) → Waiter
  writer : (fd : ℕ) → Waiter
  acceptor : (sock_fd : ℕ) → Waiter

-- The errors of a call, in a `net.OpError`.
pub data Op : Type 0 where
  read_op write_op close_op : Op

pub data Cause : Type 0 where
  errno : ℕ → Cause
  deadline_exceeded eof unexpected_eof : Cause

pub record OpError (A : Type 0) : Type 0 where
  pub op : Op
  pub source : A
  pub addr : A
  pub cause : Cause

-- ECANCELED
abbrev pub ecanceled : ℕ
ecanceled = 125

-- `time.Until`, at the time `now`
unfoldable pub until : (now t : ℕ) → ℤ
until now t = if leb now t then pos (t - now) else negsuc (now - t - 1)

abbrev pub until_deadline : ℕ → Option ℕ → Option ℤ
unfolding until
until_deadline now none = none
until_deadline now (some t) = some (until now t)

-- What an error of a completion is wrapped in, and what an end of the stream is.
unfoldable pub cause_of : ℕ → Cause
cause_of e = if e == ecanceled then deadline_exceeded else errno e

-- A deadline in the past cancels the operation that was queued last.
abbrev pub cancel_if_past :
    RingNetEventLoop → Option ℤ → ℕ → NetworkReactor Waiter → NetworkReactor Waiter
unfolding cancel_request
cancel_if_past default none id r = r
cancel_if_past default (some left) id r =
    if is_negative left then cancel_request default id r else r

module _ {A : Type 0} where
  unfoldable pub new_conn : ℕ → A → A → Conn A
  new_conn fd l_addr r_addr = record {
    fd = fd;
    l_addr = l_addr;
    r_addr = r_addr;
    read_deadline = none;
    write_deadline = none;
    last_read_op_id = 0;
    last_write_op_id = 0;
  }

  abbrev pub op_error : Op → Conn A → Cause → OpError A
  op_error op c cause = record { op = op; source = c.l_addr; addr = c.r_addr; cause = cause }

  finish : Op → Cause → Conn A → CqEvent → Option ℕ → ℕ × Option (OpError A)
  unfolding cause_of
  finish op end_of c cqe (some e) = (0, some (op_error op c (cause_of e)))
  finish op end_of c cqe none =
      (cqe.res, if cqe.res == 0 then some (op_error op c end_of) else none)

  -- `Read` and `Write` after they have received the completion: the count and the error.
  unfoldable pub finish_read : Conn A → CqEvent → ℕ × Option (OpError A)
  unfolding finish event_error
  finish_read c cqe = finish read_op eof c cqe (event_error cqe)

  unfoldable pub finish_write : Conn A → CqEvent → ℕ × Option (OpError A)
  unfolding finish event_error
  finish_write c cqe = finish write_op unexpected_eof c cqe (event_error cqe)

  -- `Close`, with close(2).
  unfoldable pub close_conn :
      {K : Type 0} → (ℕ → K → Option ℕ × K) → Conn A → K → Option (OpError A) × K
  close_conn close c w =
      let (e, w') = close c.fd w in
      (elim e [ none ↦ none | some e ↦ some (op_error close_op c (errno e)) ], w')

  module _ (default : RingNetEventLoop) (now : ℕ) where
    -- `Read` and `Write` up to the wait.
    unfoldable pub start_read :
        Slice → Conn A → NetworkReactor Waiter → Conn A × NetworkReactor Waiter
    unfolding queue_with_deadline until_deadline
    start_read b c r =
        let (id, r') =
          queue_with_deadline default (net_recv c.fd b.base b.len 0) (reader c.fd)
            (until_deadline now c.read_deadline) r in
        (record c { last_read_op_id = id }, r')

    unfoldable pub start_write :
        Slice → Conn A → NetworkReactor Waiter → Conn A × NetworkReactor Waiter
    unfolding queue_with_deadline until_deadline
    start_write b c r =
        let (id, r') =
          queue_with_deadline default (net_send c.fd b.base b.len 0) (writer c.fd)
            (until_deadline now c.write_deadline) r in
        (record c { last_write_op_id = id }, r')

    unfoldable pub set_read_deadline :
        Option ℕ → Conn A → NetworkReactor Waiter → Conn A × NetworkReactor Waiter
    unfolding cancel_if_past until_deadline
    set_read_deadline t c r = (
      record c { read_deadline = t },
      cancel_if_past default (until_deadline now t) c.last_read_op_id r,
    )

    unfoldable pub set_write_deadline :
        Option ℕ → Conn A → NetworkReactor Waiter → Conn A × NetworkReactor Waiter
    unfolding cancel_if_past until_deadline
    set_write_deadline t c r = (
      record c { write_deadline = t },
      cancel_if_past default (until_deadline now t) c.last_write_op_id r,
    )

    unfoldable pub set_deadline :
        Option ℕ → Conn A → NetworkReactor Waiter → Conn A × NetworkReactor Waiter
    unfolding set_read_deadline set_write_deadline
    set_deadline t c r = let (c', r') = set_read_deadline t c r in set_write_deadline t c' r'

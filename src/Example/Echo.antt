-- ===== src/Example/Echo.antt =====
-- example/echo-server/uring/uring.go: an echo server on one ring. The descriptor of its listening
-- socket is a parameter, except in Main, and so are the addresses of its buffers, the kernel and
-- shutdown(2).
pub mod Flights
pub mod Table
pub mod Queue
pub mod System
pub mod Serve
pub mod Handle
pub mod Steps
pub mod Reach
pub mod Round
pub mod Main
mod Tests
use mathlib.Core.Option
use go_uring.Base.{
  ℕ, zero, suc, ◌+◌, ◌-◌, ◌^◌, ◌%◌, Bool, true, false, ◌||◌, Option, none, some, List, [], ◌∷◌, ltb,
  leb, ◌==◌, if◌then◌else◌, get_elem?, set, replicate, take,
}
use go_uring.Base.Int.{ℤ, pos, negsuc}
use go_uring.Base.Word.{u32_mod}
use go_uring.Uring.Entry.{CqEvent, is_neg32, to_u64}
use go_uring.Uring.Operation.{Slice, Operation, accept, recv, send, set_buffer}
use go_uring.Uring.Sq.{SqRing, Queued, ok, sq_overflow, prep_panic, queue_sqe}
use go_uring.Uring.Cq.{seen_cqe}
use go_uring.Uring.Params.{fast_poll_feature}
use go_uring.Uring.Ring.{
  Ring, Enter, Entered, Outcome, Got, submit, wait_cq_events, peek_cq_event_batch_flush, eagain,
}
use go_uring.Reactor.Consumer.{events_of}

-- `MaxConns`, `Backlog` and `MaxMsgLen`
abbrev pub max_conns : ℕ
max_conns = 4096

abbrev pub backlog : ℕ
backlog = 512

abbrev pub max_msg_len : ℕ
max_msg_len = 2048

-- `connType`; `unset` is its zero value.
pub data ConnType : Type 0 where
  unset accepting reading writing : ConnType

-- `connInfo`. The index of the table is checked before `fd` is stored, so it is not negative.
pub record ConnInfo : Type 0 where
  pub fd : ℕ
  pub typ : ConnType
  pub send_op : Operation
  pub recv_op : Operation

abbrev pub nil_slice : Slice
nil_slice = record { base = 0; len = 0 }

abbrev pub new_conn_info : ℕ → ConnInfo
new_conn_info fd = record {
  fd = 0;
  typ = unset;
  send_op = send fd nil_slice 0;
  recv_op = recv fd nil_slice 0;
}

-- The loop of `makeConns`, from the descriptor `fd` on, and the function.
unfoldable pub conns_from : ℕ → ℕ → List ConnInfo
conns_from zero fd = []
conns_from (suc rounds) fd = new_conn_info fd ∷ conns_from rounds (suc fd)

unfoldable pub make_conns : List ConnInfo
unfolding conns_from
make_conns = conns_from max_conns 0

-- `makeBuffers`, with the addresses that the allocations return.
unfoldable pub buffers_from : (ℕ → ℕ) → ℕ → ℕ → List Slice
buffers_from address zero i = []
buffers_from address (suc rounds) i =
    record { base = address i; len = max_msg_len } ∷ buffers_from address rounds (suc i)

unfoldable pub make_buffers : (ℕ → ℕ) → List Slice
unfolding buffers_from
make_buffers address = buffers_from address max_conns 0

-- `int(res)` of an int32
abbrev pub to_int : ℕ → ℤ
to_int res = if is_neg32 res then negsuc (u32_mod - res - 1) else pos res

-- `res <= 0`
abbrev pub is_not_positive : ℕ → Bool
is_not_positive res = is_neg32 res || (res == 0)

-- `buff[:n]`, `none` for the panic past the capacity.
abbrev pub prefix : Slice → ℕ → Option Slice
prefix b n = if leb n b.len then some (record b { len = n }) else none

-- The server goes on, or `checkErr` ends the process, or it panics.
pub data Served (S : Type 0) : Type 0 where
  running : S → Served S
  fatal panicked : Served S

infixl 5 ◌>>=◌
abbrev pub ◌>>=◌ : {A B : Type 0} → Served A → (A → Served B) → Served B
running a >>= f = f a
fatal >>= f = fatal
panicked >>= f = panicked

abbrev pub or_panic : {A : Type 0} → Option A → Served A
or_panic none = panicked
or_panic (some a) = running a

-- The table of the connections, the ring, and the kernel's state.
pub record Server (K : Type 0) : Type 0 where
  pub conns : List ConnInfo
  pub ring : Ring
  pub world : K

-- EINTR
abbrev pub eintr : ℕ
eintr = 4

module _ {K : Type 0} where
  -- `checkErr` of a `QueueSQE`
  checked : Queued → SqRing → Server K → Served (Server K)
  checked ok sq s = running (record s { ring = record s.ring { sq_ring = sq } })
  checked sq_overflow sq s = fatal
  checked prep_panic sq s = panicked

  unfoldable pub queue_op : Operation → ℕ → Server K → Served (Server K)
  unfolding checked queue_sqe
  queue_op op ud s = let (q, sq) = queue_sqe 0 op 0 ud s.ring.sq_ring in checked q sq s

  abbrev pub with_conn : ℕ → ConnInfo → Server K → Server K
  with_conn fd ci s = record s { conns = set s.conns fd ci }

  -- `addAccept` of the operation on the listening socket `fd`
  unfoldable pub add_accept : (fd addr len_addr : ℕ) → Server K → Served (Server K)
  unfolding queue_op
  add_accept fd addr len_addr s = do
    ci ← or_panic (get_elem? s.conns fd)
    queue_op (accept fd 0 addr len_addr) fd
        (with_conn fd (record ci { fd = fd; typ = accepting }) s)

  -- `main` on its ring, up to the loop: it needs IORING_FEAT_FAST_POLL, and queues one accept.
  unfoldable pub start_server : (fd addr len_addr : ℕ) → Ring → K → Served (Server K)
  unfolding add_accept fast_poll_feature
  start_server fd addr len_addr ring w =
      let s : Server K = record { conns = make_conns; ring = ring; world = w } in
      if fast_poll_feature ring.params then add_accept fd addr len_addr s else fatal

  module _ (buffs : List Slice) where
    -- `addRead`, which indexes both tables first
    read_from : ℕ → Slice → ConnInfo → Server K → Served (Server K)
    unfolding queue_op set_buffer
    read_from fd buff ci s =
        let op = set_buffer buff ci.recv_op in
        queue_op op fd (with_conn fd (record ci { fd = fd; typ = reading; recv_op = op }) s)

    unfoldable pub add_read : ℤ → Server K → Served (Server K)
    unfolding read_from
    add_read (negsuc n) s = panicked
    add_read (pos fd) s = do
      buff ← or_panic (get_elem? buffs fd)
      ci ← or_panic (get_elem? s.conns fd)
      read_from fd buff ci s

    -- `addWrite`
    write_to : ℕ → Slice → ConnInfo → Server K → Served (Server K)
    unfolding queue_op set_buffer
    write_to fd buff ci s =
        let op = set_buffer buff ci.send_op in
        queue_op op fd (with_conn fd (record ci { fd = fd; typ = writing; send_op = op }) s)

    unfoldable pub add_write : (fd bytes_read : ℕ) → Server K → Served (Server K)
    unfolding write_to
    add_write fd bytes_read s = do
      buff ← or_panic (get_elem? buffs fd)
      ci ← or_panic (get_elem? s.conns fd)
      part ← or_panic (prefix buff bytes_read)
      write_to fd part ci s

    module _ (shutdown : ℕ → K → K) (server_fd addr len_addr : ℕ) where
      -- The switch over the type that the table has for the completion.
      pub dispatch : ConnType → ℕ → ℕ → Server K → Served (Server K)
      unfolding add_read add_write add_accept
      dispatch unset fd res s = running s
      dispatch accepting fd res s = add_read (to_int res) s >>= add_accept server_fd addr len_addr
      dispatch reading fd res s =
          let closing = running (record s { world = shutdown fd s.world }) in
          if is_not_positive res then closing else add_write fd res s
      dispatch writing fd res s = add_read (pos fd) s

      -- The body of the loop over the completions.
      unfoldable pub handle : CqEvent → Server K → Served (Server K)
      unfolding dispatch seen_cqe
      handle cqe s = do
        ud ← or_panic (get_elem? s.conns cqe.user_data)
        dispatch ud.typ ud.fd cqe.res
            (record s { ring = record s.ring { cq_ring = seen_cqe s.ring.cq_ring } })

      unfoldable pub handle_all : List CqEvent → Server K → Served (Server K)
      unfolding handle
      handle_all [] s = running s
      handle_all (cqe ∷ cqes) s = handle cqe s >>= handle_all cqes

      module _ (enter : Enter → K → Ring → Entered K) where
        -- A round of `main`'s loop after its wait: the batch is peeked, and each completion handled.
        batch_of :
            Option (Outcome K (ℕ × List (Option CqEvent)))
            → List ConnInfo
            → Option (Served (Server K))
        unfolding handle_all events_of
        batch_of none conns = none
        batch_of (some ((n, cqes), w, ring)) conns =
            let s : Server K = record { conns = conns; ring = ring; world = w } in
            some (or_panic (events_of (take n cqes)) >>= λ events. handle_all events s)

        after_wait :
            List (Option CqEvent)
            → Option (Outcome K Got)
            → List ConnInfo
            → Option (Served (Server K))
        unfolding batch_of peek_cq_event_batch_flush
        after_wait cqes none conns = none
        after_wait cqes (some (got, w, ring)) conns =
            let batch = batch_of (peek_cq_event_batch_flush enter cqes w ring) conns in
            let s : Server K = record { conns = conns; ring = ring; world = w } in
            elim got.err [
              | none ↦ batch
              | some e ↦ some (if e == eagain || e == eintr then running s else fatal)
            ]

        after_submit :
            ℕ
            → List (Option CqEvent)
            → Outcome K (ℕ × Option ℕ)
            → List ConnInfo
            → Option (Served (Server K))
        unfolding after_wait wait_cq_events
        after_submit fuel cqes ((n, some e), w, ring) conns = some fatal
        after_submit fuel cqes ((n, none), w, ring) conns =
            after_wait cqes (wait_cq_events enter fuel 1 w ring) conns

        -- One round of the loop; `none` when the wait runs out of fuel. What the buffer of pointers
        -- holds past the batch is not read.
        unfoldable pub serve_round : ℕ → Server K → Option (Served (Server K))
        unfolding after_submit submit
        serve_round fuel s =
            after_submit fuel (replicate backlog none) (submit enter s.world s.ring) s.conns

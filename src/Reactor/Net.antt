-- ===== src/Reactor/Net.antt =====
-- reactor/net.go: NetworkReactor, its loops and what their goroutines do in one step. A channel is
-- the list of what it holds; a callback is of any type `C`, and a step lists the calls of callbacks
-- that it makes.
pub mod New
pub mod Queue
pub mod Publish
pub mod Deliver
pub mod Answer
pub mod Loop
pub mod Round
pub mod Drain
mod Tests
use mathlib.Core.Option
use go_uring.Base.{
  ℕ, zero, suc, ◌+◌, ◌*◌, ◌/◌, ◌%◌, Bool, true, false, not, ◌&&◌, ◌||◌, map, Option, none, some,
  List, [], ◌∷◌, ◌++◌, bit_or, ◌==◌, if◌then◌else◌, get_or, set, replicate, length,
}
use go_uring.Base.Int.{ℤ, pos, is_zero}
use go_uring.Base.Word.{u32_mod}
use go_uring.Uring.Entry.{CqEvent, sqe_io_link_flag}
use go_uring.Uring.Operation.{Operation, accept, recv, send, cancel, link_timeout}
use go_uring.Uring.Sq.{SqRing, Queued, ok, sq_overflow, prep_panic, queue_sqe}
use go_uring.Uring.Cq.{CqRing, advance_cq}
use go_uring.Uring.Params.{RingParams, ext_arg_feature, fast_poll_feature}
use go_uring.Uring.Ring.{Ring}
use go_uring.Reactor.RequestId.{
  timeout_nonce, cancel_nonce, pack_request_id, request_fd, request_nonce,
}
use go_uring.Reactor.Registry.{CbRegistry, registry_add, registry_pop, new_cb_registry}

-- The operations that implement `NetOperation`, and their `Fd`.
pub data NetOperation : Type 0 where
  net_accept : (fd op_flags addr len_addr : ℕ) → NetOperation
  net_recv : (fd base len msg_flags : ℕ) → NetOperation
  net_send : (fd base len msg_flags : ℕ) → NetOperation

unfoldable pub operation_of : NetOperation → Operation
operation_of (net_accept fd f addr len_addr) = accept fd f addr len_addr
operation_of (net_recv fd base len f) = recv fd (record { base = base; len = len }) f
operation_of (net_send fd base len f) = send fd (record { base = base; len = len }) f

unfoldable pub net_fd : NetOperation → ℕ
net_fd (net_accept fd f addr len_addr) = fd
net_fd (net_recv fd base len f) = fd
net_fd (net_send fd base len f) = fd

pub record SubSqeRequest : Type 0 where
  pub op : Operation
  pub flags : ℕ
  pub user_data : ℕ
  pub timeout : ℤ

-- `ringNetEventLoop`: its ring, and the requests on their way to its publisher.
pub record RingNetEventLoop : Type 0 where
  pub ring : Ring
  pub req_buss : List SubSqeRequest
  pub submit_allowed : ℕ

pub record NetworkReactor (C : Type 0) : Type 0 where
  pub loops : List RingNetEventLoop
  pub registry : CbRegistry C

abbrev pub fd_per_granule : ℕ
fd_per_granule = 75

-- `loopForFd`: the number of the loop.
unfoldable pub loop_for_fd : ℕ → ℕ → ℕ
loop_for_fd n fd = fd / fd_per_granule % n

-- A send on the channel of a loop.
unfoldable pub send_request :
    ℕ → SubSqeRequest → RingNetEventLoop → List RingNetEventLoop → List RingNetEventLoop
send_request i req default loops =
    let loop = get_or loops i default in
    set loops i (record loop { req_buss = loop.req_buss ++ (req ∷ []) })

-- `checkRingReq` of requirements.go: whether it returns nil.
unfoldable pub check_ring_req : RingParams → Bool → Bool
unfolding ext_arg_feature fast_poll_feature
check_ring_req p net =
    if not (ext_arg_feature p)
    then false
    else (if net && not (fast_poll_feature p) then false else true)

unfoldable pub new_ring_net_event_loop : Ring → RingNetEventLoop
new_ring_net_event_loop ring = record { ring = ring; req_buss = []; submit_allowed = 0 }

-- Whether every ring meets the requirements.
all_meet : List Ring → Bool
unfolding check_ring_req
all_meet [] = true
all_meet (ring ∷ rings) = check_ring_req ring.params true && all_meet rings

-- `NewNet`, less its options: `none` for the error.
unfoldable pub new_net : {C : Type 0} → List Ring → Option (NetworkReactor C)
unfolding all_meet new_ring_net_event_loop
new_net rings =
    if all_meet rings
    then some (record {
      loops = map new_ring_net_event_loop rings;
      registry = new_cb_registry (length rings) fd_per_granule;
    })
    else none

module _ {C : Type 0} (default : RingNetEventLoop) where
  -- `queue`: the request id.
  unfoldable pub queue : NetOperation → C → ℤ → NetworkReactor C → ℕ × NetworkReactor C
  unfolding loop_for_fd send_request
  queue op cb timeout r =
      let (nonce, registry) = registry_add r.registry (net_fd op) cb in
      let ud = pack_request_id (net_fd op) nonce in
      let req : SubSqeRequest = record {
        op = operation_of op;
        flags = 0;
        user_data = ud;
        timeout = timeout;
      } in
      (
        ud,
        record {
          loops = send_request (loop_for_fd (length r.loops) (net_fd op)) req default r.loops;
          registry = registry;
        },
      )

  -- `Queue` and `QueueWithDeadline`; the deadline is the time until it, `none` for the zero time.
  unfoldable pub queue_with_deadline :
      NetOperation → C → Option ℤ → NetworkReactor C → ℕ × NetworkReactor C
  unfolding queue
  queue_with_deadline op cb none r = queue op cb (pos 0) r
  queue_with_deadline op cb (some until) r = queue op cb until r

  -- `Cancel`
  unfoldable pub cancel_request : ℕ → NetworkReactor C → NetworkReactor C
  unfolding loop_for_fd send_request
  cancel_request id r =
      let req : SubSqeRequest = record {
        op = cancel 0 id;
        flags = 0;
        user_data = cancel_nonce;
        timeout = pos 0;
      } in
      record r {
        loops = send_request (loop_for_fd (length r.loops) (request_fd id)) req default r.loops;
      }

-- The publisher on a request: it queues the entries, with the addresses of the operation's and of
-- the deadline's timespec.
unfoldable pub queue_entries : ℕ → ℕ → SubSqeRequest → SqRing → Queued × SqRing
queue_entries spec link_spec req s =
    let plain = queue_sqe spec req.op req.flags req.user_data s in
    let linked = queue_sqe spec req.op (bit_or req.flags sqe_io_link_flag) req.user_data s in
    if is_zero req.timeout then plain else elim linked.0 [
      | ok ↦ queue_sqe link_spec (link_timeout req.timeout) 0 timeout_nonce linked.1
      | sq_overflow ↦ linked
      | prep_panic ↦ linked
    ]

-- User data of entries that no callback waits for.
abbrev pub is_reserved : CqEvent → Bool
is_reserved cqe = cqe.user_data == timeout_nonce || cqe.user_data == cancel_nonce

module _ {C : Type 0} where
  -- If that failed it takes the callback back.
  unfoldable pub forget : Queued → ℕ → CbRegistry C → CbRegistry C
  forget sq_overflow id reg = (registry_pop reg (request_fd id) (request_nonce id)).1
  forget q id reg = reg

  unfoldable pub publish_request :
      ℕ → ℕ → SubSqeRequest → SqRing → CbRegistry C → Queued × SqRing × CbRegistry C
  unfolding queue_entries forget
  publish_request spec link_spec req s reg =
      let (q, s') = queue_entries spec link_spec req s in (q, s', forget q req.user_data reg)

  -- The consumer on a batch of completions: the calls of callbacks, in order, where `none` is the
  -- call of a nil callback, which panics. What a callback does is not part of the step.
  unfoldable pub deliver : List CqEvent → CbRegistry C → List (Option C × CqEvent) × CbRegistry C
  deliver [] reg = ([], reg)
  deliver (cqe ∷ cqes) reg =
      let (cb, reg') = registry_pop reg (request_fd cqe.user_data) (request_nonce cqe.user_data) in
      let skipped = deliver cqes reg in
      let (calls, reg'') = deliver cqes reg' in
      if is_reserved cqe then skipped else ((cb, cqe) ∷ calls, reg'')

-- ===== src/Reactor/Generic.antt =====
-- reactor/reactor.go: the event loop of the generic reactor. Its map of callbacks is a function: a
-- missing key and a nil callback both read as `none`. `Queue` runs under a lock, so it is one step.
pub mod Queue
pub mod Deliver
pub mod Round
pub mod Answer
mod Tests
use go_uring.Base.{
  ℕ, ◌%◌, Option, none, some, List, [], ◌∷◌, bit_or, ◌==◌, if◌then◌else◌, length, get_or, set, map,
  Bool, true, false, ◌&&◌, ◌^◌,
}
use go_uring.Base.Int.{ℤ, pos, is_zero}
use go_uring.Uring.Entry.{CqEvent, sqe_io_link_flag}
use go_uring.Uring.Operation.{Operation, cancel, link_timeout}
use go_uring.Uring.Sq.{SqRing, Queued, ok, sq_overflow, prep_panic, queue_sqe}
use go_uring.Uring.Ring.{Ring, Enter, Entered, submit}
use go_uring.Reactor.RequestId.{timeout_nonce, cancel_nonce}
use go_uring.Reactor.Nonce.{next_nonce}
use go_uring.Reactor.Registry.{update}
use go_uring.Reactor.Net.{SubSqeRequest, is_reserved, check_ring_req}

pub record RingEventLoop (C : Type 0) : Type 0 where
  pub ring : Ring
  pub callbacks : ℕ → Option C
  pub need_submit : ℕ

unfoldable pub new_ring_event_loop : {C : Type 0} → Ring → RingEventLoop C
new_ring_event_loop ring = record { ring = ring; callbacks = λ nonce. none; need_submit = 0 }

-- `loopForNonce`: the number of the loop.
unfoldable pub loop_for_nonce : ℕ → ℕ → ℕ
loop_for_nonce n nonce = nonce % n

-- The entries of a request; the error of the deadline's entry is dropped, not its panic.
unfoldable pub ignore_overflow : Queued × SqRing → Queued × SqRing
ignore_overflow (sq_overflow, s) = (ok, s)
ignore_overflow (q, s) = (q, s)

unfoldable pub queue_request : ℕ → ℕ → SubSqeRequest → SqRing → Queued × SqRing
unfolding ignore_overflow
queue_request spec link_spec req s =
    let plain = queue_sqe spec req.op req.flags req.user_data s in
    let linked = queue_sqe spec req.op (bit_or req.flags sqe_io_link_flag) req.user_data s in
    if is_zero req.timeout then plain else elim linked.0 [
      | ok ↦
          ignore_overflow (queue_sqe link_spec (link_timeout req.timeout) 0 timeout_nonce linked.1)
      | sq_overflow ↦ linked
      | prep_panic ↦ linked
    ]

module _ {C : Type 0} where
  -- The callback is kept if the entries were queued.
  unfoldable pub keep_callback : Queued → ℕ → Option C → (ℕ → Option C) → ℕ → Option C
  keep_callback ok nonce cb callbacks = update callbacks nonce cb
  keep_callback q nonce cb callbacks = callbacks

  -- `ringEventLoop.Queue`
  unfoldable pub loop_queue :
      ℕ → ℕ → SubSqeRequest → Option C → RingEventLoop C → Queued × RingEventLoop C
  unfolding queue_request keep_callback
  loop_queue spec link_spec req cb loop =
      let (q, s) = queue_request spec link_spec req loop.ring.sq_ring in
      (
        q,
        record {
          ring = record loop.ring { sq_ring = s };
          callbacks = keep_callback q req.user_data cb loop.callbacks;
          need_submit = 1;
        },
      )

  -- `ringEventLoop.cancel`
  unfoldable pub loop_cancel : ℕ → RingEventLoop C → Queued × RingEventLoop C
  unfolding loop_queue
  loop_cancel nonce loop =
      loop_queue 0 0
        (record { op = cancel 0 nonce; flags = 0; user_data = cancel_nonce; timeout = pos 0 }) none
        loop

  -- The consumer on a batch: the calls of callbacks, in order, `none` for a nil one.
  unfoldable pub deliver_nonces :
      List CqEvent → (ℕ → Option C) → List (Option C × CqEvent) × (ℕ → Option C)
  deliver_nonces [] callbacks = ([], callbacks)
  deliver_nonces (cqe ∷ cqes) callbacks =
      let skipped = deliver_nonces cqes callbacks in
      let (calls, left) = deliver_nonces cqes (update callbacks cqe.user_data none) in
      if is_reserved cqe then skipped else ((callbacks cqe.user_data, cqe) ∷ calls, left)

  -- The publisher on a submit signal.
  module _ {K : Type 0} (enter : Enter → K → Ring → Entered K) where
    unfoldable pub submit_if_needed : K → RingEventLoop C → K × RingEventLoop C
    unfolding submit
    submit_if_needed w loop =
        let (done, w', ring) = submit enter w loop.ring in
        if loop.need_submit == 1
        then (w', record loop { ring = ring; need_submit = 0 })
        else (w, loop)

-- `Reactor`: its loops and the counter of its nonces, which other goroutines do not move in one step.
pub record Reactor (C : Type 0) : Type 0 where
  pub loops : List (RingEventLoop C)
  pub current_nonce : ℕ

-- `configuration` and its `Option`s; what a logger is the caller knows.
pub record Configuration (L : Type 0) : Type 0 where
  pub tick_duration : ℤ
  pub logger : L

pub data ReactorOption (L : Type 0) : Type 0 where
  with_tick_timeout : (duration : ℤ) → ReactorOption L
  with_logger : L → ReactorOption L

unfoldable pub all_have_ext_arg : List Ring → Bool
unfolding check_ring_req
all_have_ext_arg [] = true
all_have_ext_arg (ring ∷ rings) = check_ring_req ring.params false && all_have_ext_arg rings

module _ {L : Type 0} where
  unfoldable pub apply_reactor_option : ReactorOption L → Configuration L → Configuration L
  apply_reactor_option (with_tick_timeout d) cfg = record cfg { tick_duration = d }
  apply_reactor_option (with_logger l) cfg = record cfg { logger = l }

  unfoldable pub apply_reactor_options : List (ReactorOption L) → Configuration L → Configuration L
  unfolding apply_reactor_option
  apply_reactor_options [] cfg = cfg
  apply_reactor_options (o ∷ os) cfg = apply_reactor_options os (apply_reactor_option o cfg)

  -- `New`: `none` for the error. The default tick is a millisecond, in nanoseconds.
  unfoldable pub new_reactor :
      {C : Type 0}
      → (nop_logger : L) → List Ring
      → List (ReactorOption L)
      → Option (Reactor C × Configuration L)
  unfolding all_have_ext_arg new_ring_event_loop apply_reactor_options
  new_reactor nop_logger rings opts =
      if all_have_ext_arg rings
      then some (
        record { loops = map new_ring_event_loop rings; current_nonce = 0 },
        apply_reactor_options opts (record { tick_duration = pos (10 ^ 6); logger = nop_logger }),
      )
      else none

module _ {C : Type 0} (spec link_spec : ℕ) (default : RingEventLoop C) where
  -- The loop of the nonce takes the request.
  queue_on_loop : Operation → Option C → ℤ → Reactor C → Option ℕ → Option (ℕ × Queued × Reactor C)
  unfolding loop_queue loop_for_nonce
  queue_on_loop op cb timeout r none = none
  queue_on_loop op cb timeout r (some nonce) =
      let i = loop_for_nonce (length r.loops) nonce in
      let req : SubSqeRequest = record {
        op = op;
        flags = 0;
        user_data = nonce;
        timeout = timeout;
      } in
      let (q, loop) = loop_queue spec link_spec req cb (get_or r.loops i default) in
      some (nonce, q, record { loops = set r.loops i loop; current_nonce = nonce })

  -- `queue`: the nonce, and the error. Three rounds are enough for the nonce.
  unfoldable pub reactor_queue :
      Operation → Option C → ℤ → Reactor C → Option (ℕ × Queued × Reactor C)
  unfolding queue_on_loop next_nonce
  reactor_queue op cb timeout r = queue_on_loop op cb timeout r (next_nonce 3 r.current_nonce)

  -- `Queue` and `QueueWithDeadline`; the deadline is the time until it, `none` for the zero time.
  unfoldable pub reactor_queue_with_deadline :
      Operation → Option C → Option ℤ → Reactor C → Option (ℕ × Queued × Reactor C)
  unfolding reactor_queue
  reactor_queue_with_deadline op cb none r = reactor_queue op cb (pos 0) r
  reactor_queue_with_deadline op cb (some until) r = reactor_queue op cb until r

  -- `Cancel`
  unfoldable pub reactor_cancel : ℕ → Reactor C → Queued × Reactor C
  unfolding loop_cancel loop_for_nonce
  reactor_cancel nonce r =
      let i = loop_for_nonce (length r.loops) nonce in
      let (q, loop) = loop_cancel nonce (get_or r.loops i default) in
      (q, record r { loops = set r.loops i loop })

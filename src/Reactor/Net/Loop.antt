-- ===== src/Reactor/Net/Loop.antt =====
-- reactor/net.go, runPublisher and runConsumer: the cases of the publisher's select, and the loop of
-- the consumer over the ready completions. The kernel is a parameter, as in Uring/Ring.
pub mod Published
mod Tests
use mathlib.Core.Option
use go_uring.Base.{
  ℕ, zero, suc, ◌+◌, Bool, true, false, ◌||◌, Option, none, some, List, [], ◌∷◌, ◌++◌, ◌==◌,
  if◌then◌else◌, take,
}
use go_uring.Uring.Entry.{CqEvent}
use go_uring.Uring.Sq.{Queued}
use go_uring.Uring.Cq.{advance_cq}
use go_uring.Uring.Ring.{Ring, Enter, Entered, Outcome, submit, eagain, peek_cq_event_batch_flush}
use go_uring.Reactor.Consumer.{Drain, drain}
use go_uring.Reactor.Registry.{CbRegistry}
use go_uring.Reactor.Net.{RingNetEventLoop, SubSqeRequest, publish_request, deliver}

-- EBUSY
abbrev pub ebusy : ℕ
ebusy = 16

module _ {C : Type 0} where
  -- The publisher receives a request; `none` while there is none.
  receive_request :
      ℕ
      → ℕ
      → List SubSqeRequest
      → RingNetEventLoop
      → CbRegistry C
      → Option (Queued × RingNetEventLoop × CbRegistry C)
  unfolding publish_request
  receive_request spec link_spec [] loop reg = none
  receive_request spec link_spec (req ∷ reqs) loop reg =
      let (q, s', reg') = publish_request spec link_spec req loop.ring.sq_ring reg in
      let loop' : RingNetEventLoop = record {
        ring = record loop.ring { sq_ring = s' };
        req_buss = reqs;
        submit_allowed = 1;
      } in
      some (q, loop', reg')

  unfoldable pub publisher_request :
      ℕ → ℕ → RingNetEventLoop → CbRegistry C → Option (Queued × RingNetEventLoop × CbRegistry C)
  unfolding receive_request
  publisher_request spec link_spec loop reg = receive_request spec link_spec loop.req_buss loop reg

-- EBUSY and EAGAIN leave the submission allowed.
abbrev pub is_busy : Option ℕ → Bool
is_busy none = false
is_busy (some e) = e == ebusy || e == eagain

module _ {K : Type 0} (enter : Enter → K → Ring → Entered K) where
  -- The publisher on a submit signal.
  unfoldable pub publisher_submit : K → RingNetEventLoop → K × RingNetEventLoop
  unfolding submit
  publisher_submit w loop =
      let (done, w', ring) = submit enter w loop.ring in
      let submitted : RingNetEventLoop = record loop {
        ring = ring;
        submit_allowed = if is_busy done.1 then 1 else 0;
      } in
      if loop.submit_allowed == 1 then (w', submitted) else (w, loop)

  -- The loop of the consumer over the batches.
  unfoldable pub consumer_drain :
      {C : Type 0}
      → ℕ
      → List (Option CqEvent)
      → K
      → Ring
      → CbRegistry C
      → Option (Drain K C (CbRegistry C))
  unfolding drain deliver
  consumer_drain fuel buff w ring reg = drain enter deliver fuel buff w ring reg

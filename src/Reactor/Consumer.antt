-- ===== src/Reactor/Consumer.antt =====
-- runConsumer of reactor/net.go and reactor/reactor.go: the loop over the ready completions, and a
-- round with its wait. How a batch is delivered is a parameter: the two reactors keep their callbacks
-- differently, in a state `R`. The kernel is a parameter, as in Uring/Ring.
pub mod Drain
pub mod Round
use mathlib.Core.Option
use go_uring.Base.{ℕ, zero, suc, ◌+◌, Option, none, some, List, [], ◌∷◌, ◌++◌, take}
use go_uring.Base.Int.{ℤ}
use go_uring.Uring.Entry.{CqEvent}
use go_uring.Uring.Cq.{advance_cq}
use go_uring.Uring.Ring.{Ring, Enter, Entered, Outcome, peek_cq_event_batch_flush}
use go_uring.Uring.Ring.Timeout.{Waited, waited, overflow, wait_cq_events_with_timeout}

-- The entries that the pointers of a batch point to; `none` for a nil pointer.
unfoldable pub events_of : List (Option CqEvent) → Option (List CqEvent)
events_of [] = some []
events_of (none ∷ ps) = none
events_of (some cqe ∷ ps) = Option.map (λ cqes. cqe ∷ cqes) (events_of ps)

-- What the consumer has called, the kernel's state, the ring and the state of the callbacks.
abbrev pub Drain : Type 0 → Type 0 → Type 0 → Type 0
Drain K C R = List (Option C × CqEvent) × K × Ring × R

module _ {K C R : Type 0} (enter : Enter → K → Ring → Entered K)
    (deliver : List CqEvent → R → List (Option C × CqEvent) × R) where
  -- A batch of `n`: its calls, and the completions are seen; then the next one.
  unfoldable pub drain_events :
      ℕ
      → Option (List CqEvent)
      → K
      → Ring
      → R
      → (K → Ring → R → Option (Drain K C R))
      → Option (Drain K C R)
  unfolding advance_cq
  drain_events zero cqes w ring reg again = some ([], w, ring, reg)
  drain_events (suc n) none w ring reg again = none
  drain_events (suc n) (some cqes) w ring reg again =
      let (calls, reg') = deliver cqes reg in
      Option.map (λ (rest : Drain K C R). (calls ++ rest.0, rest.1, rest.2, rest.3))
        (again w (record ring { cq_ring = advance_cq (suc n) ring.cq_ring }) reg')

  unfoldable pub drain_batch :
      Option (Outcome K (ℕ × List (Option CqEvent)))
      → R
      → (List (Option CqEvent) → K → Ring → R → Option (Drain K C R))
      → Option (Drain K C R)
  unfolding drain_events events_of
  drain_batch none reg again = none
  drain_batch (some ((n, buff), w, ring)) reg again =
      drain_events n (events_of (take n buff)) w ring reg (again buff)

  -- The loop over the batches, with fuel and the buffer; `none` when the fuel runs
  -- out, or for the panic on a nil pointer.
  unfoldable pub drain : ℕ → List (Option CqEvent) → K → Ring → R → Option (Drain K C R)
  unfolding drain_batch peek_cq_event_batch_flush
  drain zero buff w ring reg = none
  drain (suc fuel) buff w ring reg =
      drain_batch (peek_cq_event_batch_flush enter buff w ring) reg (drain fuel)

  module _ (wait_fuel fuel spec : ℕ) (tick : ℤ) (buff : List (Option CqEvent)) (reg : R) where
    -- Any error, of the timeout or another, ends the round; it is logged or not.
    after_error : Option ℕ → K → Ring → Option (Drain K C R)
    unfolding drain
    after_error (some e) w ring = some ([], w, ring, reg)
    after_error none w ring = drain fuel buff w ring reg

    after_wait : Option (Outcome K Waited) → Option (Drain K C R)
    unfolding after_error
    after_wait none = none
    after_wait (some (overflow, w, ring)) = some ([], w, ring, reg)
    after_wait (some (waited got, w, ring)) = after_error got.err w ring

    unfoldable pub round_of : K → Ring → Option (Drain K C R)
    unfolding after_wait wait_cq_events_with_timeout
    round_of w ring = after_wait (wait_cq_events_with_timeout enter wait_fuel spec 1 tick w ring)

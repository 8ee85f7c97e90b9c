-- ===== src/Reactor/Goroutines/Tests.antt =====
-- A run of the network reactor's goroutines to the end of `Run`.
use go_uring.Base.{◌+◌, ◌*◌, ◌≤◌, ◌≡◌, ◌⊎◌, refl, true}
use go_uring.Reactor.Goroutines.{
  Consumer, Publisher, Stopper, Loop, loop, Step, Run, done, next, Reach, start, later, selecting,
  signalling, working, sending_consumer, finished, signal, nothing_ready, stop_consumer,
  consumer_returns, request, worked, stop_publisher, publisher_returns, context_done,
  consumer_awaited,
}
use go_uring.Reactor.Goroutines.Stop.{run_ends, closed_after_consumer}

-- The context is done while the consumer is about to send its signal.
stopping : Reach true (loop signalling selecting sending_consumer)
stopping = later start context_done

-- A request comes in between; the consumer finds nothing and the stop signal.
to_check :
    Run true 5 1
      (loop signalling selecting sending_consumer)
      (loop Consumer.closing working Stopper.awaiting_consumer)
to_check = next request (next worked (next signal (next nothing_ready (next stop_consumer done))))

run_ends_example :
    (◌≡◌ {A = Stopper} Stopper.awaiting_consumer finished
      ⊎ ((k : Loop) × Step true 0 (loop Consumer.closing working Stopper.awaiting_consumer) k))
    × (5 ≤ 19 + 2 * 1)
run_ends_example = run_ends true stopping (λ e. cc) to_check

publisher_left : Reach true (loop Consumer.returned Publisher.returned Stopper.awaiting_publisher)
publisher_left =
    later
      (later
        (later
          (later (later (later (later (later stopping signal) worked) nothing_ready) stop_consumer)
            consumer_returns)
          consumer_awaited)
        stop_publisher)
      publisher_returns

closed_after_consumer_example : Consumer.returned ≡ Consumer.returned
closed_after_consumer_example = closed_after_consumer true publisher_left refl

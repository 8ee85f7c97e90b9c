-- ===== src/Reactor/Goroutines.antt =====
-- reactor/net.go and reactor/reactor.go: the consumer and the publisher of a loop, and how `Run`
-- stops them. The channels of the signals and the stops have no buffer, so a send and its receive are
-- one step of both; a closed channel is the end of the goroutine that closes it. The work of a
-- goroutine, such as the callbacks of a batch, is a step that ends.
pub mod Inv
pub mod Stop
mod Tests
use go_uring.Base.{ℕ, zero, suc, ◌+◌, ◌≡◌, ◌≢◌, Bool, true, false}

-- `runConsumer`: it sends a submit signal, waits for completions, in the network reactor sends
-- another signal if there are some, delivers them, and looks for the stop signal.
pub data Consumer : Type 0 where
  signalling waiting signalling_again delivering checking closing returned : Consumer

-- `runPublisher`: it selects, works on a request or a submit signal, or has received the stop signal.
pub data Publisher : Type 0 where
  selecting working closing returned : Publisher

-- `Run` on one of its loops: `stopConsumer` sends and then waits for the close, and so does
-- `stopPublisher`.
pub data Stopper : Type 0 where
  running sending_consumer awaiting_consumer sending_publisher awaiting_publisher finished : Stopper

pub data Loop : Type 0 where
  loop : Consumer → Publisher → Stopper → Loop

abbrev pub stopper_of : Loop → Stopper
stopper_of (loop c p s) = s

-- Whether the consumer sends a second signal: it does in the network reactor.
module _ (again : Bool) where
  -- A step, and 1 if the publisher takes a request from its channel, else 0.
  pub data Step : ℕ → Loop → Loop → Type 0 where
    signal : {s : Stopper} → Step 0 (loop signalling selecting s) (loop waiting working s)
    nothing_ready : {p : Publisher} {s : Stopper} → Step 0 (loop waiting p s) (loop checking p s)
    ready :
        {p : Publisher} {s : Stopper}
        → again ≡ false
        → Step 0 (loop waiting p s) (loop delivering p s)
    ready_again :
        {p : Publisher} {s : Stopper}
        → again ≡ true
        → Step 0 (loop waiting p s) (loop signalling_again p s)
    signal_again :
        {s : Stopper} → Step 0 (loop signalling_again selecting s) (loop delivering working s)
    delivered : {p : Publisher} {s : Stopper} → Step 0 (loop delivering p s) (loop checking p s)
    go_on :
        {p : Publisher} {s : Stopper}
        → s ≢ sending_consumer
        → Step 0 (loop checking p s) (loop signalling p s)
    stop_consumer :
        {p : Publisher}
        → Step 0 (loop checking p sending_consumer) (loop Consumer.closing p awaiting_consumer)
    consumer_returns :
        {p : Publisher} {s : Stopper}
        → Step 0 (loop Consumer.closing p s) (loop Consumer.returned p s)
    request : {c : Consumer} {s : Stopper} → Step 1 (loop c selecting s) (loop c working s)
    worked : {c : Consumer} {s : Stopper} → Step 0 (loop c working s) (loop c selecting s)
    stop_publisher :
        {c : Consumer}
        → Step 0 (loop c selecting sending_publisher) (loop c Publisher.closing awaiting_publisher)
    publisher_returns :
        {c : Consumer} {s : Stopper}
        → Step 0 (loop c Publisher.closing s) (loop c Publisher.returned s)
    context_done :
        {c : Consumer} {p : Publisher} → Step 0 (loop c p running) (loop c p sending_consumer)
    consumer_awaited :
        {p : Publisher}
        → Step 0
            (loop Consumer.returned p awaiting_consumer)
            (loop Consumer.returned p sending_publisher)
    publisher_awaited :
        {c : Consumer}
        → Step 0 (loop c Publisher.returned awaiting_publisher) (loop c Publisher.returned finished)

  -- A run of `n` steps, of which `r` take a request.
  pub data Run : ℕ → ℕ → Loop → Loop → Type 0 where
    done : {l : Loop} → Run 0 0 l l
    next : {n r q : ℕ} {l m k : Loop} → Step q l m → Run n r m k → Run (suc n) (q + r) l k

  pub data Reach : Loop → Type 0 where
    start : Reach (loop signalling selecting running)
    later : {q : ℕ} {l m : Loop} → Reach l → Step q l m → Reach m

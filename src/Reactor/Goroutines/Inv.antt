-- ===== src/Reactor/Goroutines/Inv.antt =====
-- Which states of the consumer, the publisher and `Run` go together.
use go_uring.Base.{ℕ, ◌≡◌, refl, Bool, true, false, not, ◌&&◌, arith}
use go_uring.Reactor.Goroutines.{
  Consumer, Publisher, Loop, loop, Step, Reach, start, later, running, sending_consumer,
  awaiting_consumer, sending_publisher, awaiting_publisher, finished, signal,
}

-- The goroutine has not received its stop signal, or it has returned.
abbrev pub consumer_lives : Consumer → Bool
consumer_lives Consumer.closing = false
consumer_lives Consumer.returned = false
consumer_lives c = true

abbrev pub consumer_left : Consumer → Bool
consumer_left Consumer.returned = true
consumer_left c = false

abbrev pub publisher_lives : Publisher → Bool
publisher_lives Publisher.closing = false
publisher_lives Publisher.returned = false
publisher_lives p = true

abbrev pub publisher_left : Publisher → Bool
publisher_left Publisher.returned = true
publisher_left p = false

abbrev pub fits : Loop → Bool
fits (loop c p running) = consumer_lives c && publisher_lives p
fits (loop c p sending_consumer) = consumer_lives c && publisher_lives p
fits (loop c p awaiting_consumer) = not (consumer_lives c) && publisher_lives p
fits (loop c p sending_publisher) = consumer_left c && publisher_lives p
fits (loop c p awaiting_publisher) = consumer_left c && not (publisher_lives p)
fits (loop c p finished) = consumer_left c && publisher_left p

module _ (again : Bool) where
  pub Step-fits : {q : ℕ} {l m : Loop} → Step again q l m → fits l ≡ true → fits m ≡ true
  Step-fits (signal {s}) h = ground arith
  Step-fits st h = ground arith

  pub Reach-fits : {l : Loop} → Reach again l → fits l ≡ true
  Reach-fits start = refl
  Reach-fits (later r st) = Step-fits st (Reach-fits r)

-- ===== src/Reactor/Goroutines/Stop.antt =====
-- No goroutine sends on a closed channel, and `Run` comes to its end.
use go_uring.Base.{ℕ, suc, ◌+◌, ◌*◌, ◌≤◌, ◌≡◌, ◌≢◌, ◌⊎◌, inl, inr, refl, Bool, true, arith}
use go_uring.Reactor.Goroutines.{
  Consumer, Publisher, Stopper, Loop, loop, stopper_of, Step, Run, done, next, Reach, signalling,
  waiting, signalling_again, delivering, checking, selecting, working, running, sending_consumer,
  awaiting_consumer, sending_publisher, awaiting_publisher, finished, signal, nothing_ready,
  signal_again, delivered, go_on, stop_consumer, consumer_returns, worked, stop_publisher,
  publisher_returns, consumer_awaited, publisher_awaited,
}
use go_uring.Reactor.Goroutines.Inv.{fits, Step-fits, Reach-fits}

-- What is left to do, at most.
abbrev pub consumer_steps : Consumer → ℕ
consumer_steps signalling = 12
consumer_steps waiting = 10
consumer_steps signalling_again = 8
consumer_steps delivering = 6
consumer_steps checking = 4
consumer_steps Consumer.closing = 2
consumer_steps Consumer.returned = 0

abbrev pub publisher_steps : Publisher → ℕ
publisher_steps working = 3
publisher_steps selecting = 2
publisher_steps Publisher.closing = 1
publisher_steps Publisher.returned = 0

abbrev pub stopper_steps : Stopper → ℕ
stopper_steps running = 5
stopper_steps sending_consumer = 4
stopper_steps awaiting_consumer = 3
stopper_steps sending_publisher = 2
stopper_steps awaiting_publisher = 1
stopper_steps finished = 0

abbrev pub steps_left : Loop → ℕ
steps_left (loop c p s) = consumer_steps c + publisher_steps p + stopper_steps s

steps_left_le : (l : Loop) → stopper_of l ≢ running → steps_left l ≤ 19
steps_left_le (loop c p s) h = ground arith

module _ (again : Bool) where
  Step-stopping :
      {q : ℕ} {l m : Loop} → Step again q l m → stopper_of l ≢ running → stopper_of m ≢ running
  Step-stopping (signal {s}) h = h
  Step-stopping (stop_consumer {p}) h = ground arith
  Step-stopping st h = ground arith

  -- Every step but the receipt of a request brings the end nearer.
  Step-steps_left :
      {q : ℕ} {l m : Loop}
      → Step again q l m
      → fits l ≡ true
      → stopper_of l ≢ running
      → suc (steps_left m) ≤ steps_left l + 2 * q
  Step-steps_left (signal {s}) f h = omega arith
  Step-steps_left (go_on {p} {s = sending_consumer} e) f h = absurd (e refl)
  Step-steps_left (go_on {p} {s} e) f h = ground arith
  Step-steps_left st f h = ground arith

  Run-steps_left :
      {n r : ℕ} {l m : Loop}
      → Run again n r l m
      → fits l ≡ true
      → stopper_of l ≢ running
      → n + steps_left m ≤ steps_left l + 2 * r
  Run-steps_left done f h = omega arith
  Run-steps_left (next st run) f h = omega (
    arith,
    Step-steps_left st f h,
    Run-steps_left run (Step-fits again st f) (Step-stopping st h),
  )

  Run-keeps :
      {n r : ℕ} {l m : Loop}
      → Run again n r l m
      → fits l ≡ true
      → stopper_of l ≢ running
      → (fits m ≡ true) × (stopper_of m ≢ running)
  Run-keeps done f h = (f, h)
  Run-keeps (next st run) f h = Run-keeps run (Step-fits again st f) (Step-stopping st h)

  -- A step that takes no request.
  abbrev Moves : Loop → Type 0
  Moves l = (m : Loop) × Step again 0 l m

  step_or_end :
      (l : Loop) → fits l ≡ true → stopper_of l ≢ running → (stopper_of l ≡ finished) ⊎ Moves l
  step_or_end (loop c p finished) f h = inl refl
  step_or_end (loop c p running) f h = absurd (h refl)
  step_or_end (loop c working s) f h = inr (_, worked)
  step_or_end (loop c Publisher.closing s) f h = inr (_, publisher_returns)
  step_or_end (loop Consumer.closing p s) f h = inr (_, consumer_returns)
  step_or_end (loop waiting p s) f h = inr (_, nothing_ready)
  step_or_end (loop delivering p s) f h = inr (_, delivered)
  step_or_end (loop signalling selecting s) f h = inr (_, signal)
  step_or_end (loop signalling_again selecting s) f h = inr (_, signal_again)
  step_or_end (loop checking p sending_consumer) f h = inr (_, stop_consumer)
  step_or_end (loop Consumer.returned p awaiting_consumer) f h = inr (_, consumer_awaited)
  step_or_end (loop Consumer.returned selecting sending_publisher) f h = inr (_, stop_publisher)
  step_or_end (loop Consumer.returned Publisher.returned awaiting_publisher) f h =
      inr (_, publisher_awaited)
  step_or_end l f h = cc

  -- Once the context is done, `Run` stops the loop: in every state that can be reached it has
  -- finished or some step is possible that takes no request, and a run of `n` steps from there, of
  -- which `r` take a request, has `n ≤ 19 + 2 * r`. So it comes to its end as long as the publisher
  -- is not given requests for ever.
  pub run_ends :
      {l m : Loop} {n r : ℕ}
      → Reach again l
      → stopper_of l ≢ running
      → Run again n r l m
      → ((stopper_of m ≡ finished) ⊎ ((k : Loop) × Step again 0 m k)) × (n ≤ 19 + 2 * r)
  run_ends {l} {m} {n} {r} reach stopping run =
      let fit = Reach-fits again reach in
      let kept = Run-keeps run fit stopping in
      (
        step_or_end m kept.0 kept.1,
        omega (arith, Run-steps_left run fit stopping, steps_left_le l stopping),
      )

  -- While the consumer can still send a submit signal or the publisher can receive one, the channel
  -- of the signals is open: the publisher, which closes it, returns after the consumer.
  pub closed_after_consumer :
      {c : Consumer} {p : Publisher} {s : Stopper}
      → Reach again (loop c p s)
      → p ≡ Publisher.returned
      → c ≡ Consumer.returned
  closed_after_consumer {c} {p} {s} reach left = ground (arith, Reach-fits again reach)

-- ===== src/Reactor/Submitting.antt =====
-- reactor/reactor.go: ringEventLoop.Queue on the goroutines of callers against the publisher, over the
-- flag `needSubmit` and the lock `queueSQELock`. Each access of the flag and each call on the ring is a
-- step. The stop of the publisher is in Goroutines.
pub mod Kept
mod Tests
use go_uring.Base.{ℕ, ◌+◌, ◌≤◌, Bool, true, false}

-- Who holds the lock: nobody, a caller at one of the three places of `Queue`, or the publisher.
pub data Holder : Type 0 where
  nobody caller_locked caller_stored caller_queued publisher : Holder

-- `runPublisher`, at its select, or after it has taken the flag.
pub data FlagPublisher : Type 0 where
  selecting flag_taken : FlagPublisher

-- The lock, the publisher, the flag, and the entries that were queued after the last `Submit`.
pub data FlagState : Type 0 where
  state : Holder → FlagPublisher → (need_submit : Bool) → (unsubmitted : ℕ) → FlagState

pub data FlagStep : FlagState → FlagState → Type 0 where
  lock :
      {p : FlagPublisher} {f : Bool} {n : ℕ}
      → FlagStep (state nobody p f n) (state caller_locked p f n)
  store_flag :
      {p : FlagPublisher} {f : Bool} {n : ℕ}
      → FlagStep (state caller_locked p f n) (state caller_stored p true n)
  queue_entries :
      {p : FlagPublisher} {f : Bool} {n : ℕ} (added : ℕ)
      → added ≤ 2
      → FlagStep (state caller_stored p f n) (state caller_queued p f (n + added))
  unlock :
      {p : FlagPublisher} {f : Bool} {n : ℕ}
      → FlagStep (state caller_queued p f n) (state nobody p f n)
  take_flag :
      {h : Holder} {n : ℕ} → FlagStep (state h selecting true n) (state h flag_taken false n)
  publisher_lock :
      {f : Bool} {n : ℕ} → FlagStep (state nobody flag_taken f n) (state publisher flag_taken f n)
  submitted :
      {f : Bool} {n : ℕ} → FlagStep (state publisher flag_taken f n) (state nobody selecting f 0)

-- The states that can be reached as long as no `Submit` fails.
pub data Reach : FlagState → Type 0 where
  start : Reach (state nobody selecting false 0)
  later : {s t : FlagState} → Reach s → FlagStep s t → Reach t

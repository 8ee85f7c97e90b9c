-- ===== src/Reactor/Submitting/Tests.antt =====
-- An interleaving: the publisher takes the flag before the caller has queued its entry.
use go_uring.Base.{◌≡◌, ◌⊎◌, true, false, arith}
use go_uring.Reactor.Submitting.{
  nobody, flag_taken, FlagPublisher, state, lock, store_flag, queue_entries, unlock, take_flag,
  Reach, start, later,
}
use go_uring.Reactor.Submitting.Kept.{submission_kept}

taken_early : Reach (state nobody flag_taken false 1)
taken_early =
    later
      (later (later (later (later start lock) store_flag) take_flag)
        (queue_entries 1 (omega arith)))
      unlock

submission_kept_example : (false ≡ true) ⊎ (◌≡◌ {A = FlagPublisher} flag_taken flag_taken)
submission_kept_example = submission_kept taken_early (omega arith)

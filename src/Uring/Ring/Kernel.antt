-- ===== src/Uring/Ring/Kernel.antt =====
-- What io_uring_enter(2) documents, as far as the waiting loops rely on it, for a kernel that is a
-- parameter.
use go_uring.Uring.Sq.Inv.{visible_count}
use go_uring.Base.{ℕ, ◌+◌, ◌^◌, ◌≤◌, ◌<◌, ◌≡◌, true, List, ◌++◌, length}
use go_uring.Base.Bits.{digit}
use go_uring.Uring.Entry.{CqEvent}
use go_uring.Uring.Sq.{cq_need_flush}
use go_uring.Uring.Cq.Inv.{IsValid, ready}
use go_uring.Uring.Ring.{Ring, Enter, Entered}

-- The call only appends completions (`grows`) to a valid queue and changes no parameter. If it
-- succeeds with IORING_ENTER_GETEVENTS and nothing to submit, as many completions are ready as it
-- was to wait for, and at least one if the kernel had reported an overflow. If it succeeds with
-- entries to submit, and so many are in the submission queue, it has consumed at least one of them
-- and no more than those, and what it has not consumed of them is still in the queue; an interrupted
-- wait is not an error then. Of a queue with fewer entries nothing is said: the call may return 0.
pub record Honours {K : Type 0} (k : ℕ) (enter : Enter → K → Ring → Entered K) : Type 0 where
  pub keeps_valid :
      (a : Enter) (w : K) (r : Ring) → IsValid k r.cq_ring → IsValid k (enter a w r).ring.cq_ring
  pub grows :
      (a : Enter) (w : K) (r : Ring)
      → IsValid k r.cq_ring
      → (new : List CqEvent) × (ready (2 ^ k) (enter a w r).ring.cq_ring
          ≡ ready (2 ^ k) r.cq_ring ++ new)
  pub keeps_params : (a : Enter) (w : K) (r : Ring) → (enter a w r).ring.params ≡ r.params
  pub completes :
      (a : Enter) (w : K) (r : Ring)
      → IsValid k r.cq_ring
      → (enter a w r).errno ≡ 0
      → a.to_submit ≡ 0
      → digit 0 a.flags ≡ 1
      → a.min_complete ≤ length (ready (2 ^ k) (enter a w r).ring.cq_ring)
  pub flushes :
      (a : Enter) (w : K) (r : Ring)
      → IsValid k r.cq_ring
      → (enter a w r).errno ≡ 0
      → a.to_submit ≡ 0
      → digit 0 a.flags ≡ 1
      → cq_need_flush r.sq_ring ≡ true
      → 0 < length (ready (2 ^ k) (enter a w r).ring.cq_ring)
  pub consumes :
      (a : Enter) (w : K) (r : Ring)
      → (enter a w r).errno ≡ 0
      → 0 < a.to_submit
      → a.to_submit ≤ visible_count r.sq_ring
      → (0 < (enter a w r).consumed)
        × ((enter a w r).consumed ≤ a.to_submit)
        × (a.to_submit ≤ visible_count (enter a w r).ring.sq_ring + (enter a w r).consumed)

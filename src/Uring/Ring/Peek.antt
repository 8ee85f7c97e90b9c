-- ===== src/Uring/Ring/Peek.antt =====
-- `PeekCQEventBatch` of a ring without an overflow.
use go_uring.Base.{ℕ, ◌≡◌, refl, ap, ◌∙◌, Option, some, false, List, ◌==◌, Bool-cases, inl, inr}
use go_uring.Uring.Entry.{CqEvent}
use go_uring.Uring.Sq.{cq_need_flush}
use go_uring.Uring.Cq.{peek_cq_event_batch}
use go_uring.Uring.Ring.{Ring, Enter, Entered, peek_batch, peek_cq_event_batch_flush}

module _ {K : Type 0} (enter : Enter → K → Ring → Entered K) where
  -- The kernel is not entered, and the batch is that of `peekCQEventBatch`.
  pub peek_cq_event_batch_flush-plain :
      (buff out : List (Option CqEvent)) (n : ℕ) (w : K) (r : Ring)
      → cq_need_flush r.sq_ring ≡ false
      → peek_cq_event_batch r.cq_ring buff ≡ some (n, out)
      → peek_cq_event_batch_flush enter buff w r ≡ some ((n, out), w, r)
  unfolding peek_cq_event_batch_flush peek_batch
  peek_cq_event_batch_flush-plain buff out n w r calm e =
      ap (λ o. peek_batch enter o buff w r) e ∙ elim (Bool-cases (n == 0)) [
        | inl none_found ↦ rw (none_found, calm) refl
        | inr found ↦ rw found refl
      ]

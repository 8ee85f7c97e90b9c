-- ===== src/Uring/Ring/Calls.antt =====
-- `WaitCQEvents`, `PeekCQE` and `SubmitAndWaitCQEvents`: how many rounds they take at most.
use go_uring.Base.{length, length-append, ℕ, ◌+◌, ◌^◌, ◌≤◌, ◌≡◌, ap, true, arith}
use go_uring.Uring.Sq.{flush_sq}
use go_uring.Uring.Sq.Queue.{Pending}
use go_uring.Uring.Sq.Inv.{
  IsValid as IsSqValid, pending, visible_count, length-submitted, total-pending, size_bounds,
}
use go_uring.Uring.Sq.Refine.Flush.{flush_sq_refines}
use go_uring.Uring.Cq.Inv.{IsValid}
use go_uring.Uring.Params.{ext_arg_feature}
use go_uring.Uring.Ring.{Ring, Enter, Entered, wait_cq_events, submit_and_wait_cq_events, peek_cqe}
use go_uring.Uring.Ring.Kernel.{Honours}
use go_uring.Uring.Ring.Rounds.{Delivers}
use go_uring.Uring.Ring.Wait.{get_cq_events_total}

module _ {K : Type 0} {k : ℕ} (enter : Enter → K → Ring → Entered K) (h : Honours k enter) where
  module _ (w : K) (r : Ring) (v : IsValid k r.cq_ring)
      (ext : ext_arg_feature r.params ≡ true) where
    -- `WaitCQEvents` and `PeekCQE` make at most one call: two rounds are enough for them to return
    -- an error, or the oldest completion, which stays in the queue.
    pub wait_cq_events_total :
        (fuel cnt : ℕ)
        → 2 ≤ fuel
        → Delivers k (wait_cq_events enter fuel cnt w r) × Delivers k (peek_cqe enter fuel w r)
    unfolding wait_cq_events peek_cqe
    wait_cq_events_total fuel cnt enough = (
      get_cq_events_total enter h fuel (record { submit = 0; wait_nr = cnt; flags = 0 }) w r v ext
          (omega arith) (omega arith) enough,
      get_cq_events_total enter h fuel (record { submit = 0; wait_nr = 0; flags = 0 }) w r v ext
          (omega arith) (omega arith) enough,
    )

    -- `SubmitAndWaitCQEvents` on a valid submission queue of `2 ^ j` entries returns, within
    -- `2 ^ j + 2` rounds, an error or the oldest completion, which stays in the queue.
    pub submit_and_wait_cq_events_total :
        (j fuel cnt : ℕ)
        → IsSqValid j r.sq_ring
        → 2 ^ j + 2 ≤ fuel
        → Delivers k (submit_and_wait_cq_events enter fuel cnt w r)
    unfolding submit_and_wait_cq_events
    submit_and_wait_cq_events_total j fuel cnt sv enough =
        get_cq_events_total enter h fuel
          (record { submit = (flush_sq r.sq_ring).0; wait_nr = cnt; flags = 0 }) w
          (record r { sq_ring = (flush_sq r.sq_ring).1 }) v ext
          (omega (arith, visible, size_bounds j sv.small)) in_queue (omega (arith, visible))
      where
        visible : (flush_sq r.sq_ring).0 ≤ 2 ^ j
        visible = omega (
          arith,
          ap (λ (o : ℕ × Pending). o.0) (flush_sq_refines sv).1,
          total-pending j r.sq_ring,
          sv.room,
        )

        in_queue : (flush_sq r.sq_ring).0 ≤ visible_count (flush_sq r.sq_ring).1
        in_queue = omega (
          arith,
          ap (λ (o : ℕ × Pending). o.0) (flush_sq_refines sv).1,
          ap (λ (o : ℕ × Pending). length o.1.submitted) (flush_sq_refines sv).1,
          length-append (pending (2 ^ j) r.sq_ring).submitted (pending (2 ^ j) r.sq_ring).prepared,
          length-submitted j (flush_sq r.sq_ring).1,
        )

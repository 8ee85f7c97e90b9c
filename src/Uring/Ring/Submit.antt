-- ===== src/Uring/Ring/Submit.antt =====
-- `Submit`: what it publishes, and when it enters the kernel.
use go_uring.Base.{
  ℕ, ◌^◌, ◌≡◌, refl, ap, ◌∙◌, Bool, not, ◌&&◌, none, bit_and, bit_or, ◌==◌, if◌then◌else◌,
  Bool-cases, inl, inr, ◌++◌, [],
}
use go_uring.Uring.Params.{setup_sq_poll, setup_io_poll}
use go_uring.Uring.Sq.{flush_sq, sq_need_wakeup}
use go_uring.Uring.Sq.Queue.{Pending, total}
use go_uring.Uring.Sq.Inv.{IsValid, pending}
use go_uring.Uring.Sq.Refine.Flush.{flush_sq_refines}
use go_uring.Uring.Ring.{
  Ring, Enter, Entered, needs_enter, submit, submit_flushed, sys_enter, enter_get_events,
  enter_sq_wakeup,
}

-- The kernel's thread polls the queue, and it is awake.
abbrev pub is_polled : Ring → Bool
is_polled r =
    not (bit_and r.params.flags setup_sq_poll == 0) && bit_and r.sq_ring.k_flags sq_need_wakeup == 0

-- The flags of the call: the wake-up of a sleeping thread, and the polling of completions.
abbrev pub submit_flags : Ring → ℕ
submit_flags r =
    let wakeup = if bit_and r.params.flags setup_sq_poll == 0 then 0 else enter_sq_wakeup in
    if bit_and r.params.flags setup_io_poll == 1 then bit_or wakeup enter_get_events else wakeup

module _ {K : Type 0} (enter : Enter → K → Ring → Entered K) where
  abbrev pub call_of : ℕ → Ring → Enter
  call_of flushed r = record {
    ring_fd = r.fd;
    to_submit = flushed;
    min_complete = 0;
    flags = submit_flags r;
  }

  submit_flushed-cases :
      (flushed : ℕ) (w : K) (r : Ring)
      → submit_flushed enter flushed w r
        ≡ (if is_polled r then ((flushed, none), w, r) else sys_enter enter (call_of flushed r) w r)
  unfolding submit_flushed needs_enter
  submit_flushed-cases flushed w r = elim (Bool-cases (bit_and r.params.flags setup_sq_poll == 0)) [
    | inl unpolled ↦ rw unpolled refl
    | inr polled ↦ elim (Bool-cases (bit_and r.sq_ring.k_flags sq_need_wakeup == 0)) [
      | inl awake ↦ rw (polled, awake) refl
      | inr asleep ↦ rw (polled, asleep) refl
    ]
  ]

  -- `Submit` makes every queued entry visible to the kernel. It enters the kernel with the number
  -- of entries that are visible then and, with IORING_SETUP_SQPOLL, IORING_ENTER_SQ_WAKEUP; unless
  -- the kernel's thread polls the queue and is awake: then it makes no call and returns that number.
  pub submit_lem :
      (k : ℕ) (w : K) (r : Ring)
      → IsValid k r.sq_ring
      → let q = pending (2 ^ k) r.sq_ring in
        let r' = record r { sq_ring = (flush_sq r.sq_ring).1 } in
        (submit enter w r ≡ (
          if is_polled r'
          then ((total q, none), w, r')
          else sys_enter enter (call_of (total q) r') w r'))
        × (pending (2 ^ k) r'.sq_ring
            ≡ record { submitted = q.submitted ++ q.prepared; prepared = [] })
  unfolding submit
  submit_lem k w r v =
      let refines = (flush_sq_refines v).1 in
      let r' = record r { sq_ring = (flush_sq r.sq_ring).1 } in
      (
        submit_flushed-cases (flush_sq r.sq_ring).0 w r'
            ∙ ap
                (λ (n : ℕ).
                  if is_polled r' then ((n, none), w, r') else sys_enter enter (call_of n r') w r')
                (ap (λ (o : ℕ × Pending). o.0) refines),
        ap (λ (o : ℕ × Pending). o.1) refines,
      )

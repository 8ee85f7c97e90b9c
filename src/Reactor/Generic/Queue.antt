-- ===== src/Reactor/Generic/Queue.antt =====
-- `Queue` of a loop: the entries, and the callback.
use go_uring.Base.{
  ℕ, ◌+◌, ◌^◌, ◌<◌, ◌≡◌, refl, ap, ◌∙◌, true, false, Option, some, [], ◌∷◌, ◌++◌, length-append,
  ltb, lt→ltb, bit_or, if◌then◌else◌, arith, Bool-cases, inl, inr,
}
use go_uring.Base.Int.{is_zero}
use go_uring.Uring.Entry.{SqEntry, zero_entry, sqe_io_link_flag}
use go_uring.Uring.Operation.{link_timeout}
use go_uring.Uring.Sq.{SqRing, Queued, ok, sq_overflow, prep_panic, entry_of, queue_sqe}
use go_uring.Uring.Sq.Queue.{Pending, push, total}
use go_uring.Uring.Sq.Inv.{IsValid, pending}
use go_uring.Uring.Sq.Refine.Push.{queue_sqe_refines}
use go_uring.Reactor.RequestId.{timeout_nonce}
use go_uring.Reactor.Registry.{update}
use go_uring.Reactor.Net.{SubSqeRequest}
use go_uring.Reactor.Generic.{
  RingEventLoop, ignore_overflow, queue_request, keep_callback, loop_queue,
}

module _ {C : Type 0} {k : ℕ} (loop : RingEventLoop C) (v : IsValid k loop.ring.sq_ring)
    (spec link_spec : ℕ) (req : SubSqeRequest) (cb : Option C) where
  abbrev before : Pending
  before = pending (2 ^ k) loop.ring.sq_ring

  keep_callback-push :
      (e : SqEntry)
      → keep_callback (push (2 ^ k) e before).0 req.user_data cb loop.callbacks ≡ (
          if ltb (total before) (2 ^ k)
          then update loop.callbacks req.user_data cb
          else loop.callbacks)
  unfolding keep_callback
  keep_callback-push e = elim (Bool-cases (ltb (total before) (2 ^ k))) [
    | inl room ↦ rw room refl
    | inr full ↦ rw full refl
  ]

  request_plain :
      is_zero req.timeout ≡ true
      → queue_request spec link_spec req loop.ring.sq_ring
        ≡ queue_sqe spec req.op req.flags req.user_data loop.ring.sq_ring
  unfolding queue_request
  request_plain plain = rw plain refl

  -- A request without a timeout is queued behind all that is pending, and its callback is kept under
  -- its nonce; if the queue is full neither happens, and the overflow is reported.
  pub loop_queue_plain :
      (e : SqEntry)
      → is_zero req.timeout ≡ true
      → entry_of spec req.op req.flags req.user_data zero_entry ≡ some e
      → let (q, loop') = loop_queue spec link_spec req cb loop in
        IsValid k loop'.ring.sq_ring
        × ((q, pending (2 ^ k) loop'.ring.sq_ring)
            ≡ push (2 ^ k) e (pending (2 ^ k) loop.ring.sq_ring))
        × (loop'.callbacks ≡ (
            if ltb (total (pending (2 ^ k) loop.ring.sq_ring)) (2 ^ k)
            then update loop.callbacks req.user_data cb
            else loop.callbacks))
  unfolding loop_queue
  loop_queue_plain e plain entry =
      let here = queue_sqe_refines v spec req.op req.flags req.user_data e entry in
      rw (request_plain plain) (
        here.0,
        here.1,
        ap (λ (o : Queued × Pending). keep_callback o.0 req.user_data cb loop.callbacks) here.1
            ∙ keep_callback-push e,
      )

  -- A request with a timeout: the linked entry, and the entry of the deadline behind it.
  module _ (e link : SqEntry) (timed : is_zero req.timeout ≡ false)
      (entry : entry_of spec req.op (bit_or req.flags sqe_io_link_flag) req.user_data zero_entry
        ≡ some e)
      (link_entry : entry_of link_spec (link_timeout req.timeout) 0 timeout_nonce zero_entry
        ≡ some link) where
    abbrev linked : Queued × SqRing
    linked =
        queue_sqe spec req.op (bit_or req.flags sqe_io_link_flag) req.user_data loop.ring.sq_ring

    abbrev with_entry : Pending
    with_entry = record before { prepared = before.prepared ++ (e ∷ []) }

    linked_lem :
        total before < 2 ^ k
        → IsValid k linked.1 × (linked.0 ≡ ok) × (pending (2 ^ k) linked.1 ≡ with_entry)
    linked_lem room =
        let here =
          queue_sqe_refines v spec req.op (bit_or req.flags sqe_io_link_flag) req.user_data e
            entry in
        let pushed : push (2 ^ k) e before ≡ (ok, with_entry) = rw (lt→ltb _ _ room) refl in
        (
          here.0,
          ap (λ (o : Queued × Pending). o.0) (here.1 ∙ pushed),
          ap (λ (o : Queued × Pending). o.1) (here.1 ∙ pushed),
        )

    abbrev second : Queued × SqRing
    second = queue_sqe link_spec (link_timeout req.timeout) 0 timeout_nonce linked.1

    request_timed :
        linked.0 ≡ ok → queue_request spec link_spec req loop.ring.sq_ring ≡ ignore_overflow second
    unfolding queue_request
    request_timed e = rw (timed, e) refl

    ignored : (q : Queued × SqRing) → q.0 ≡ sq_overflow → ignore_overflow q ≡ (ok, q.1)
    unfolding ignore_overflow
    ignored (sq_overflow, s) e = refl
    ignored (ok, s) e = ground arith
    ignored (prep_panic, s) e = ground arith

    -- A request with a timeout, when just one entry is free: the operation is queued with its link
    -- flag and its callback is kept, the entry of its deadline is not queued, and no error is
    -- reported: the operation has no deadline.
    pub loop_queue_last_entry :
        total (pending (2 ^ k) loop.ring.sq_ring) + 1 ≡ 2 ^ k
        → let (q, loop') = loop_queue spec link_spec req cb loop in
          IsValid k loop'.ring.sq_ring
          × (q ≡ ok)
          × (pending (2 ^ k) loop'.ring.sq_ring ≡ record (pending (2 ^ k) loop.ring.sq_ring) {
            prepared = (pending (2 ^ k) loop.ring.sq_ring).prepared ++ (e ∷ []);
          })
          × (loop'.callbacks ≡ update loop.callbacks req.user_data cb)
    unfolding loop_queue keep_callback
    loop_queue_last_entry last =
        let first = linked_lem (omega arith) in
        let here =
          queue_sqe_refines first.0 link_spec (link_timeout req.timeout) 0 timeout_nonce link
            link_entry in
        let full : ltb (total with_entry) (2 ^ k) ≡ false =
          ground (arith, length-append before.prepared (e ∷ [])) in
        let pushed : push (2 ^ k) link with_entry ≡ (sq_overflow, with_entry) = rw full refl in
        let both = here.1 ∙ ap (push (2 ^ k) link) first.2 ∙ pushed in
        rw (request_timed first.1, ignored second (ap (λ (o : Queued × Pending). o.0) both))
          (here.0, refl, ap (λ (o : Queued × Pending). o.1) both, refl)

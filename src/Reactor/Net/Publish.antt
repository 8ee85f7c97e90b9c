-- ===== src/Reactor/Net/Publish.antt =====
-- What the publisher does with a request: the entries that it queues, and the callback.
use go_uring.Base.{
  ℕ, ◌+◌, ◌^◌, ◌<◌, ◌≤◌, ◌≡◌, refl, ap, ◌∙◌, true, false, some, List, [], ◌∷◌, ◌++◌, length-append,
  append_assoc, ltb, lt→ltb, bit_or, if◌then◌else◌, arith, Bool-cases, inl, inr,
}
use go_uring.Base.Int.{is_zero}
use go_uring.Uring.Entry.{SqEntry, zero_entry, sqe_io_link_flag}
use go_uring.Uring.Operation.{link_timeout}
use go_uring.Uring.Sq.{SqRing, Queued, ok, sq_overflow, entry_of, queue_sqe}
use go_uring.Uring.Sq.Queue.{Pending, push, total}
use go_uring.Uring.Sq.Inv.{IsValid, pending}
use go_uring.Uring.Sq.Refine.Push.{queue_sqe_refines}
use go_uring.Reactor.RequestId.{timeout_nonce, request_fd, request_nonce}
use go_uring.Reactor.Registry.{CbRegistry, registry_pop}
use go_uring.Reactor.Net.{SubSqeRequest, queue_entries, forget, publish_request}

module _ {C : Type 0} {k : ℕ} {s : SqRing} (v : IsValid k s) (spec link_spec : ℕ)
    (req : SubSqeRequest) (reg : CbRegistry C) where
  abbrev pub popped : CbRegistry C
  popped = (registry_pop reg (request_fd req.user_data) (request_nonce req.user_data)).1

  forget-push :
      (e : SqEntry) (q : Pending)
      → forget (push (2 ^ k) e q).0 req.user_data reg
        ≡ (if ltb (total q) (2 ^ k) then reg else popped)
  unfolding forget
  forget-push e q = elim (Bool-cases (ltb (total q) (2 ^ k))) [
    | inl room ↦ rw room refl
    | inr full ↦ rw full refl
  ]

  queue_plain :
      is_zero req.timeout ≡ true
      → queue_entries spec link_spec req s ≡ queue_sqe spec req.op req.flags req.user_data s
  unfolding queue_entries
  queue_plain plain = rw plain refl

  -- A request without a timeout is queued behind all that is pending, and its callback stays; if
  -- the queue is full, nothing is queued and its callback is taken out of the registry.
  pub publish_request_plain :
      (e : SqEntry)
      → is_zero req.timeout ≡ true
      → entry_of spec req.op req.flags req.user_data zero_entry ≡ some e
      → let (q, s', reg') = publish_request spec link_spec req s reg in
        let room = ltb (total (pending (2 ^ k) s)) (2 ^ k) in
        IsValid k s'
        × ((q, pending (2 ^ k) s') ≡ push (2 ^ k) e (pending (2 ^ k) s))
        × (reg' ≡ (
            if room
            then reg
            else (registry_pop reg (request_fd req.user_data) (request_nonce req.user_data)).1))
  unfolding publish_request
  publish_request_plain e plain entry =
      let here = queue_sqe_refines v spec req.op req.flags req.user_data e entry in
      rw (queue_plain plain) (
        here.0,
        here.1,
        ap (λ (o : Queued × Pending). forget o.0 req.user_data reg) here.1
            ∙ forget-push e (pending (2 ^ k) s),
      )

  -- A request with a timeout: the linked entry, and the entry of the deadline behind it.
  module _ (e link : SqEntry) (timed : is_zero req.timeout ≡ false)
      (entry : entry_of spec req.op (bit_or req.flags sqe_io_link_flag) req.user_data zero_entry
        ≡ some e)
      (link_entry : entry_of link_spec (link_timeout req.timeout) 0 timeout_nonce zero_entry
        ≡ some link) where
    abbrev linked : Queued × SqRing
    linked = queue_sqe spec req.op (bit_or req.flags sqe_io_link_flag) req.user_data s

    abbrev with_entry : Pending
    with_entry = record (pending (2 ^ k) s) { prepared = (pending (2 ^ k) s).prepared ++ (e ∷ []) }

    total-with_entry : total with_entry ≡ total (pending (2 ^ k) s) + 1
    total-with_entry = omega (arith, length-append (pending (2 ^ k) s).prepared (e ∷ []))

    linked_lem :
        total (pending (2 ^ k) s) < 2 ^ k
        → IsValid k linked.1 × (linked.0 ≡ ok) × (pending (2 ^ k) linked.1 ≡ with_entry)
    linked_lem room =
        let here =
          queue_sqe_refines v spec req.op (bit_or req.flags sqe_io_link_flag) req.user_data e
            entry in
        let pushed : push (2 ^ k) e (pending (2 ^ k) s) ≡ (ok, with_entry) =
          rw (lt→ltb _ _ room) refl in
        (
          here.0,
          ap (λ (o : Queued × Pending). o.0) (here.1 ∙ pushed),
          ap (λ (o : Queued × Pending). o.1) (here.1 ∙ pushed),
        )

    queue_timed :
        linked.0 ≡ ok
        → queue_entries spec link_spec req s
          ≡ queue_sqe link_spec (link_timeout req.timeout) 0 timeout_nonce linked.1
    unfolding queue_entries
    queue_timed e = rw (timed, e) refl

    -- What both entries do to the queue when there is room for the first.
    timed_lem :
        total (pending (2 ^ k) s) < 2 ^ k
        → let (q, s', reg') = publish_request spec link_spec req s reg in
          IsValid k s'
          × ((q, pending (2 ^ k) s') ≡ push (2 ^ k) link with_entry)
          × (reg' ≡ (if ltb (total with_entry) (2 ^ k) then reg else popped))
    unfolding publish_request
    timed_lem room =
        let first = linked_lem room in
        let here =
          queue_sqe_refines first.0 link_spec (link_timeout req.timeout) 0 timeout_nonce link
            link_entry in
        let both = here.1 ∙ ap (push (2 ^ k) link) first.2 in
        rw (queue_timed first.1) (
          here.0,
          both,
          ap (λ (o : Queued × Pending). forget o.0 req.user_data reg) both
              ∙ forget-push link with_entry,
        )

    -- A request with a timeout, when two entries are free, is queued as a linked pair, the operation
    -- and then its deadline, behind all that is pending, and its callback stays.
    pub publish_request_deadline :
        total (pending (2 ^ k) s) + 2 ≤ 2 ^ k
        → let (q, s', reg') = publish_request spec link_spec req s reg in
          IsValid k s'
          × (q ≡ ok)
          × (pending (2 ^ k) s' ≡ record (pending (2 ^ k) s) {
            prepared = (pending (2 ^ k) s).prepared ++ (e ∷ link ∷ []);
          })
          × (reg' ≡ reg)
    publish_request_deadline room =
        let out = timed_lem (omega arith) in
        let free : ltb (total with_entry) (2 ^ k) ≡ true =
          lt→ltb _ _ (omega (arith, total-with_entry)) in
        let pushed : push (2 ^ k) link with_entry
            ≡ (ok, record with_entry { prepared = with_entry.prepared ++ (link ∷ []) }) =
          rw free refl in
        (
          out.0,
          ap (λ (o : Queued × Pending). o.0) (out.1 ∙ pushed),
          ap (λ (o : Queued × Pending). o.1) (out.1 ∙ pushed)
              ∙ ap (λ (l : List SqEntry). record (pending (2 ^ k) s) { prepared = l })
                  (append_assoc (pending (2 ^ k) s).prepared (e ∷ []) (link ∷ [])),
          out.2 ∙ rw free refl,
        )

    -- A request with a timeout, when just one entry is free: the operation is queued and stays
    -- queued, with its link flag, although the overflow is reported and its callback is taken out
    -- of the registry.
    pub publish_request_last_entry :
        total (pending (2 ^ k) s) + 1 ≡ 2 ^ k
        → let (q, s', reg') = publish_request spec link_spec req s reg in
          IsValid k s'
          × (q ≡ sq_overflow)
          × (pending (2 ^ k) s'
              ≡ record (pending (2 ^ k) s) { prepared = (pending (2 ^ k) s).prepared ++ (e ∷ []) })
          × (reg' ≡ (registry_pop reg (request_fd req.user_data) (request_nonce req.user_data)).1)
    publish_request_last_entry last =
        let out = timed_lem (omega arith) in
        let full : ltb (total with_entry) (2 ^ k) ≡ false = ground (arith, total-with_entry) in
        let pushed : push (2 ^ k) link with_entry ≡ (sq_overflow, with_entry) = rw full refl in
        (
          out.0,
          ap (λ (o : Queued × Pending). o.0) (out.1 ∙ pushed),
          ap (λ (o : Queued × Pending). o.1) (out.1 ∙ pushed),
          out.2 ∙ rw full refl,
        )

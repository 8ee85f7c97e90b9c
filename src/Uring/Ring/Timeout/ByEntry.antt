-- ===== src/Uring/Ring/Timeout/ByEntry.antt =====
-- WaitCQEventsWithTimeout without IORING_FEAT_EXT_ARG: the timeout is an entry of the queue.
use mathlib.Core.Option
use go_uring.Base.{
  ℕ, ◌-◌, ◌^◌, ◌<◌, ◌≡◌, refl, ap, ◌∙◌, Bool, true, false, Bool-cases, inl, inr, Option, none, some,
  [], ◌∷◌, ◌++◌, length-append, get_or, ltb, lt→ltb, ltb→lt, ◌%◌, arith, if◌then◌else◌,
}
use go_uring.Base.Int.{ℤ}
use go_uring.Uring.Entry.{SqEntry, zero_entry, to_u64, lib_user_data_timeout}
use go_uring.Uring.Operation.{timeout, prep_sqe}
use go_uring.Uring.Operation.Code.{number, timeout_code}
use go_uring.Uring.Params.{ext_arg_feature}
use go_uring.Base.Word.{u32_mod, add32}
use go_uring.Uring.Sq.{SqRing, Queued, ok, entry_of, next_sqe, flush_sq, queue_sqe}
use go_uring.Uring.Sq.Queue.{Pending, total, push, flush}
use go_uring.Uring.Sq.Inv.{IsValid, pending, total-pending}
use go_uring.Uring.Sq.Refine.Push.{queue_sqe_refines, next_sqe_cases}
use go_uring.Uring.Sq.Refine.Flush.{flush_sq_refines}
use go_uring.Uring.Ring.{Ring, Enter, Entered, Outcome, Got, get_cq_events, submit}
use go_uring.Uring.Ring.Timeout.{
  Waited, waited, overflow, store_timeout, wait_with_entry, retry, first_try,
  wait_cq_events_with_timeout,
}

timeout_queued :
    (spec : ℕ) (dur : ℤ) (s s' : SqRing) (slot : ℕ)
    → next_sqe s ≡ (some slot, s')
    → queue_sqe spec (timeout dur) 0 lib_user_data_timeout s ≡ (
      ok,
      store_timeout (prep_sqe spec (timeout dur) (get_or s'.sqe_buff slot zero_entry)) slot s',
    )
unfolding queue_sqe store_timeout prep_sqe entry_of
timeout_queued spec dur s s' slot e = rw e refl

-- The entry of the timeout: it completes after the time, or with the next completion.
abbrev pub timeout_entry : ℕ → SqEntry
timeout_entry spec = record zero_entry {
  op_code = number timeout_code;
  fd = u32_mod - 1;
  addr = to_u64 spec;
  len = 1;
  user_data = lib_user_data_timeout;
}

entry_of-timeout :
    (spec : ℕ) (dur : ℤ)
    → entry_of spec (timeout dur) 0 lib_user_data_timeout zero_entry ≡ some (timeout_entry spec)
unfolding entry_of prep_sqe
entry_of-timeout spec dur = refl

module _ {K : Type 0} (enter : Enter → K → Ring → Entered K) (fuel spec cnt : ℕ) (dur : ℤ)
    (j : ℕ) where
  -- The call waits as `WaitCQEvents` does, on a ring where all entries are visible to the kernel, the
  -- timeout behind all others, and has it submit that many.
  pub record WaitsByEntry (w : K) (r : Ring) (out : Option (Outcome K Waited)) : Type 0 where
    pub sq : SqRing
    pub valid : IsValid j sq
    pub visible :
        let q = pending (2 ^ j) r.sq_ring in
        pending (2 ^ j) sq ≡ record {
          submitted = q.submitted ++ (q.prepared ++ (timeout_entry spec ∷ []));
          prepared = [];
        }
    pub waits :
        out
        ≡ Option.map
            (λ (o : Outcome K Got). (waited o.0, o.1, o.2))
            (get_cq_events enter fuel
              (record { submit = total (pending (2 ^ j) sq); wait_nr = cnt; flags = 0 })
              w
              (record r { sq_ring = sq }))

  with_entry_lem :
      (w : K) (r : Ring) (slot : ℕ) (s' : SqRing)
      → next_sqe r.sq_ring ≡ (some slot, s')
      → IsValid j r.sq_ring
      → total (pending (2 ^ j) r.sq_ring) < 2 ^ j
      → WaitsByEntry w r
          (wait_with_entry enter fuel spec cnt dur (some slot) w (record r { sq_ring = s' }))
  unfolding wait_with_entry
  with_entry_lem w r slot s' e v room = record {
    sq = (flush_sq stored).1;
    valid = flushed.0;
    visible =
        ap (λ (o : ℕ × Pending). o.1) flushed.1
        ∙ ap (λ q. (flush q).1) (ap (λ (o : Queued × Pending). o.1) (queued.1 ∙ pushed));
    waits = ap waiting counted;
  }
    where
      stored : SqRing
      stored =
          store_timeout (prep_sqe spec (timeout dur) (get_or s'.sqe_buff slot zero_entry)) slot s'

      queued :
          IsValid j stored
          × (◌≡◌ {A = Queued × Pending}
              (ok, pending (2 ^ j) stored)
              (push (2 ^ j) (timeout_entry spec) (pending (2 ^ j) r.sq_ring)))
      queued = rw (timeout_queued spec dur r.sq_ring s' slot e) at (
          queue_sqe_refines v spec (timeout dur) 0 lib_user_data_timeout (timeout_entry spec)
            (entry_of-timeout spec dur))

      flushed :
          IsValid j (flush_sq stored).1
          × (((flush_sq stored).0, pending (2 ^ j) (flush_sq stored).1)
              ≡ flush (pending (2 ^ j) stored))
      flushed = flush_sq_refines queued.0

      pushed : push (2 ^ j) (timeout_entry spec) (pending (2 ^ j) r.sq_ring) ≡ (
        ok,
        record (pending (2 ^ j) r.sq_ring) {
          prepared = (pending (2 ^ j) r.sq_ring).prepared ++ (timeout_entry spec ∷ []);
        },
      )
      pushed = rw (lt→ltb _ _ room) refl

      counted : (flush_sq stored).0 ≡ total (pending (2 ^ j) (flush_sq stored).1)
      counted = omega (
        arith,
        ap (λ (o : ℕ × Pending). o.0) flushed.1,
        ap (λ (o : ℕ × Pending). total o.1) flushed.1,
        length-append (pending (2 ^ j) stored).submitted (pending (2 ^ j) stored).prepared,
      )

      waiting : ℕ → Option (Outcome K Waited)
      waiting n =
          Option.map (λ (o : Outcome K Got). (waited o.0, o.1, o.2))
            (get_cq_events enter fuel (record { submit = n; wait_nr = cnt; flags = 0 }) w
              (record r { sq_ring = (flush_sq stored).1 }))

  -- A free entry is taken, and otherwise the queue overflows.
  abbrev pub Tries : K → Ring → Option (Outcome K Waited) → Type 0
  Tries w r out =
      if ltb (total (pending (2 ^ j) r.sq_ring)) (2 ^ j)
      then WaitsByEntry w r out
      else (out ≡ some (overflow, w, r))

  -- After the `Submit` of a full queue: its error, or another try.
  abbrev pub TriesAgain : Outcome K (ℕ × Option ℕ) → Option (Outcome K Waited) → Type 0
  TriesAgain ((n, some e), w, r) out =
      out ≡ some (waited (record { cqe = none; err = some e }), w, r)
  TriesAgain ((n, none), w, r) out = Tries w r out

  abbrev room_in : SqRing → Bool
  room_in s = ltb (total (pending (2 ^ j) s)) (2 ^ j)

  next_sqe-free :
      (s : SqRing)
      → IsValid j s
      → room_in s ≡ true
      → next_sqe s ≡ (some (s.sqe_tail % 2 ^ j), record s { sqe_tail = add32 s.sqe_tail 1 })
  next_sqe-free s v h = ground (arith, next_sqe_cases v, total-pending j s)

  next_sqe-full : (s : SqRing) → IsValid j s → room_in s ≡ false → next_sqe s ≡ (none, s)
  next_sqe-full s v h = ground (arith, next_sqe_cases v, total-pending j s)

  tries_lem :
      (w : K) (r : Ring)
      → IsValid j r.sq_ring
      → let (slot, sq) = next_sqe r.sq_ring in
        Tries w r (wait_with_entry enter fuel spec cnt dur slot w (record r { sq_ring = sq }))
  unfolding wait_with_entry
  tries_lem w r v = elim (Bool-cases (room_in r.sq_ring)) [
    | inl free ↦
        let taken = next_sqe-free r.sq_ring v free in
        rw (free, taken)
          (with_entry_lem w r (r.sq_ring.sqe_tail % 2 ^ j)
            (record r.sq_ring { sqe_tail = add32 r.sq_ring.sqe_tail 1 }) taken v (ltb→lt _ _ free))
    | inr full ↦ rw (full, next_sqe-full r.sq_ring v full) refl
  ]

  retry_lem :
      (o : Outcome K (ℕ × Option ℕ))
      → IsValid j o.2.sq_ring
      → TriesAgain o (retry enter fuel spec cnt dur o)
  unfolding retry
  retry_lem ((n, some e), w, r) v = refl
  retry_lem ((n, none), w, r) v = tries_lem w r v

  -- Without IORING_FEAT_EXT_ARG, on a valid queue that `Submit` leaves valid, the call takes a free
  -- entry for the timeout, behind all others, makes all visible and waits. If there is none it
  -- submits first, and gives the error of that, or tries once more.
  pub wait_by_entry :
      (w : K) (r : Ring)
      → ext_arg_feature r.params ≡ false
      → IsValid j r.sq_ring
      → IsValid j (submit enter w r).2.sq_ring
      → let out = wait_cq_events_with_timeout enter fuel spec cnt dur w r in
        if ltb (total (pending (2 ^ j) r.sq_ring)) (2 ^ j)
        then WaitsByEntry w r out
        else TriesAgain (submit enter w r) out
  unfolding wait_cq_events_with_timeout first_try
  wait_by_entry w r old v v' = elim (Bool-cases (room_in r.sq_ring)) [
    | inl free ↦
        let taken = next_sqe-free r.sq_ring v free in
        rw (old, free, taken)
          (with_entry_lem w r (r.sq_ring.sqe_tail % 2 ^ j)
            (record r.sq_ring { sqe_tail = add32 r.sq_ring.sqe_tail 1 }) taken v (ltb→lt _ _ free))
    | inr full ↦ rw (old, full, next_sqe-full r.sq_ring v full) (retry_lem (submit enter w r) v')
  ]

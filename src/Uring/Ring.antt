-- ===== src/Uring/Ring.antt =====
-- uring/ring.go: the ring and its system call. The kernel is a parameter: io_uring_enter(2) is a
-- function on a state `K` of its own and on the memory of the ring.
pub mod Kernel
pub mod Submit
pub mod Rounds
pub mod Wait
pub mod Calls
pub mod Peek
pub mod Timeout
mod Tests
use mathlib.Core.Option
use go_uring.Base.{
  ℕ, zero, suc, ◌+◌, ◌-◌, ◌%◌, Bool, true, false, ◌&&◌, ◌||◌, not, Option, none, some, List, [],
  ◌∷◌, bit_and, bit_or, ltb, ◌==◌, if◌then◌else◌,
}
use go_uring.Base.Word.{u64_mod, sub32}
use go_uring.Base.Int.{ℤ}
use go_uring.Uring.Entry.{CqEvent, to_u32, lib_user_data_timeout}
use go_uring.Uring.Operation.{Operation}
use go_uring.Uring.Sq.{SqRing, Queued, flush_sq, cq_need_flush, queue_sqe, sq_need_wakeup}
use go_uring.Uring.Cq.{CqRing, Peeked, peek_cq_event, ready_count, peek_cq_event_batch, is_nil}
use go_uring.Uring.Params.{RingParams, ext_arg_feature, setup_sq_poll, setup_io_poll}

pub record Ring : Type 0 where
  pub fd : ℕ
  pub params : RingParams
  pub cq_ring : CqRing
  pub sq_ring : SqRing

-- Flags of io_uring_enter(2).
abbrev pub enter_get_events : ℕ
enter_get_events = 1

abbrev pub enter_sq_wakeup : ℕ
enter_sq_wakeup = 2

abbrev pub enter_ext_arg : ℕ
enter_ext_arg = 8

-- The arguments of the system call, less the pointer to the signal set or to the timeout.
pub record Enter : Type 0 where
  pub ring_fd : ℕ
  pub to_submit : ℕ
  pub min_complete : ℕ
  pub flags : ℕ

-- What the call returns: the count, the errno (0 for none), and the state it leaves.
pub record Entered (K : Type 0) : Type 0 where
  pub consumed : ℕ
  pub errno : ℕ
  pub world : K
  pub ring : Ring

-- EAGAIN, and the outcome of a call of the package: a value, or the errno that its error wraps.
abbrev pub eagain : ℕ
eagain = 11

-- `needsEnter`: whether a call is needed, and the flags.
unfoldable pub needs_enter : Ring → ℕ → Bool × ℕ
needs_enter r flags =
    if bit_and r.params.flags setup_sq_poll == 0
    then (true, flags)
    else (if not (bit_and r.sq_ring.k_flags sq_need_wakeup == 0)
        then (true, bit_or flags enter_sq_wakeup)
        else (false, flags))

-- `getParams`, less its pointers
pub record GetParams : Type 0 where
  pub submit : ℕ
  pub wait_nr : ℕ
  pub flags : ℕ

-- What `getCQEvents` returns: the completion and the error, either of which may be nil.
pub record Got : Type 0 where
  pub cqe : Option CqEvent
  pub err : Option ℕ

abbrev pub is_some {ℓ} : {A : Type ℓ} → Option A → Bool
is_some none = false
is_some (some a) = true

-- The decision of one round of `getCQEvents` after the peek: end with an error or without, or make
-- the system call with these flags.
pub data Round : Type 0 where
  stop : Got → Round
  call : (flags : ℕ) → Round

abbrev pub is_idle : GetParams → Peeked → Bool
is_idle p peeked = not (is_some peeked.cqe) && (p.wait_nr == 0 && p.submit == 0)

-- Completions are waited for, or an overflow is flushed.
abbrev pub gets_events : GetParams → Peeked → Bool
gets_events p peeked = ltb peeked.available p.wait_nr || is_idle p peeked

unfoldable pub call_flags : GetParams → Peeked → Ring → ℕ
unfolding needs_enter
call_flags p peeked r =
    let flags = if gets_events p peeked then bit_or enter_get_events p.flags else 0 in
    if p.submit == 0 then flags else (needs_enter r flags).1

unfoldable pub round : GetParams → Peeked → Ring → Round
unfolding cq_need_flush call_flags
round p peeked r =
    if not (is_nil peeked.err)
    then stop (record { cqe = peeked.cqe; err = peeked.err })
    else (if is_idle p peeked && not (cq_need_flush r.sq_ring)
        then stop (record { cqe = peeked.cqe; err = some eagain })
        else (if not (p.submit == 0) || gets_events p peeked
            then call (call_flags p peeked r)
            else stop (record { cqe = peeked.cqe; err = none })))

-- A result with the kernel's state and the ring.
abbrev pub Outcome : Type 0 → Type 0 → Type 0
Outcome K A = A × K × Ring

module _ {K : Type 0} (enter : Enter → K → Ring → Entered K) where
  -- `sysEnter2`: the count, or the errno.
  unfoldable pub sys_enter : Enter → K → Ring → Outcome K (ℕ × Option ℕ)
  sys_enter a w r =
      let e = enter a w r in
      if e.errno == 0
      then ((e.consumed, none), e.world, e.ring)
      else ((0, some e.errno), e.world, e.ring)

  -- `Submit`, and its part after the flush.
  unfoldable submit_flushed : ℕ → K → Ring → Outcome K (ℕ × Option ℕ)
  unfolding sys_enter needs_enter
  submit_flushed flushed w r =
      let (need, flags) = needs_enter r 0 in
      let polled =
        if bit_and r.params.flags setup_io_poll == 1
        then bit_or flags enter_get_events
        else flags in
      let done =
        sys_enter (record { ring_fd = r.fd; to_submit = flushed; min_complete = 0; flags = polled })
          w r in
      if need then done else ((flushed, none), w, r)

  unfoldable pub submit : K → Ring → Outcome K (ℕ × Option ℕ)
  unfolding submit_flushed flush_sq
  submit w r =
      let (flushed, sq) = flush_sq r.sq_ring in submit_flushed flushed w (record r { sq_ring = sq })

  -- What follows the call in a round: end on its error or if there was a completion, else go on.
  after_call :
      Option CqEvent
      → GetParams
      → Outcome K (ℕ × Option ℕ)
      → (GetParams → K → Ring → Option (Outcome K Got))
      → Option (Outcome K Got)
  after_call cqe p ((consumed, some e), w, r) again =
      some (record { cqe = cqe; err = some e }, w, r)
  after_call (some c) p ((consumed, none), w, r) again =
      some (record { cqe = some c; err = none }, w, r)
  after_call none p ((consumed, none), w, r) again =
      again (record p { submit = sub32 p.submit (to_u32 consumed) }) w r

  pub act :
      Round
      → Peeked
      → GetParams
      → K
      → Ring
      → (GetParams → K → Ring → Option (Outcome K Got))
      → Option (Outcome K Got)
  unfolding sys_enter after_call
  act (stop got) peeked p w r again = some (got, w, r)
  act (call flags) peeked p w r again =
      after_call peeked.cqe p
        (sys_enter
          (record { ring_fd = r.fd; to_submit = p.submit; min_complete = p.wait_nr; flags = flags })
          w r)
        again

  peek_then :
      Option (Peeked × CqRing)
      → GetParams
      → K
      → Ring
      → (GetParams → K → Ring → Option (Outcome K Got))
      → Option (Outcome K Got)
  unfolding act round
  peek_then none p w r again = none
  peek_then (some (peeked, cq)) p w r again =
      let r' = record r { cq_ring = cq } in act (round p peeked r') peeked p w r' again

  -- The loop of `getCQEvents`, with fuel; `none` when it runs out. The peek has fuel for all the
  -- completions that are ready.
  unfoldable pub get_cq_events : ℕ → GetParams → K → Ring → Option (Outcome K Got)
  unfolding peek_then peek_cq_event ready_count
  get_cq_events zero p w r = none
  get_cq_events (suc fuel) p w r =
      peek_then (peek_cq_event (suc (ready_count r.cq_ring)) (ext_arg_feature r.params) r.cq_ring) p
        w r (get_cq_events fuel)

  -- `WaitCQEvents`, `SubmitAndWaitCQEvents` and `PeekCQE`
  unfoldable pub wait_cq_events : ℕ → ℕ → K → Ring → Option (Outcome K Got)
  unfolding get_cq_events
  wait_cq_events fuel cnt w r =
      get_cq_events fuel (record { submit = 0; wait_nr = cnt; flags = 0 }) w r

  unfoldable pub submit_and_wait_cq_events : ℕ → ℕ → K → Ring → Option (Outcome K Got)
  unfolding get_cq_events flush_sq
  submit_and_wait_cq_events fuel cnt w r =
      let (flushed, sq) = flush_sq r.sq_ring in
      get_cq_events fuel (record { submit = flushed; wait_nr = cnt; flags = 0 }) w
        (record r { sq_ring = sq })

  unfoldable pub peek_cqe : ℕ → K → Ring → Option (Outcome K Got)
  unfolding wait_cq_events
  peek_cqe fuel w r = wait_cq_events fuel 0 w r

  -- `PeekCQEventBatch`: the count and the buffer. `peek_again` is what follows its flush of an
  -- overflow, `peek_batch` the choice after the first look.
  peek_again : List (Option CqEvent) → K → Ring → Option (Outcome K (ℕ × List (Option CqEvent)))
  unfolding peek_cq_event_batch
  peek_again buff w r = Option.map (λ out. (out, w, r)) (peek_cq_event_batch r.cq_ring buff)

  peek_batch :
      Option (ℕ × List (Option CqEvent))
      → List (Option CqEvent)
      → K
      → Ring
      → Option (Outcome K (ℕ × List (Option CqEvent)))
  unfolding peek_again sys_enter cq_need_flush
  peek_batch none buff w r = none
  peek_batch (some (n, out)) buff w r =
      let (_, w', r') =
        sys_enter
          (record { ring_fd = r.fd; to_submit = 0; min_complete = 0; flags = enter_get_events }) w
          r in
      let again = peek_again buff w' r' in
      if n == 0 && cq_need_flush r.sq_ring then again else some ((n, out), w, r)

  unfoldable pub peek_cq_event_batch_flush :
      List (Option CqEvent) → K → Ring → Option (Outcome K (ℕ × List (Option CqEvent)))
  unfolding peek_batch
  peek_cq_event_batch_flush buff w r = peek_batch (peek_cq_event_batch r.cq_ring buff) buff w r

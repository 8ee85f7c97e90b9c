-- ===== src/Uring/Ring/Timeout.antt =====
-- uring/ring.go, WaitCQEventsWithTimeout.
pub mod ByEntry
use mathlib.Core.Option
use go_uring.Base.{ℕ, ◌≤◌, ◌≡◌, true, Option, none, some, set, get_or, if◌then◌else◌, arith}
use go_uring.Base.Int.{ℤ}
use go_uring.Uring.Entry.{SqEntry, zero_entry, set_user_data, lib_user_data_timeout}
use go_uring.Uring.Operation.{timeout, prep_sqe}
use go_uring.Uring.Sq.{SqRing, next_sqe, flush_sq}
use go_uring.Uring.Cq.Inv.{IsValid}
use go_uring.Uring.Params.{ext_arg_feature}
use go_uring.Uring.Ring.{
  Ring, Enter, Entered, Outcome, Got, GetParams, submit, get_cq_events, enter_ext_arg,
}
use go_uring.Uring.Ring.Kernel.{Honours}
use go_uring.Uring.Ring.Rounds.{Delivers}
use go_uring.Uring.Ring.Wait.{get_cq_events_total}

-- The result of the wait, or `ErrSQOverflow`.
pub data Waited : Type 0 where
  waited : Got → Waited
  overflow : Waited

-- The entry of the timeout: `PrepSQE`, which does not panic, and the library's own user data.
store_timeout : Option SqEntry → ℕ → SqRing → SqRing
unfolding set_user_data
store_timeout none slot s = s
store_timeout (some sqe) slot s = record s {
  sqe_buff = set s.sqe_buff slot (set_user_data sqe lib_user_data_timeout);
}

module _ {K : Type 0} (enter : Enter → K → Ring → Entered K) (fuel spec cnt : ℕ) (dur : ℤ) where
  -- With an entry: the timeout is written there and flushed, and the wait begins.
  wait_with_entry : Option ℕ → K → Ring → Option (Outcome K Waited)
  unfolding store_timeout prep_sqe flush_sq get_cq_events
  wait_with_entry none w r = some (overflow, w, r)
  wait_with_entry (some slot) w r =
      let sqe = prep_sqe spec (timeout dur) (get_or r.sq_ring.sqe_buff slot zero_entry) in
      let (to_submit, sq) = flush_sq (store_timeout sqe slot r.sq_ring) in
      Option.map (λ (o : Outcome K Got). (waited o.0, o.1, o.2))
        (get_cq_events enter fuel (record { submit = to_submit; wait_nr = cnt; flags = 0 }) w
          (record r { sq_ring = sq }))

  -- What follows the `Submit` of a full queue: its error, or one more try.
  retry : Outcome K (ℕ × Option ℕ) → Option (Outcome K Waited)
  unfolding next_sqe wait_with_entry
  retry ((consumed, some e), w, r) = some (waited (record { cqe = none; err = some e }), w, r)
  retry ((consumed, none), w, r) =
      let (slot, sq) = next_sqe r.sq_ring in wait_with_entry slot w (record r { sq_ring = sq })

  first_try : Option ℕ → K → Ring → Option (Outcome K Waited)
  unfolding retry submit wait_with_entry
  first_try none w r = retry (submit enter w r)
  first_try (some slot) w r = wait_with_entry (some slot) w r

  -- `WaitCQEventsWithTimeout`
  unfoldable pub wait_cq_events_with_timeout : K → Ring → Option (Outcome K Waited)
  unfolding first_try next_sqe get_cq_events
  wait_cq_events_with_timeout w r =
      let by_argument =
        Option.map (λ (o : Outcome K Got). (waited o.0, o.1, o.2))
          (get_cq_events enter fuel (record { submit = 0; wait_nr = cnt; flags = enter_ext_arg }) w
            r) in
      let by_entry =
        let (slot, sq) = next_sqe r.sq_ring in first_try slot w (record r { sq_ring = sq }) in
      if ext_arg_feature r.params then by_argument else by_entry

-- The wait returned an error or the oldest completion, which stays in the queue.
abbrev pub Returns : {K : Type 0} → ℕ → Option (Outcome K Waited) → Type 0
Returns k none = ⊥
Returns k (some (waited got, w, r)) = Delivers k (some (got, w, r))
Returns k (some (overflow, w, r)) = ⊥

Delivers-Returns :
    {K : Type 0} (k : ℕ) (o : Option (Outcome K Got))
    → Delivers k o
    → Returns k (Option.map (λ (p : Outcome K Got). (waited p.0, p.1, p.2)) o)
Delivers-Returns k none d = d
Delivers-Returns k (some (got, w, r)) d = d

-- With IORING_FEAT_EXT_ARG and a kernel that does what io_uring_enter(2) documents,
-- `WaitCQEventsWithTimeout` returns within two rounds: with an error, such as that of the timeout, or
-- the oldest completion, which stays in the queue.
pub wait_cq_events_with_timeout_total :
    {K : Type 0} {k : ℕ} (enter : Enter → K → Ring → Entered K)
    → Honours k enter
    → (fuel spec cnt : ℕ) (dur : ℤ) (w : K) (r : Ring) → IsValid k r.cq_ring
    → ext_arg_feature r.params ≡ true
    → 2 ≤ fuel
    → Returns k (wait_cq_events_with_timeout enter fuel spec cnt dur w r)
unfolding wait_cq_events_with_timeout
wait_cq_events_with_timeout_total {K} {k} enter h fuel spec cnt dur w r v ext enough =
    let p : GetParams = record { submit = 0; wait_nr = cnt; flags = enter_ext_arg } in
    rw ext (
      Delivers-Returns k (get_cq_events enter fuel p w r)
        (get_cq_events_total enter h fuel p w r v ext (omega arith) (omega arith) enough))

-- ===== src/Uring/Ring/Tests.antt =====
-- Instances of the theorems on the ring, for a kernel that posts a completion in every call and
-- refuses to wait for more than one.
use native.Mathlib.Nat.{one-le-pow}
use go_uring.Base.{
  ◌-◌, ℕ, ◌+◌, ◌^◌, ◌<◌, ◌≡◌, refl, ◌∙◌, true, false, none, List, [], ◌∷◌, ◌++◌, length, ltb,
  if◌then◌else◌, Bool-cases, inl, inr, arith, length-append, append-nil, sym,
}
use go_uring.Base.Word.{u32_mod}
use go_uring.Uring.Entry.{CqEvent, zero_entry}
use go_uring.Uring.Cq.{CqRing, post}
use go_uring.Uring.Cq.Inv.{IsValid, ready}
use go_uring.Uring.Cq.Ready.{post_lem}
use go_uring.Uring.Params.{zero_params, ext_arg_feature}
use go_uring.Uring.Ring.{Ring, Enter, Entered, GetParams, get_cq_events}
use go_uring.Uring.Ring.Kernel.{Honours}
use go_uring.Uring.Ring.Rounds.{Delivers}
use go_uring.Uring.Sq.{flush_sq}
use go_uring.Uring.Sq.Inv.{IsValid as IsSqValid, pending}
use go_uring.Uring.Ring.{submit, sys_enter, submit_and_wait_cq_events}
use go_uring.Uring.Ring.Submit.{submit_lem, is_polled, call_of}
use go_uring.Uring.Ring.Calls.{submit_and_wait_cq_events_total}
use go_uring.Base.Int.{pos}
use go_uring.Uring.Ring.Timeout.{
  Returns, wait_cq_events_with_timeout, wait_cq_events_with_timeout_total,
}
use go_uring.Uring.Sq.Refine.Flush.{flush_sq_refines}
use go_uring.Uring.Ring.Timeout.ByEntry.{WaitsByEntry, wait_by_entry}
use go_uring.Uring.Ring.Wait.{get_cq_events_total}

abbrev event : CqEvent
event = record { user_data = 5; res = 3; flags = 0 }

abbrev enter : Enter → ℕ → Ring → Entered ℕ
enter a w r = record {
  consumed = a.to_submit;
  errno = if ltb 1 a.min_complete then 22 else 0;
  world = w + 1;
  ring = record r { cq_ring = post event r.cq_ring };
}

after_post :
    (k : ℕ) (c : CqRing)
    → IsValid k c
    → (new : List CqEvent) × (ready (2 ^ k) (post event c) ≡ ready (2 ^ k) c ++ new)
      × (0 < length (ready (2 ^ k) (post event c)))
after_post k c v = elim (Bool-cases (ltb (length (ready (2 ^ k) c)) (2 ^ k))) [
  | inl free ↦
      let e : ready (2 ^ k) (post event c) ≡ ready (2 ^ k) c ++ (event ∷ []) =
        (post_lem v event).1 ∙ rw free refl in
      (event ∷ [], e, rw (e, length-append (ready (2 ^ k) c) (event ∷ [])) (omega arith))
  | inr full ↦
      let e : ready (2 ^ k) (post event c) ≡ ready (2 ^ k) c =
        (post_lem v event).1 ∙ rw full refl in
      (
        [],
        e ∙ sym (append-nil (ready (2 ^ k) c)),
        rw e (ground (arith, full, one-le-pow k 2 (omega arith))),
      )
]

enter-Honours : (k : ℕ) → Honours k enter
enter-Honours k = record {
  keeps_valid = λ a w r v. (post_lem v event).0;
  grows = λ a w r v. ((after_post k r.cq_ring v).0, (after_post k r.cq_ring v).1);
  keeps_params = λ a w r. refl;
  completes = λ a w r v fine none_left waits. ground (arith, (after_post k r.cq_ring v).2);
  flushes = λ a w r v fine none_left waits overflow. (after_post k r.cq_ring v).2;
  consumes = λ a w r fine some_left queued. (some_left, omega arith, omega arith);
}

abbrev idle : Ring
idle = record {
  fd = 3;
  params = record zero_params { features = 2 ^ 8 };
  cq_ring = record {
    k_head = u32_mod - 1;
    k_tail = u32_mod - 1;
    k_ring_mask = 1;
    k_ring_entries = 2;
    k_overflow = 0;
    cqes = event ∷ event ∷ [];
  };
  sq_ring = record {
    k_head = 0;
    k_tail = 1;
    k_ring_mask = 1;
    k_ring_entries = 2;
    k_flags = 0;
    k_array = 0 ∷ 1 ∷ [];
    sqe_buff = zero_entry ∷ zero_entry ∷ [];
    sqe_tail = 1;
    sqe_head = 1;
  };
}

idle-IsValid : IsValid 1 idle.cq_ring
idle-IsValid = omega arith

idle_ext : ext_arg_feature idle.params ≡ true
unfolding ext_arg_feature
idle_ext = refl

abbrev waiting : GetParams
waiting = record { submit = 1; wait_nr = 1; flags = 0 }

get_cq_events_total_example : Delivers 1 (get_cq_events enter 3 waiting 0 idle)
get_cq_events_total_example =
    get_cq_events_total enter (enter-Honours 1) 3 waiting 0 idle idle-IsValid idle_ext (omega arith)
      (omega arith) (omega arith)

idle-IsSqValid : IsSqValid 1 idle.sq_ring
idle-IsSqValid = record {
  small = omega arith;
  entries = refl;
  mask = refl;
  array_room = omega arith;
  buff_room = omega arith;
  head_word = omega arith;
  tail_word = omega arith;
  sqe_tail_word = omega arith;
  aligned = refl;
  room = omega arith;
  named = refl;
}

submit_and_wait_cq_events_total_example : Delivers 1 (submit_and_wait_cq_events enter 4 1 0 idle)
submit_and_wait_cq_events_total_example =
    submit_and_wait_cq_events_total enter (enter-Honours 1) 0 idle idle-IsValid idle_ext 1 4 1
      idle-IsSqValid (omega arith)

submit_lem_example :
    let r' = record idle { sq_ring = (flush_sq idle.sq_ring).1 } in
    (submit enter 0 idle
      ≡ (if is_polled r' then ((1, none), 0, r') else sys_enter enter (call_of enter 1 r') 0 r'))
    × (pending 2 r'.sq_ring ≡ record { submitted = zero_entry ∷ []; prepared = [] })
submit_lem_example = submit_lem enter 1 0 idle idle-IsSqValid

wait_cq_events_with_timeout_total_example :
    Returns 1 (wait_cq_events_with_timeout enter 2 0 1 (pos 1000) 0 idle)
wait_cq_events_with_timeout_total_example =
    wait_cq_events_with_timeout_total enter (enter-Honours 1) 2 0 1 (pos 1000) 0 idle idle-IsValid
      idle_ext (omega arith)

-- A kernel without IORING_FEAT_EXT_ARG; one entry of two is free.
abbrev old : Ring
old = record idle { params = zero_params }

old_lacks : ext_arg_feature old.params ≡ false
unfolding ext_arg_feature
old_lacks = refl

old_submitted : IsSqValid 1 (submit enter 0 old).2.sq_ring
unfolding submit sys_enter
old_submitted = (flush_sq_refines idle-IsSqValid).0

wait_by_entry_example :
    WaitsByEntry enter 3 48 1
      (pos 1000)
      1
      0
      old
      (wait_cq_events_with_timeout enter 3 48 1 (pos 1000) 0 old)
wait_by_entry_example =
    wait_by_entry enter 3 48 1 (pos 1000) 1 0 old old_lacks idle-IsSqValid old_submitted

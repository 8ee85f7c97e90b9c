-- ===== src/Uring/Cq/Tests.antt =====
-- Runs and instances: two completions round the end of the buffer, the first one a timeout of the
-- library's own.
use go_uring.Base.{◌-◌, ◌≡◌, refl, [], ◌∷◌, false, none, some, arith}
use go_uring.Base.Word.{u32_mod}
use go_uring.Uring.Entry.{CqEvent, zero_event, lib_user_data_timeout, event_error}
use go_uring.Uring.Cq.{CqRing, peek_cq_event, advance_cq}
use go_uring.Uring.Cq.Inv.{IsValid, ready}
use go_uring.Uring.Cq.Ready.{advance_cq_lem}
use go_uring.Uring.Cq.Peek.{peek_list, Peeks, peek_cq_event_refines}

abbrev own_timeout : CqEvent
own_timeout = record zero_event { user_data = lib_user_data_timeout }

abbrev other : CqEvent
other = record { user_data = 5; res = 3; flags = 0 }

abbrev two : CqRing
two = record {
  k_head = u32_mod - 1;
  k_tail = 1;
  k_ring_mask = 1;
  k_ring_entries = 2;
  k_overflow = 0;
  cqes = other ∷ own_timeout ∷ [];
}

two-IsValid : IsValid 1 two
two-IsValid = omega arith

ready-two : ready 2 two ≡ own_timeout ∷ other ∷ []
ready-two = refl

peek_skips :
    peek_cq_event 3 false two
    ≡ some (record { available = 1; cqe = some other; err = none }, record two { k_head = 0 })
unfolding peek_cq_event event_error
peek_skips = refl

peek_cq_event_refines_example : Peeks 1 (peek_list false (ready 2 two)) (peek_cq_event 3 false two)
peek_cq_event_refines_example = peek_cq_event_refines 1 3 false two two-IsValid (omega arith)

advance_cq_lem_example : IsValid 1 (advance_cq 1 two) × (ready 2 (advance_cq 1 two) ≡ other ∷ [])
advance_cq_lem_example = advance_cq_lem two-IsValid 1 (omega arith)

-- ===== src/Uring/Sq/Tests.antt =====
-- Runs and instances: a ring of two entries whose positions wrap at 2^32.
use go_uring.Base.{◌+◌, ◌-◌, ◌%◌, ◌≡◌, ◌≢◌, ◌<◌, refl, List, [], ◌∷◌, some, arith}
use go_uring.Base.Word.{u32_mod}
use go_uring.Uring.Entry.{SqEntry, zero_entry}
use go_uring.Uring.Operation.{close, prep_sqe}
use go_uring.Uring.Sq.{SqRing, ok, sq_overflow, next_sqe, entry_of, queue_sqe, flush_sq, consume}
use go_uring.Uring.Sq.Queue.{push, flush, take_oldest}
use go_uring.Uring.Sq.Inv.{IsValid, pending}
use go_uring.Uring.Sq.Refine.Push.{next_sqe_free, queue_sqe_refines}
use go_uring.Uring.Sq.Refine.Flush.{flush_sq_refines}
use go_uring.Uring.Sq.Refine.Consume.{consume_refines}
use go_uring.Uring.Sq.Runs.{
  Call, queues, flushes, consumes, queued, flushed, consumed, run, run_queue, run_refines,
  HasEntries,
}

-- One entry is visible, at the last position before the wrap.
abbrev wrapped : SqRing
wrapped = record {
  k_head = u32_mod - 1;
  k_tail = 0;
  k_ring_mask = 1;
  k_ring_entries = 2;
  k_flags = 0;
  k_array = 0 ∷ 1 ∷ [];
  sqe_buff = zero_entry ∷ record zero_entry { user_data = 7 } ∷ [];
  sqe_tail = 0;
  sqe_head = 0;
}

wrapped-IsValid : IsValid 1 wrapped
wrapped-IsValid = record {
  small = omega arith;
  entries = refl;
  mask = refl;
  array_room = omega arith;
  buff_room = omega arith;
  head_word = omega arith;
  tail_word = omega arith;
  sqe_tail_word = omega arith;
  aligned = refl;
  room = omega arith;
  named = refl;
}

abbrev closing : SqEntry
closing = record zero_entry { op_code = 19; flags = 4; fd = 9; user_data = 5 }

entry_of-closing : entry_of 0 (close 9) 4 5 zero_entry ≡ some closing
unfolding entry_of prep_sqe
entry_of-closing = refl

-- Two entries fit; the third is refused until the kernel has consumed one.
abbrev script : List Call
script =
    queues 0 (close 9) 4 5
    ∷ queues 0 (close 9) 4 5
    ∷ flushes
    ∷ consumes
    ∷ queues 0 (close 9) 4 5
    ∷ []

run-script :
    (run script wrapped).0 ≡ queued ok ∷ queued sq_overflow ∷ flushed 2 ∷ consumed ∷ queued ok ∷ []
unfolding run queue_sqe entry_of prep_sqe flush_sq consume
run-script = refl

script-HasEntries : HasEntries script
script-HasEntries =
    ((closing, entry_of-closing), ((closing, entry_of-closing), ((closing, entry_of-closing), tt)))

run_refines_example :
    ((run script wrapped).0, pending 2 (run script wrapped).1)
    ≡ run_queue 2 script (pending 2 wrapped)
run_refines_example = run_refines 1 script wrapped wrapped-IsValid script-HasEntries

queue_sqe_refines_example :
    IsValid 1 (queue_sqe 0 (close 9) 4 5 wrapped).1
    × (((queue_sqe 0 (close 9) 4 5 wrapped).0, pending 2 (queue_sqe 0 (close 9) 4 5 wrapped).1)
        ≡ push 2 closing (pending 2 wrapped))
queue_sqe_refines_example =
    queue_sqe_refines wrapped-IsValid 0 (close 9) 4 5 closing entry_of-closing

next_sqe_free_example :
    (0 < 2)
    × (0 ≢ (u32_mod - 1 + 0) % 2)
    × (record wrapped { sqe_tail = 1 } ≡ record wrapped { sqe_tail = 1 })
unfolding next_sqe
next_sqe_free_example =
    next_sqe_free wrapped-IsValid 0 0 (record wrapped { sqe_tail = 1 }) refl (omega arith)

abbrev prepared_one : SqRing
prepared_one = record wrapped {
  sqe_tail = 1;
  sqe_buff = closing ∷ record zero_entry { user_data = 7 } ∷ [];
}

prepared_one-IsValid : IsValid 1 prepared_one
prepared_one-IsValid = record {
  small = omega arith;
  entries = refl;
  mask = refl;
  array_room = omega arith;
  buff_room = omega arith;
  head_word = omega arith;
  tail_word = omega arith;
  sqe_tail_word = omega arith;
  aligned = refl;
  room = omega arith;
  named = refl;
}

flush_sq_refines_example :
    IsValid 1 (flush_sq prepared_one).1
    × (((flush_sq prepared_one).0, pending 2 (flush_sq prepared_one).1)
        ≡ flush (pending 2 prepared_one))
flush_sq_refines_example = flush_sq_refines prepared_one-IsValid

consume_refines_example :
    IsValid 1 (consume wrapped) × (pending 2 (consume wrapped) ≡ take_oldest (pending 2 wrapped))
consume_refines_example = consume_refines wrapped-IsValid

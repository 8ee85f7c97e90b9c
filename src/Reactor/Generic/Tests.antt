-- ===== src/Reactor/Generic/Tests.antt =====
-- Instances: requests with and without a timeout on a loop with a ring of two entries.
use go_uring.Base.{
  ℕ, ◌+◌, ◌-◌, ◌^◌, ◌≡◌, refl, Option, none, some, List, [], ◌∷◌, arith, get_or, length,
}
use go_uring.Base.Int.{ℤ, pos}
use go_uring.Base.Word.{u32_mod}
use go_uring.Uring.Entry.{SqEntry, CqEvent, zero_entry}
use go_uring.Uring.Operation.{accept, link_timeout, prep_sqe}
use go_uring.Uring.Sq.{SqRing, Queued, ok, entry_of, queue_sqe}
use go_uring.Uring.Sq.Inv.{IsValid, pending}
use go_uring.Uring.Params.{zero_params}
use go_uring.Uring.Ring.{Ring}
use go_uring.Reactor.RequestId.{timeout_nonce}
use go_uring.Reactor.Registry.{update}
use go_uring.Reactor.Net.{SubSqeRequest}
use go_uring.Reactor.Generic.{
  RingEventLoop, Reactor, loop_queue, deliver_nonces, reactor_queue, loop_for_nonce,
}
use go_uring.Reactor.Nonce.{next_nonce}
use go_uring.Reactor.Generic.Answer.{keeps, delivers, run_loop_calls, reactor_queue_answered}
use go_uring.Reactor.Generic.Queue.{loop_queue_last_entry}

abbrev ring : Ring
ring = record {
  fd = 3;
  params = record zero_params { features = 2 ^ 8 + 2 ^ 5 };
  cq_ring = record {
    k_head = 0;
    k_tail = 0;
    k_ring_mask = 1;
    k_ring_entries = 2;
    k_overflow = 0;
    cqes = [];
  };
  sq_ring = record {
    k_head = u32_mod - 1;
    k_tail = u32_mod - 1;
    k_ring_mask = 1;
    k_ring_entries = 2;
    k_flags = 0;
    k_array = 0 ∷ 1 ∷ [];
    sqe_buff = zero_entry ∷ zero_entry ∷ [];
    sqe_tail = u32_mod - 1;
    sqe_head = u32_mod - 1;
  };
}

abbrev callbacks : ℕ → Option ℕ
callbacks nonce = none

abbrev idle : RingEventLoop ℕ
idle = record { ring = ring; callbacks = callbacks; need_submit = 0 }

empty-IsValid : IsValid 1 ring.sq_ring
empty-IsValid = record {
  small = omega arith;
  entries = refl;
  mask = refl;
  array_room = omega arith;
  buff_room = omega arith;
  head_word = omega arith;
  tail_word = omega arith;
  sqe_tail_word = omega arith;
  aligned = refl;
  room = omega arith;
  named = refl;
}

abbrev one_left : SqRing
one_left = record ring.sq_ring { sqe_tail = 0 }

one_left-IsValid : IsValid 1 one_left
one_left-IsValid = record {
  small = omega arith;
  entries = refl;
  mask = refl;
  array_room = omega arith;
  buff_room = omega arith;
  head_word = omega arith;
  tail_word = omega arith;
  sqe_tail_word = omega arith;
  aligned = refl;
  room = omega arith;
  named = refl;
}

abbrev request : ℤ → SubSqeRequest
request timeout = record { op = accept 80 0 64 32; flags = 0; user_data = 7; timeout = timeout }

abbrev accept_entry : ℕ → SqEntry
accept_entry flags = record zero_entry {
  op_code = 13;
  flags = flags;
  fd = 80;
  addr = 64;
  off = 32;
  user_data = 7;
}

abbrev deadline_entry : SqEntry
deadline_entry = record zero_entry {
  op_code = 15;
  fd = u32_mod - 1;
  addr = 48;
  len = 1;
  user_data = timeout_nonce;
}

entry_of-accept :
    (flags : ℕ) → entry_of 0 (accept 80 0 64 32) flags 7 zero_entry ≡ some (accept_entry flags)
unfolding entry_of prep_sqe
entry_of-accept flags = refl

entry_of-deadline :
    entry_of 48 (link_timeout (pos 9)) 0 timeout_nonce zero_entry ≡ some deadline_entry
unfolding entry_of prep_sqe
entry_of-deadline = refl

abbrev almost_full : RingEventLoop ℕ
almost_full = record idle { ring = record ring { sq_ring = one_left } }

loop_queue_last_entry_example :
    let (q, loop) = loop_queue 0 48 (request (pos 9)) (some 6) almost_full in
    IsValid 1 loop.ring.sq_ring
    × (q ≡ ok)
    × (pending 2 loop.ring.sq_ring
        ≡ record { submitted = []; prepared = zero_entry ∷ accept_entry 4 ∷ [] })
    × (loop.callbacks ≡ update callbacks 7 (some 6))
loop_queue_last_entry_example =
    loop_queue_last_entry almost_full one_left-IsValid 0 48 (request (pos 9)) (some 6)
      (accept_entry 4) deadline_entry refl (entry_of-accept 4) entry_of-deadline refl

-- A batch: the completion of a deadline, and that of an operation.
abbrev batch : List CqEvent
batch =
    record { user_data = timeout_nonce; res = 0; flags = 0 }
    ∷ record { user_data = 7; res = 1; flags = 0 }
    ∷ []

-- A reactor of two such loops, whose next nonce is 5.
abbrev two_loops : Reactor ℕ
two_loops = record { loops = idle ∷ idle ∷ []; current_nonce = 4 }

abbrev after_queue : Option (ℕ × Queued × Reactor ℕ) → Reactor ℕ
after_queue (some (nonce, q, r)) = r
after_queue none = two_loops

abbrev queued_reactor : Reactor ℕ
queued_reactor = after_queue (reactor_queue 0 0 idle (accept 80 0 64 32) (some 6) (pos 0) two_loops)

queued_ok :
    reactor_queue 0 0 idle (accept 80 0 64 32) (some 6) (pos 0) two_loops
    ≡ some (5, ok, queued_reactor)
unfolding reactor_queue queue_sqe entry_of prep_sqe next_nonce
queued_ok = refl

reactor_queue_answered_example :
    (deliver_nonces (record { user_data = 5; res = 9; flags = 0 } ∷ []) (
      run_loop_calls
        (keeps 7 (some 8) ∷ delivers (record { user_data = 7; res = 1; flags = 0 } ∷ []) ∷ [])
        (get_or queued_reactor.loops
          (loop_for_nonce (length queued_reactor.loops) 5)
          idle).callbacks)).0
    ≡ (some 6, record { user_data = 5; res = 9; flags = 0 }) ∷ []
reactor_queue_answered_example =
    reactor_queue_answered idle two_loops (omega arith) (omega arith) (accept 80 0 64 32) (some 6)
      (pos 0) 0 0 5 queued_reactor
      (keeps 7 (some 8) ∷ delivers (record { user_data = 7; res = 1; flags = 0 } ∷ []) ∷ [])
      (record { user_data = 5; res = 9; flags = 0 }) queued_ok refl refl

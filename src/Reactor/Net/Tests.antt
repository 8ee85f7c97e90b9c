-- ===== src/Reactor/Net/Tests.antt =====
-- Instances: a reactor of two loops, the requests of an accepting socket, and their completions.
use go_uring.Base.{
  map, ℕ, ◌+◌, ◌-◌, ◌^◌, ◌≡◌, ◌≢◌, ◌↔◌, ◌<◌, refl, none, some, List, [], ◌∷◌, length, arith,
  if◌then◌else◌, ◌==◌,
}
use go_uring.Base.Int.{ℤ, pos}
use go_uring.Base.Word.{u32_mod}
use go_uring.Uring.Entry.{SqEntry, CqEvent, zero_entry}
use go_uring.Uring.Operation.{accept, link_timeout, prep_sqe}
use go_uring.Uring.Sq.{SqRing, ok, sq_overflow, entry_of}
use go_uring.Uring.Sq.Inv.{IsValid, pending}
use go_uring.Uring.Params.{zero_params, ext_arg_feature, fast_poll_feature}
use go_uring.Uring.Ring.{Ring}
use go_uring.Reactor.RequestId.{timeout_nonce, cancel_nonce, request_fd, request_nonce}
use go_uring.Reactor.Registry.{new_cb_registry, registry_pop}
use go_uring.Reactor.Registry.Lookup.{lookup}
use go_uring.Reactor.Registry.Pending.{adds, pops, run_calls}
use go_uring.Reactor.Net.{
  NetOperation, net_accept, operation_of, SubSqeRequest, RingNetEventLoop, NetworkReactor, queue,
  publish_request, deliver, new_net, net_fd, fd_per_granule, loop_for_fd,
}
use go_uring.Reactor.Net.New.{HasFeatures, new_net_lem}
use go_uring.Reactor.Net.Queue.{IsReactor, buss_of, queue_lem}
use go_uring.Reactor.Net.Publish.{publish_request_deadline, publish_request_last_entry}
use go_uring.Reactor.Net.Answer.{queue_answered}

abbrev ring : Ring
ring = record {
  fd = 3;
  params = record zero_params { features = 2 ^ 8 + 2 ^ 5 };
  cq_ring = record {
    k_head = 0;
    k_tail = 0;
    k_ring_mask = 1;
    k_ring_entries = 2;
    k_overflow = 0;
    cqes = [];
  };
  sq_ring = record {
    k_head = u32_mod - 1;
    k_tail = u32_mod - 1;
    k_ring_mask = 1;
    k_ring_entries = 2;
    k_flags = 0;
    k_array = 0 ∷ 1 ∷ [];
    sqe_buff = zero_entry ∷ zero_entry ∷ [];
    sqe_tail = u32_mod - 1;
    sqe_head = u32_mod - 1;
  };
}

abbrev idle : RingNetEventLoop
idle = record { ring = ring; req_buss = []; submit_allowed = 0 }

abbrev reactor : NetworkReactor ℕ
reactor = record { loops = idle ∷ idle ∷ []; registry = new_cb_registry 2 fd_per_granule }

reactor-made : new_net (ring ∷ ring ∷ []) ≡ some reactor
unfolding new_net ext_arg_feature fast_poll_feature
reactor-made = refl

two_rings : 0 < 2
two_rings = omega arith

new_net_lem_example :
    (((r : NetworkReactor ℕ) × (new_net (ring ∷ ring ∷ []) ≡ some r))
      ↔ HasFeatures (ring ∷ ring ∷ []))
    × ((r : NetworkReactor ℕ) (fd n : ℕ)
        → new_net (ring ∷ ring ∷ []) ≡ some r
        → IsReactor r
          × (length r.loops ≡ 2)
          × (lookup r.registry fd n ≡ none)
          × (map (λ (l : RingNetEventLoop). l.ring) r.loops ≡ ring ∷ ring ∷ []))
new_net_lem_example = new_net_lem (ring ∷ ring ∷ []) two_rings

reactor-IsReactor : IsReactor reactor
reactor-IsReactor = ((new_net_lem (ring ∷ ring ∷ []) two_rings).1 reactor 0 0 reactor-made).0

-- Socket 80 belongs to the second loop.
abbrev accepting : NetOperation
accepting = net_accept 80 0 64 32

abbrev queued : ℕ × NetworkReactor ℕ
queued = queue idle accepting 6 (pos 0) reactor

queue_lem_example :
    IsReactor queued.1
    × (lookup queued.1.registry (request_fd queued.0) (request_nonce queued.0) ≡ some 6)
    × ((queued.0 ≢ timeout_nonce) × (queued.0 ≢ cancel_nonce))
    × (buss_of idle queued.1.loops 1 ≡ (
        if loop_for_fd 2 80 == 1
        then record { op = accept 80 0 64 32; flags = 0; user_data = queued.0; timeout = pos 0 }
          ∷ []
        else []))
unfolding operation_of net_fd
queue_lem_example = queue_lem idle reactor reactor-IsReactor accepting 6 (pos 0) (omega arith) 1

queue_answered_example :
    (deliver
      (record { user_data = queued.0; res = 9; flags = 0 } ∷ [])
      (run_calls (adds 80 7 ∷ pops 3 1 ∷ []) queued.1.registry)).0
    ≡ (some 6, record { user_data = queued.0; res = 9; flags = 0 }) ∷ []
unfolding net_fd
queue_answered_example =
    queue_answered idle reactor reactor-IsReactor accepting 6 (pos 0) (omega arith)
      (adds 80 7 ∷ pops 3 1 ∷ []) (record { user_data = queued.0; res = 9; flags = 0 }) refl
      (omega arith) refl

-- A batch: the completion of a deadline, and that of an id that nothing waits for.
abbrev batch : List CqEvent
batch =
    record { user_data = timeout_nonce; res = 0; flags = 0 }
    ∷ record { user_data = 4; res = 1; flags = 0 }
    ∷ []

-- Requests with and without a timeout, on a ring of two entries.
empty-IsValid : IsValid 1 ring.sq_ring
empty-IsValid = record {
  small = omega arith;
  entries = refl;
  mask = refl;
  array_room = omega arith;
  buff_room = omega arith;
  head_word = omega arith;
  tail_word = omega arith;
  sqe_tail_word = omega arith;
  aligned = refl;
  room = omega arith;
  named = refl;
}

abbrev one_left : SqRing
one_left = record ring.sq_ring { sqe_tail = 0 }

one_left-IsValid : IsValid 1 one_left
one_left-IsValid = record {
  small = omega arith;
  entries = refl;
  mask = refl;
  array_room = omega arith;
  buff_room = omega arith;
  head_word = omega arith;
  tail_word = omega arith;
  sqe_tail_word = omega arith;
  aligned = refl;
  room = omega arith;
  named = refl;
}

abbrev request : ℤ → SubSqeRequest
request timeout = record { op = accept 80 0 64 32; flags = 0; user_data = 7; timeout = timeout }

abbrev accept_entry : ℕ → SqEntry
accept_entry flags = record zero_entry {
  op_code = 13;
  flags = flags;
  fd = 80;
  addr = 64;
  off = 32;
  user_data = 7;
}

abbrev deadline_entry : SqEntry
deadline_entry = record zero_entry {
  op_code = 15;
  fd = u32_mod - 1;
  addr = 48;
  len = 1;
  user_data = timeout_nonce;
}

entry_of-accept :
    (flags : ℕ) → entry_of 0 (accept 80 0 64 32) flags 7 zero_entry ≡ some (accept_entry flags)
unfolding entry_of prep_sqe
entry_of-accept flags = refl

entry_of-deadline :
    entry_of 48 (link_timeout (pos 9)) 0 timeout_nonce zero_entry ≡ some deadline_entry
unfolding entry_of prep_sqe
entry_of-deadline = refl

publish_request_deadline_example :
    let (q, s', reg') = publish_request 0 48 (request (pos 9)) ring.sq_ring reactor.registry in
    IsValid 1 s'
    × (q ≡ ok)
    × (pending 2 s' ≡ record { submitted = []; prepared = accept_entry 4 ∷ deadline_entry ∷ [] })
    × (reg' ≡ reactor.registry)
publish_request_deadline_example =
    publish_request_deadline empty-IsValid 0 48 (request (pos 9)) reactor.registry (accept_entry 4)
      deadline_entry refl (entry_of-accept 4) entry_of-deadline (omega arith)

publish_request_last_entry_example :
    let (q, s', reg') = publish_request 0 48 (request (pos 9)) one_left reactor.registry in
    IsValid 1 s'
    × (q ≡ sq_overflow)
    × (pending 2 s' ≡ record { submitted = []; prepared = zero_entry ∷ accept_entry 4 ∷ [] })
    × (reg' ≡ (registry_pop reactor.registry (request_fd 7) (request_nonce 7)).1)
publish_request_last_entry_example =
    publish_request_last_entry one_left-IsValid 0 48 (request (pos 9)) reactor.registry
      (accept_entry 4) deadline_entry refl (entry_of-accept 4) entry_of-deadline refl

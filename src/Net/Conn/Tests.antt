-- ===== src/Net/Conn/Tests.antt =====
-- Instances: a connection with descriptor 80 on a reactor of two loops.
use go_uring.Base.{ℕ, ◌+◌, ◌^◌, ◌≡◌, refl, some, [], ◌∷◌, ◌++◌, arith, if◌then◌else◌, ◌==◌}
use go_uring.Base.Int.{pos}
use go_uring.Uring.Entry.{CqEvent, zero_entry}
use go_uring.Uring.Operation.{Slice, cancel}
use go_uring.Uring.Params.{zero_params, ext_arg_feature, fast_poll_feature}
use go_uring.Uring.Ring.{Ring}
use go_uring.Reactor.RequestId.{cancel_nonce}
use go_uring.Reactor.Registry.{new_cb_registry}
use go_uring.Reactor.Registry.Pending.{adds, pops, run_calls}
use go_uring.Reactor.Net.{
  RingNetEventLoop, NetworkReactor, deliver, new_net, fd_per_granule, loop_for_fd,
}
use go_uring.Reactor.Net.Loop.{publisher_request}
use go_uring.Reactor.Net.Loop.Published.{Published}
use go_uring.Uring.Sq.Inv.{IsValid}
use go_uring.Net.Conn.Reaches.{op_entry, own_loop, op-Published}
use go_uring.Reactor.Net.New.{new_net_lem}
use go_uring.Reactor.Net.Queue.{IsReactor, buss_of}
use go_uring.Net.Conn.{
  Conn, Waiter, reader, writer, new_conn, read_op, write_op, eof, unexpected_eof, finish_read,
  finish_write,
}
use go_uring.Net.Conn.Finish.{Outcome, finish_read_lem}
use go_uring.Net.Conn.Answer.{
  reading, writing, start_op, set_op_deadline, op_answered, set_deadline_past,
}

abbrev ring : Ring
ring = record {
  fd = 3;
  params = record zero_params { features = 2 ^ 8 + 2 ^ 5 };
  cq_ring = record {
    k_head = 0;
    k_tail = 0;
    k_ring_mask = 1;
    k_ring_entries = 2;
    k_overflow = 0;
    cqes = [];
  };
  sq_ring = record {
    k_head = 0;
    k_tail = 0;
    k_ring_mask = 1;
    k_ring_entries = 2;
    k_flags = 0;
    k_array = 0 ∷ 1 ∷ [];
    sqe_buff = zero_entry ∷ zero_entry ∷ [];
    sqe_tail = 0;
    sqe_head = 0;
  };
}

abbrev idle : RingNetEventLoop
idle = record { ring = ring; req_buss = []; submit_allowed = 0 }

abbrev reactor : NetworkReactor Waiter
reactor = record { loops = idle ∷ idle ∷ []; registry = new_cb_registry 2 fd_per_granule }

reactor-made : new_net (ring ∷ ring ∷ []) ≡ some reactor
unfolding new_net ext_arg_feature fast_poll_feature
reactor-made = refl

reactor-IsReactor : IsReactor reactor
reactor-IsReactor = ((new_net_lem (ring ∷ ring ∷ []) (omega arith)).1 reactor 0 0 reactor-made).0

abbrev conn : Conn ℕ
conn = record (new_conn 80 1 2) { read_deadline = some 500 }

abbrev buffer : Slice
buffer = record { base = 4096; len = 10 }

abbrev result : ℕ → CqEvent
result res = record { user_data = 7; res = res; flags = 0 }

finish_read_lem_example :
    Outcome read_op eof conn (result 10) (finish_read conn (result 10))
    × Outcome write_op unexpected_eof conn (result 10) (finish_write conn (result 10))
finish_read_lem_example = finish_read_lem conn (result 10)

abbrev started : Conn ℕ × NetworkReactor Waiter
started = start_op writing idle 100 buffer conn reactor

op_answered_example :
    (deliver
      (record { user_data = started.0.last_write_op_id; res = 10; flags = 0 } ∷ [])
      (run_calls (adds 80 (reader 80) ∷ pops 3 1 ∷ []) started.1.registry)).0
    ≡ (some (writer 80), record { user_data = started.0.last_write_op_id; res = 10; flags = 0 })
      ∷ []
unfolding new_conn
op_answered_example =
    op_answered idle reactor reactor-IsReactor 100 buffer conn (omega arith) writing
      (adds 80 (reader 80) ∷ pops 3 1 ∷ [])
      (record { user_data = started.0.last_write_op_id; res = 10; flags = 0 }) refl (omega arith)
      refl

abbrev reads : Conn ℕ × NetworkReactor Waiter
reads = start_op reading idle 100 buffer conn reactor

set_deadline_past_example :
    buss_of idle (set_op_deadline reading idle 100 (some 99) reads.0 reads.1).1.loops 1 ≡ (
      if loop_for_fd 2 80 == 1
      then buss_of idle reads.1.loops 1
        ++ (record {
          op = cancel 0 reads.0.last_read_op_id;
          flags = 0;
          user_data = cancel_nonce;
          timeout = pos 0;
        }
            ∷ [])
      else buss_of idle reads.1.loops 1)
unfolding new_conn
set_deadline_past_example =
    set_deadline_past idle reactor reactor-IsReactor 100 buffer conn (omega arith) reading 99 1
      (omega arith)

empty-IsValid : IsValid 1 ring.sq_ring
empty-IsValid = record {
  small = omega arith;
  entries = refl;
  mask = refl;
  array_room = omega arith;
  buff_room = omega arith;
  head_word = omega arith;
  tail_word = omega arith;
  sqe_tail_word = omega arith;
  aligned = refl;
  room = omega arith;
  named = refl;
}

op-Published_example :
    Published 1
      (op_entry writing conn buffer started.0.last_write_op_id)
      []
      idle
      started.1.registry
      (publisher_request 0 0 (own_loop idle conn started.1) started.1.registry)
unfolding new_conn loop_for_fd
op-Published_example =
    op-Published idle reactor reactor-IsReactor 100 buffer conn 0 writing 1 refl (omega arith) refl
      (empty-IsValid, omega arith)

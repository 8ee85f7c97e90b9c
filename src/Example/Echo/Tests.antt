-- ===== src/Example/Echo/Tests.antt =====
-- Runs and instances: a server on descriptor 3, and a kernel that notes which connections are shut
-- down.
use go_uring.Base.{
  false, take, none, some, ◌==◌, if◌then◌else◌, ℕ, ◌+◌, ◌*◌, ◌^◌, ◌≤◌, ◌<◌, ◌≡◌, refl, ap, inl, ◌-◌,
  List, [], ◌∷◌, set, replicate, length-replicate, arith,
}
use go_uring.Uring.Entry.{CqEvent, zero_entry, zero_event}
use go_uring.Uring.Params.{zero_params, feat_fast_poll}
use go_uring.Uring.Operation.{send, recv, prep_sqe}
use go_uring.Uring.Sq.{SqRing, cq_need_flush, flush_sq, consume, queue_sqe, entry_of}
use go_uring.Uring.Sq.Inv.{IsValid, pending}
use go_uring.Uring.Cq.{post}
use go_uring.Uring.Cq.Ready.{post_lem}
use go_uring.Uring.Cq.Inv.{IsValid as IsCqValid, ready}
use go_uring.Uring.Ring.{Ring, Enter, Entered, submit, wait_cq_events}
use go_uring.Uring.Params.{fast_poll_feature, ext_arg_feature, has_flag}
use go_uring.Uring.Sq.Queue.{Pending}
use go_uring.Example.Echo.{
  accepting, backlog, max_conns, running, panicked, Server, make_conns, add_accept, queue_op,
  start_server,
}
use go_uring.Example.Echo.Flights.{All, occ}
use go_uring.Example.Echo.Table.{Matches, typ_of}
use go_uring.Example.Echo.Queue.{accept_entry}
use go_uring.Example.Echo.System.{System, queue, in_flight}
use go_uring.Example.Echo.Handle.{handled}
use go_uring.Example.Echo.Serve.{Serves}
use go_uring.Example.Echo.Steps.{moved, posts, with_sq, Reach, start, next, submits, takes}
use go_uring.Example.Echo.Round.{Plausible, Handles, echo_round, rounds}
use go_uring.Example.Echo.Reach.{echo-Serves, echo_in_flight, echo_accept_panics}

abbrev empty_sq : SqRing
empty_sq = record {
  k_head = 0;
  k_tail = 0;
  k_ring_mask = 4095;
  k_ring_entries = 4096;
  k_flags = 0;
  k_array = replicate 4096 0;
  sqe_buff = replicate 4096 zero_entry;
  sqe_tail = 0;
  sqe_head = 0;
}

abbrev empty_ring : Ring
empty_ring = record {
  fd = 5;
  params = record zero_params { features = feat_fast_poll };
  cq_ring = record {
    k_head = 0;
    k_tail = 0;
    k_ring_mask = 8191;
    k_ring_entries = 8192;
    k_overflow = 0;
    cqes = replicate 8192 zero_event;
  };
  sq_ring = empty_sq;
}

empty_sq-IsValid : IsValid 12 empty_sq
empty_sq-IsValid = record {
  small = omega arith;
  entries = refl;
  mask = refl;
  array_room = omega (arith, length-replicate {A = ℕ} 4096 0);
  buff_room = omega (arith, length-replicate 4096 zero_entry);
  head_word = omega arith;
  tail_word = omega arith;
  sqe_tail_word = omega arith;
  aligned = refl;
  room = omega arith;
  named = refl;
}

empty_sq-pending : pending max_conns empty_sq ≡ record { submitted = []; prepared = [] }
empty_sq-pending = refl

-- The kernel's state is the list of the connections that were shut down.
abbrev note_closed : ℕ → List ℕ → List ℕ
note_closed fd closed = fd ∷ closed

abbrev address : ℕ → ℕ
address i = 65536 + i * 2048

abbrev started : Server (List ℕ)
started = record {
  conns = set make_conns 3 (record {
    fd = 3;
    typ = accepting;
    send_op = send 3 (record { base = 0; len = 0 }) 0;
    recv_op = recv 3 (record { base = 0; len = 0 }) 0;
  });
  ring = record empty_ring {
    sq_ring = record empty_sq {
      sqe_buff = set (replicate 4096 zero_entry) 0 (accept_entry 3 100 200);
      sqe_tail = 1;
    };
  };
  world = [];
}

started_lem : start_server {K = List ℕ} 3 100 200 empty_ring [] ≡ running started
unfolding start_server fast_poll_feature has_flag add_accept queue_op queue_sqe entry_of prep_sqe
    make_conns
started_lem = refl

-- The accept is submitted, and the kernel takes it.
abbrev submitted : Server (List ℕ)
submitted = with_sq started (flush_sq started.ring.sq_ring).1

abbrev accepting_state : System (List ℕ)
accepting_state = record {
  server = with_sq submitted (consume submitted.ring.sq_ring);
  taken = accept_entry 3 100 200 ∷ [];
}

accept-visible : (queue submitted).submitted ≡ accept_entry 3 100 200 ∷ []
unfolding flush_sq
accept-visible = refl

accepting_state-Reach : Reach note_closed address 3 100 200 empty_ring [] accepting_state
accepting_state-Reach =
    next (next (start started started_lem) submits)
      (takes (accept_entry 3 100 200) [] accept-visible)

nothing_left : queue accepting_state.server ≡ record { submitted = []; prepared = [] }
unfolding flush_sq consume
nothing_left = refl

abbrev accepted : ℕ → CqEvent
accepted res = record { user_data = 3; res = res; flags = 0 }

none_on : (fd : ℕ) → 3 < fd → in_flight fd accepting_state ≡ 0
none_on fd h = ground (
  arith,
  ap (λ (q : Pending). occ fd q.submitted) nothing_left,
  ap (λ (q : Pending). occ fd q.prepared) nothing_left,
)

echo-Serves_example :
    Serves note_closed address 3 100 200 accepting 3 7 accepting_state.server []
      (handled note_closed address 3 100 200 (accepted 7) accepting_state.server)
unfolding typ_of
echo-Serves_example =
    echo-Serves note_closed address 3 100 200 (omega arith) empty_ring [] empty_sq-IsValid
      empty_sq-pending accepting_state [] [] (accept_entry 3 100 200) (accepted 7)
      accepting_state-Reach refl refl (omega arith, none_on 7 (omega arith))

echo_in_flight_example :
    (in_flight 3 accepting_state ≤ 1)
    × All (Matches 3 accepting_state.server.conns) (queue accepting_state.server).submitted
    × All (Matches 3 accepting_state.server.conns) (queue accepting_state.server).prepared
    × All (Matches 3 accepting_state.server.conns) accepting_state.taken
echo_in_flight_example =
    echo_in_flight note_closed address 3 100 200 (omega arith) empty_ring [] empty_sq-IsValid
      empty_sq-pending accepting_state 3 accepting_state-Reach

-- EMFILE: no descriptor is left.
echo_accept_panics_example :
    handled note_closed address 3 100 200 (accepted (2 ^ 32 - 24)) accepting_state.server ≡ panicked
unfolding typ_of
echo_accept_panics_example =
    echo_accept_panics note_closed address 3 100 200 (omega arith) empty_ring [] empty_sq-IsValid
      empty_sq-pending accepting_state [] [] (accept_entry 3 100 200) (accepted (2 ^ 32 - 24))
      accepting_state-Reach refl refl refl (inl refl)

-- A kernel that takes what is submitted, and accepts descriptor 7 when it is waited for.
abbrev accepts : Enter → List ℕ → Ring → Entered (List ℕ)
accepts a w r = record {
  consumed = 1;
  errno = 0;
  world = w;
  ring =
      (if a.to_submit == 0
        then record r { cq_ring = post (accepted 7) r.cq_ring }
        else record r { sq_ring = consume r.sq_ring });
}

abbrev waited_state : System (List ℕ)
waited_state = record accepting_state {
  server = moved (post (accepted 7) empty_ring.cq_ring) 0 [] accepting_state.server;
}

waited_state-Reach : Reach note_closed address 3 100 200 empty_ring [] waited_state
waited_state-Reach = next accepting_state-Reach (posts (post (accepted 7) empty_ring.cq_ring) 0 [])

empty_cq-IsValid : IsCqValid 13 empty_ring.cq_ring
empty_cq-IsValid = record {
  small = omega arith;
  entries = refl;
  mask = refl;
  memory = omega (arith, length-replicate 8192 zero_event);
  head_word = omega arith;
  tail_word = omega arith;
  room = omega arith;
}

waited_cq-IsValid : IsCqValid 13 waited_state.server.ring.cq_ring
waited_cq-IsValid = (post_lem empty_cq-IsValid (accepted 7)).0

calm : cq_need_flush waited_state.server.ring.sq_ring ≡ false
unfolding cq_need_flush
calm = refl

waited-Plausible :
    Plausible note_closed address 3 100 200 accepts
      (take backlog (ready (2 ^ 13) waited_state.server.ring.cq_ring))
      waited_state
unfolding typ_of post
waited-Plausible = (
  [],
  [],
  accept_entry 3 100 200,
  refl,
  refl,
  (omega arith, none_on 7 (omega arith)),
  λ after runs. tt,
)

submits_accept : submit accepts [] started.ring ≡ ((1, none), [], accepting_state.server.ring)
unfolding submit
submits_accept = refl

waits_accept :
    wait_cq_events accepts 2 1 [] accepting_state.server.ring
    ≡ some (record { cqe = some (accepted 7); err = none }, [], waited_state.server.ring)
unfolding wait_cq_events flush_sq consume post ext_arg_feature
waits_accept = refl

echo_round_example :
    (sys' : System (List ℕ)) × Handles note_closed address 3 100 200 accepts
      (take backlog (ready (2 ^ 13) waited_state.server.ring.cq_ring))
      waited_state
      sys'
    × Reach note_closed address 3 100 200 empty_ring [] sys'
    × (rounds note_closed address 3 100 200 accepts 2 started ≡ some (running sys'.server))
echo_round_example =
    echo_round note_closed address 3 100 200 accepts (omega arith) empty_ring [] empty_sq-IsValid
      empty_sq-pending 2 13 1 started [] accepting_state.server.ring
      (record { cqe = some (accepted 7); err = none }) waited_state submits_accept waits_accept refl
      refl waited_cq-IsValid calm waited_state-Reach waited-Plausible

-- ===== src/Example/Start/Tests.antt =====
-- Instances: two rings on kernels with and without the features that the reactor needs.
use go_uring.Base.{ℕ, ◌/◌, ◌+◌, ◌≡◌, refl, inr, List, [], ◌∷◌, none, map, length, arith}
use go_uring.Base.Int.{pos}
use go_uring.Uring.Params.{
  apply_options, single_mmap_feature, feat_single_mmap, feat_fast_poll, feat_ext_arg,
  ext_arg_feature, fast_poll_feature,
}
use go_uring.Uring.Sq.{SqRing}
use go_uring.Uring.Cq.{CqRing}
use go_uring.Uring.Setup.{alloc_ring, new_ring}
use go_uring.Uring.Setup.Instance.{World, os, os_with, start, os-Tracks, os_with-KeepsParams}
use go_uring.Uring.CreateMany.{RingHandle, Made, Created, created, create_many, created_of}
use go_uring.Uring.CreateMany.Pools.{IsPools}
use go_uring.Reactor.Net.{
  NetworkReactor, RingNetEventLoop, new_net, new_ring_net_event_loop, fd_per_granule,
}
use go_uring.Reactor.Net.New.{HasFeatures}
use go_uring.Reactor.Net.Queue.{IsReactor}
use go_uring.Reactor.Registry.{new_cb_registry}
use go_uring.Net.Conn.{Waiter}
use go_uring.Net.Listener.{Sockets, Listener, new_listener}
use go_uring.Example.Start.{no_features, started, ring_at, start_net, ring_srv}
use go_uring.Example.Start.Rings.{start_net_lem, ring_srv-closes}

abbrev sockets : Sockets ℕ World
sockets = record {
  socket = λ w. (inr w.next_fd, w);
  set_opt = λ fd opt w. (none, w);
  bind = λ fd addr w. (none, w);
  listen = λ fd backlog w. (none, w);
  close = λ fd w. (none, w);
}

abbrev in_order : List RingHandle → List RingHandle
in_order rs = rs

abbrev no_queues : RingHandle → SqRing × CqRing
no_queues r = (
  record {
    k_head = 0;
    k_tail = 0;
    k_ring_mask = 0;
    k_ring_entries = 1;
    k_flags = 0;
    k_array = 0 ∷ [];
    sqe_buff = [];
    sqe_tail = 0;
    sqe_head = 0;
  },
  record { k_head = 0; k_tail = 0; k_ring_mask = 0; k_ring_entries = 1; k_overflow = 0; cqes = [] },
)

abbrev features : ℕ
features = feat_single_mmap + feat_fast_poll + feat_ext_arg

abbrev two : Made
two = made_of (create_many (os_with features) in_order 8 [] 2 1 (start 9)).0
  where
    made_of : Created → Made
    made_of (created st) = st
    made_of c = record { defers = []; rings = [] }

abbrev reactor : NetworkReactor Waiter
reactor = record {
  loops = map new_ring_net_event_loop (map (ring_at no_queues) two.rings);
  registry = new_cb_registry 2 fd_per_granule;
}

abbrev listener : Listener ℕ
listener = record { keep_alive_period = pos 0; sock_fd = 5; addr = 8080 }

two_started :
    (start_net (os_with features) sockets in_order no_queues 8080 8 [] 2 1 (start 9)).0
    ≡ started reactor listener
unfolding start_net create_many new_ring alloc_ring apply_options single_mmap_feature created_of
    new_net new_listener ext_arg_feature fast_poll_feature new_cb_registry new_ring_net_event_loop
two_started = refl

start_net_lem_example :
    (st : Made) × ((create_many (os_with features) in_order 8 [] 2 1 (start 9)).0 ≡ created st)
    × IsPools (2 / 1) 1 st.rings
    × HasFeatures (map (ring_at no_queues) st.rings)
    × IsReactor reactor
    × (map (λ (l : RingNetEventLoop). l.ring) reactor.loops ≡ map (ring_at no_queues) st.rings)
    × (length reactor.loops ≡ 2)
start_net_lem_example =
    start_net_lem (os_with features) sockets in_order no_queues 8080 8 [] 2 1 (start 9) reactor
      listener (os_with-KeepsParams features) (omega arith) two_started

-- Without IORING_FEAT_EXT_ARG.
lacking : (ring_srv os sockets in_order no_queues 8080 2 (start 9)).0 ≡ no_features
unfolding ring_srv start_net create_many new_ring alloc_ring apply_options single_mmap_feature
    created_of new_net ext_arg_feature fast_poll_feature
lacking = refl

ring_srv-closes_example :
    (ring_srv os sockets in_order no_queues 8080 2 (start 9)).1.is_open ≡ (start 9).is_open
ring_srv-closes_example =
    ring_srv-closes os sockets in_order no_queues 8080 os-Tracks (λ rs x. refl) 2 (start 9) lacking

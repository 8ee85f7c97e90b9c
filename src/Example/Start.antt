-- ===== src/Example/Start.antt =====
-- How the two servers on the package `net` start: example/echo-server-multi-thread/main.go and
-- ringSrv of example/http-server/main.go.
pub mod Rings
mod Tests
use go_uring.Base.{ℕ, ◌^◌, ◌⊎◌, inl, inr, List, [], ◌∷◌, Option, none, some, map}
use go_uring.Base.Int.{pos}
use go_uring.Uring.Params.{SetupOption, with_sq_poll}
use go_uring.Uring.Sq.{SqRing}
use go_uring.Uring.Cq.{CqRing}
use go_uring.Uring.Ring.{Ring}
use go_uring.Uring.Setup.{Os}
use go_uring.Uring.CreateMany.{RingHandle, Made, Created, created, create_many, close_all}
use go_uring.Reactor.Net.{NetworkReactor, new_net}
use go_uring.Net.Conn.{Waiter}
use go_uring.Net.Listener.{Sockets, Listener, new_listener}

-- The flag `mode`: "default", "uring-sq-poll", "uring", or another text.
pub data Mode : Type 0 where
  mode_default mode_uring_sq_poll mode_uring mode_unknown : Mode

-- What a start comes to: the failing call, or the reactor with the listener on it.
pub data Started (A : Type 0) : Type 0 where
  rings_failed : Created → Started A
  no_features : Started A
  no_listener : (errno : ℕ) → Started A
  started : NetworkReactor Waiter → Listener A → Started A

-- The multi-thread server runs on Go's own listener, on rings, or ends at once.
pub data Backend (A : Type 0) : Type 0 where
  go_listener fatal_mode : Backend A
  on_rings : Started A → Backend A

-- The queues of a ring are what its pointers point to.
abbrev pub ring_at : (RingHandle → SqRing × CqRing) → RingHandle → Ring
ring_at queues r = record {
  fd = r.fd;
  params = r.params;
  cq_ring = (queues r).1;
  sq_ring = (queues r).0;
}

module _ {K A : Type 0} (os : Os K) (sockets : Sockets A K)
    (order : List RingHandle → List RingHandle) (queues : RingHandle → SqRing × CqRing)
    (addr : A) where
  listen_with : (ℕ ⊎ Listener A) × K → NetworkReactor Waiter → Started A × K
  listen_with (inl e, w) r = (no_listener e, w)
  listen_with (inr l, w) r = (started r l, w)

  -- `NewNet` on the rings, and `NewListener` on its reactor.
  serve_rings : Option (NetworkReactor Waiter) → K → Started A × K
  unfolding listen_with new_listener
  serve_rings none w = (no_features, w)
  serve_rings (some r) w = listen_with (new_listener sockets (pos 0) addr w) r

  unfoldable pub on_created : Created × K → Started A × K
  unfolding serve_rings new_net
  on_created (created st, w) = serve_rings (new_net (map (ring_at queues) st.rings)) w
  on_created (c, w) = (rings_failed c, w)

  -- `CreateMany`, `NewNet`, `NewListener`
  unfoldable pub start_net :
      (entries : ℕ) → List SetupOption → (count wp_count : ℕ) → K → Started A × K
  unfolding on_created create_many
  start_net entries opts count wp_count w =
      on_created (create_many os order entries opts count wp_count w)

  -- `main` of the multi-thread server up to its loop; `uring.MaxEntries>>3` is 2^12. `log.Fatal` runs
  -- no deferred call.
  unfoldable pub threads_main : Mode → (ring_count wp_count : ℕ) → K → Backend A × K
  unfolding start_net
  threads_main mode_default ring_count wp_count w = (go_listener, w)
  threads_main mode_unknown ring_count wp_count w = (fatal_mode, w)
  threads_main mode_uring_sq_poll ring_count wp_count w =
      let (out, w') = start_net (2 ^ 12) (with_sq_poll 100 ∷ []) ring_count wp_count w in
      (on_rings out, w')
  threads_main mode_uring ring_count wp_count w =
      let (out, w') = start_net (2 ^ 12) [] ring_count wp_count w in (on_rings out, w')

  -- The deferred `stop` of `ringSrv`, which a panic runs, closes the rings if there are any.
  stop_after : Created → Started A × K → Started A × K
  unfolding close_all
  stop_after (created st) (started r l, w) = (started r l, w)
  stop_after (created st) (out, w) = (out, (close_all os order (2 ^ 13) st w).1)
  stop_after c (out, w) = (out, w)

  -- `ringSrv` up to `Serve`; `uring.MaxEntries>>2` is 2^13.
  unfoldable pub ring_srv : (ring_count : ℕ) → K → Started A × K
  unfolding stop_after on_created create_many
  ring_srv ring_count w =
      let (made, w') = create_many os order (2 ^ 13) [] ring_count 1 w in
      stop_after made (on_created (made, w'))

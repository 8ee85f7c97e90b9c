-- ===== src/Example/Start/Rings.antt =====
-- What a started server runs on, and that a panic leaves no ring open.
use go_uring.Base.{
  ℕ, ◌/◌, ◌<◌, ◌^◌, ◌≡◌, ◌≢◌, refl, ap, ◌∙◌, ◌⊎◌, inl, inr, List, [], Option, none, some, map,
  length, length-map, arith, Bool,
}
use go_uring.Base.Int.{pos}
use go_uring.Uring.Params.{SetupOption}
use go_uring.Uring.Sq.{SqRing}
use go_uring.Uring.Cq.{CqRing}
use go_uring.Uring.Setup.{Os}
use go_uring.Uring.Setup.Memory.{Tracks}
use go_uring.Uring.Setup.Made.{KeepsParams}
use go_uring.Uring.CreateMany.{
  RingHandle, Made, Created, panicked, not_enough, not_multiple, ring_failed, created, create_many,
  close_all,
}
use go_uring.Uring.CreateMany.Opened.{has_fd}
use go_uring.Uring.CreateMany.Pools.{IsPools}
use go_uring.Uring.CreateMany.Count.{create_many-IsPools}
use go_uring.Uring.CreateMany.Closed.{create_many-close_all}
use go_uring.Reactor.Net.{NetworkReactor, RingNetEventLoop, new_net}
use go_uring.Reactor.Net.Queue.{IsReactor}
use go_uring.Reactor.Net.New.{HasFeatures, new_net_lem}
use go_uring.Net.Conn.{Waiter}
use go_uring.Net.Listener.{Sockets, Listener, new_listener}
use go_uring.Example.Start.{
  rings_failed, no_features, started, ring_at, listen_with, serve_rings, on_created, start_net,
  stop_after, ring_srv,
}

module _ {K A : Type 0} (os : Os K) (sockets : Sockets A K)
    (order : List RingHandle → List RingHandle) (queues : RingHandle → SqRing × CqRing)
    (addr : A) where
  listen_with-started :
      (out : (ℕ ⊎ Listener A) × K) (r r' : NetworkReactor Waiter) (l : Listener A)
      → (listen_with os sockets order queues addr out r).0 ≡ started r' l
      → r ≡ r'
  unfolding listen_with
  listen_with-started (inl e, w) r r' l h = cc
  listen_with-started (inr m, w) r r' l h = cc

  serve_rings-started :
      (m : Option (NetworkReactor Waiter)) (w : K) (r : NetworkReactor Waiter) (l : Listener A)
      → (serve_rings os sockets order queues addr m w).0 ≡ started r l
      → m ≡ some r
  unfolding serve_rings
  serve_rings-started none w r l h = cc
  serve_rings-started (some r') w r l h =
      ap some (listen_with-started (new_listener sockets (pos 0) addr w) r' r l h)

  on_created-started :
      (out : Created × K) (r : NetworkReactor Waiter) (l : Listener A)
      → (on_created os sockets order queues addr out).0 ≡ started r l
      → (st : Made) × (out.0 ≡ created st) × (new_net (map (ring_at queues) st.rings) ≡ some r)
  unfolding on_created
  on_created-started (panicked, w) r l h =
      absurd (let no : rings_failed panicked ≡ started r l = h in cc)
  on_created-started (not_enough, w) r l h =
      absurd (let no : rings_failed not_enough ≡ started r l = h in cc)
  on_created-started (not_multiple, w) r l h =
      absurd (let no : rings_failed not_multiple ≡ started r l = h in cc)
  on_created-started (ring_failed e, w) r l h =
      absurd (let no : rings_failed (ring_failed e) ≡ started r l = h in cc)
  on_created-started (created st, w) r l h =
      (st, refl, serve_rings-started (new_net (map (ring_at queues) st.rings)) w r l h)

  -- A server that has started on at least one ring has as many loops as it was asked for rings, the
  -- i-th on the i-th ring that CreateMany made in its pools, with the features that the reactor
  -- needs, and its reactor is valid.
  pub start_net_lem :
      (entries : ℕ) (opts : List SetupOption) (count wp_count : ℕ) (w : K)
      (r : NetworkReactor Waiter) (l : Listener A)
      → KeepsParams os
      → 0 < count
      → (start_net os sockets order queues addr entries opts count wp_count w).0 ≡ started r l
      → (st : Made) × ((create_many os order entries opts count wp_count w).0 ≡ created st)
        × IsPools (count / wp_count) wp_count st.rings
        × HasFeatures (map (ring_at queues) st.rings)
        × IsReactor r
        × (map (λ (l : RingNetEventLoop). l.ring) r.loops ≡ map (ring_at queues) st.rings)
        × (length r.loops ≡ count)
  unfolding start_net
  start_net_lem entries opts count wp_count w r l keeps some_ring h =
      let (st, is, made) =
        on_created-started (create_many os order entries opts count wp_count w) r l h in
      let pools = create_many-IsPools os keeps order entries opts count wp_count w st is in
      let rings = map (ring_at queues) st.rings in
      let net = new_net_lem rings (omega (arith, pools.1, length-map (ring_at queues) st.rings)) in
      let valid = net.1 r 0 0 made in
      (
        st,
        is,
        pools.0,
        net.0.0 (r, made),
        valid.0,
        valid.3,
        valid.1 ∙ length-map (ring_at queues) st.rings ∙ pools.1,
      )

  -- What the deferred `stop` leaves open, if it closes all that was created.
  module _ (open_after : K → Type 0) where
    stop_listening :
        (st : Made) (out : (ℕ ⊎ Listener A) × K) (r : NetworkReactor Waiter)
        → (stop_after os sockets order queues addr
            (created st)
            (listen_with os sockets order queues addr out r)).0
          ≢ no_features
    unfolding stop_after listen_with
    stop_listening st (inl e, w) r = λ h. cc
    stop_listening st (inr l, w) r = λ h. cc

    stop_serving :
        (st : Made) (m : Option (NetworkReactor Waiter)) (w : K)
        → open_after (close_all os order (2 ^ 13) st w).1
        → let out =
            stop_after os sockets order queues addr
              (created st)
              (serve_rings os sockets order queues addr m w) in
          out.0 ≡ no_features → open_after out.1
    unfolding stop_after serve_rings
    stop_serving st none w closed h = closed
    stop_serving st (some r) w closed h =
        absurd (stop_listening st (new_listener sockets (pos 0) addr w) r h)

    stop_created :
        (made : Created) (w : K)
        → ((st : Made) → made ≡ created st → open_after (close_all os order (2 ^ 13) st w).1)
        → let out =
            stop_after os sockets order queues addr made
              (on_created os sockets order queues addr (made, w)) in
          out.0 ≡ no_features → open_after out.1
    unfolding stop_after on_created
    stop_created panicked w closed h =
        absurd (let no : rings_failed panicked ≡ no_features = h in cc)
    stop_created not_enough w closed h =
        absurd (let no : rings_failed not_enough ≡ no_features = h in cc)
    stop_created not_multiple w closed h =
        absurd (let no : rings_failed not_multiple ≡ no_features = h in cc)
    stop_created (ring_failed e) w closed h =
        absurd (let no : rings_failed (ring_failed e) ≡ no_features = h in cc)
    stop_created (created st) w closed h =
        stop_serving st (new_net (map (ring_at queues) st.rings)) w (closed st refl) h

  -- When the kernel lacks a feature, the HTTP server panics with every ring closed that it had made,
  -- and nothing else.
  pub ring_srv-closes :
      {mapped opened : K → ℕ → Bool}
      → Tracks os mapped opened
      → ((rs : List RingHandle) (x : ℕ) → has_fd x (order rs) ≡ has_fd x rs)
      → (ring_count : ℕ) (w : K)
      → (ring_srv os sockets order queues addr ring_count w).0 ≡ no_features
      → opened (ring_srv os sockets order queues addr ring_count w).1 ≡ opened w
  unfolding ring_srv
  ring_srv-closes {mapped} {opened} t visits ring_count w h =
      let (made, w') = create_many os order (2 ^ 13) [] ring_count 1 w in
      stop_created (λ v. opened v ≡ opened w) made w'
        (λ st is. create_many-close_all os t order visits (2 ^ 13) [] ring_count 1 w st is) h

-- ===== src/Example/Echo/Main.antt =====
-- example/echo-server/uring/uring.go, main up to its loop. The calls on sockets and rings are the
-- parameters of Net/Listener and Uring/Setup, and so is what a new ring finds in memory.
mod Tests
use go_uring.Base.{
  ℕ, ◌^◌, ◌<◌, ◌≡◌, refl, ap, sym, ◌∙◌, ◌⊎◌, inl, inr, Option, none, some, List, [], ◌∷◌, Bool,
  subst, arith,
}
use go_uring.Uring.Sq.Queue.{Pending}
use go_uring.Uring.Sq.Inv.{IsValid, pending}
use go_uring.Uring.Params.{RingParams}
use go_uring.Uring.Ring.{Ring}
use go_uring.Uring.Setup.{Os, NewRing, made, Mapping, SqPointers, CqPointers, new_ring}
use go_uring.Uring.Setup.Pointers.{PointsTo, alloc_ring-PointsTo, alloc_ring-mapped}
use go_uring.Uring.Setup.Load.{Memory, load_sq, load_cq}
use go_uring.Uring.Setup.Fresh.{IsFresh, alloc_ring-IsValid}
use go_uring.Uring.Setup.Made.{IsAlloc, new_ring-IsAlloc}
use go_uring.Net.Listener.{Sockets, reuse_addr}
use go_uring.Example.Echo.{
  max_conns, backlog, Served, running, fatal, panicked, Server, start_server, ◌>>=◌,
}
use go_uring.Example.Echo.Queue.{accept_entry}
use go_uring.Example.Echo.System.{queue}
use go_uring.Example.Echo.Steps.{Reach, start}
use go_uring.Example.Echo.Reach.{start-queued}

running-inj : {X : Type 0} {a b : X} → running a ≡ running b → a ≡ b
running-inj e = cc

-- Where a run of two steps passes.
passes :
    {X Y : Type 0} (m : Served X) (f : X → Served Y) (y : Y)
    → (m >>= f) ≡ running y
    → (x : X) × (m ≡ running x) × (f x ≡ running y)
passes (running x) f y runs = (x, refl, runs)
passes fatal f y runs = absurd (let no : fatal ≡ running y = runs in cc)
passes panicked f y runs = absurd (let no : panicked ≡ running y = runs in cc)

module _ {A K : Type 0} (sockets : Sockets A K) (os : Os K) (memory : K → Memory) where
  -- `checkErr` of a call
  checked_call : Option ℕ × K → Served K
  checked_call (none, w) = running w
  checked_call (some e, w) = fatal

  -- The calls on the socket.
  listen_on_socket : A → (ℕ ⊎ ℕ) × K → Served (ℕ × K)
  unfolding checked_call
  listen_on_socket addr (inl e, w) = fatal
  listen_on_socket addr (inr fd, w) = do
    w1 ← checked_call (sockets.set_opt fd (reuse_addr 1) w)
    w2 ← checked_call (sockets.bind fd addr w1)
    w3 ← checked_call (sockets.listen fd backlog w2)
    running (fd, w3)

  -- `checkErr` of `New`, and the ring.
  server_ring : NewRing × K → Served (Ring × K)
  unfolding load_sq load_cq
  server_ring (made fd p (inr (m, ps, pc)), w) = running (
    record {
      fd = fd;
      params = p;
      cq_ring = load_cq (memory w) pc;
      sq_ring = load_sq (memory w) m ps;
    },
    w,
  )
  server_ring (out, w) = fatal

  -- The descriptor of the listening socket, and the server; `accept_addr` and `len_addr` are where
  -- the accept puts the address of the peer and its length.
  unfoldable pub echo_main : A → (accept_addr len_addr : ℕ) → K → Served (ℕ × Server K)
  unfolding listen_on_socket server_ring new_ring start_server
  echo_main addr accept_addr len_addr w = do
    (fd, w1) ← listen_on_socket addr (sockets.socket w)
    (ring, w2) ← server_ring (new_ring os (2 ^ 12) [] w1)
    s ← start_server fd accept_addr len_addr ring w2
    running (fd, s)

  -- What io_uring_setup(2) leaves in memory for 4096 entries, where the rings are mapped and at the
  -- offsets that it wrote: empty queues, of twice as many completions.
  abbrev pub SetsUpEmpty : Type 0
  SetsUpEmpty =
      (w w' : K) (fd : ℕ) (p : RingParams) (m : Mapping) (ps : SqPointers) (pc : CqPointers)
      (sq cq : ℕ)
      → new_ring os (2 ^ 12) [] w ≡ (made fd p (inr (m, ps, pc)), w')
      → m.sq_buff ≡ some sq
      → m.cq_buff ≡ some cq
      → IsFresh 12 13 (memory w') sq cq p

  module _ (shutdown : ℕ → K → K) (address : ℕ → ℕ) (accept_addr len_addr : ℕ) where
    -- Where the loop of `main` begins.
    pub record Began (fd : ℕ) (s : Server K) : Type 0 where
      pub ring : Ring
      pub world : K
      pub valid : IsValid 12 ring.sq_ring
      pub empty : pending max_conns ring.sq_ring ≡ record { submitted = []; prepared = [] }
      pub reached :
          Reach shutdown address fd accept_addr len_addr ring world
            (record { server = s; taken = [] })
      pub queued :
          queue s ≡ record { submitted = []; prepared = accept_entry fd accept_addr len_addr ∷ [] }

    module _ (e : SetsUpEmpty) where
      server_ring-empty :
          (made : NewRing × K) (w w' : K) (ring : Ring)
          → new_ring os (2 ^ 12) [] w ≡ made
          → IsAlloc os made.0
          → server_ring made ≡ running (ring, w')
          → IsValid 12 ring.sq_ring
            × (pending max_conns ring.sq_ring ≡ record { submitted = []; prepared = [] })
      unfolding server_ring
      server_ring-empty (made fd p (inr (m, ps, pc)), w2) w w' ring is (w1, out) runs =
          let (sq, cq, at_sq, at_cq) = alloc_ring-mapped os fd p w1 (m, ps, pc) out in
          let points =
            subst (PointsTo os fd p sq cq) out (alloc_ring-PointsTo os fd p sq cq w1 at_sq at_cq) in
          let fresh =
            e w w2 fd p m ps pc sq cq is (ap (λ (b : Mapping). b.sq_buff) points.1)
              (ap (λ (b : Mapping). b.cq_buff) points.1) in
          let v =
            alloc_ring-IsValid os fd p sq cq w1 m ps pc out at_sq at_cq fresh (omega arith)
              (omega arith) in
          let same = ap (λ (o : Ring × K). o.0.sq_ring) (running-inj runs) in
          subst
            (λ sq.
              IsValid 12 sq × (pending max_conns sq ≡ record { submitted = []; prepared = [] }))
            same (v.0, v.2)
      server_ring-empty (out, w2) w w' ring is alloc runs = cc

      -- When the echo server gets to its loop, it runs on a valid ring of 4096 entries that was
      -- empty, its state is one of those that the invariant of the server is about, and exactly one
      -- accept on its listening socket is queued: if io_uring_setup(2) leaves the queues of the
      -- ring empty, and the descriptor of the socket is below 4096.
      pub echo_main-Began :
          (addr : A) (w : K) (fd : ℕ) (s : Server K)
          → echo_main addr accept_addr len_addr w ≡ running (fd, s)
          → fd < max_conns
          → Began fd s
      unfolding echo_main
      echo_main-Began addr w fd s runs listening =
          let ((fd', w1), p1, rest1) =
            passes (listen_on_socket addr (sockets.socket w))
              (λ (o : ℕ × K). server_ring (new_ring os (2 ^ 12) [] o.1) >>= λ (r : Ring × K).
                start_server o.0 accept_addr len_addr r.0 r.1 >>= λ (s' : Server K).
                running (o.0, s'))
              (fd, s) runs in
          let ((ring, w2), p2, rest2) =
            passes (server_ring (new_ring os (2 ^ 12) [] w1))
              (λ (r : Ring × K).
                start_server fd' accept_addr len_addr r.0 r.1 >>= λ (s' : Server K).
                running (fd', s'))
              (fd, s) rest1 in
          let (s', p3, rest3) =
            passes (start_server fd' accept_addr len_addr ring w2)
              (λ (s' : Server K). running (fd', s')) (fd, s) rest2 in
          let same_fd = ap (λ (o : ℕ × Server K). o.0) (running-inj rest3) in
          let same = ap (λ (o : ℕ × Server K). o.1) (running-inj rest3) in
          let (valid, empty) =
            server_ring-empty (new_ring os (2 ^ 12) [] w1) w1 w2 ring refl
              (new_ring-IsAlloc os (2 ^ 12) [] w1) p2 in
          let begun : start_server fd accept_addr len_addr ring w2 ≡ running s =
            ap (λ n. start_server n accept_addr len_addr ring w2) (sym same_fd)
            ∙ p3
            ∙ ap running same in
          record {
            ring = ring;
            world = w2;
            valid = valid;
            empty = empty;
            reached = start s begun;
            queued =
                start-queued shutdown address fd accept_addr len_addr listening ring w2 valid empty
                  s begun;
          }

-- ===== src/Example/Echo/Round.antt =====
-- A round of the server's loop: what it handles, and that it survives.
use go_uring.Base.{
  ℕ, zero, suc, ◌^◌, ◌≤◌, ◌<◌, ◌≡◌, refl, sym, ap, ◌∙◌, List, [], ◌∷◌, ◌++◌, map, false, Option,
  none, some, min, take, drop, length, length-take, length-map, length-replicate, replicate, arith,
}
use go_uring.Uring.Entry.{SqEntry, CqEvent}
use go_uring.Uring.Sq.{cq_need_flush}
use go_uring.Uring.Sq.Inv.{IsValid, pending}
use go_uring.Uring.Cq.Inv.{IsValid as IsCqValid, ready}
use go_uring.Uring.Cq.Batch.{peek_cq_event_batch_lem}
use go_uring.Base.Word.{u32_mod}
use go_uring.Uring.Ring.{
  peek_cq_event_batch_flush, Ring, Enter, Entered, Got, submit, wait_cq_events,
}
use go_uring.Uring.Ring.Peek.{peek_cq_event_batch_flush-plain}
use go_uring.Reactor.Consumer.{events_of}
use go_uring.Reactor.Consumer.Drain.{events_of-some, take-append_front}
use go_uring.Example.Echo.{
  ConnInfo, max_conns, backlog, Served, running, Server, handle_all, batch_of, after_wait,
  after_submit, serve_round, make_buffers, ◌>>=◌, or_panic,
}
use go_uring.Example.Echo.Table.{typ_of}
use go_uring.Example.Echo.System.{System}
use go_uring.Example.Echo.Handle.{handled}
use go_uring.Example.Echo.Serve.{Serves, Sane}
use go_uring.Example.Echo.Steps.{Reach, next, completes}
use go_uring.Example.Echo.Reach.{echo-Serves}

take-min : {A : Type 0} (n : ℕ) (xs : List A) → take (min n (length xs)) xs ≡ take n xs
take-min zero xs = ap (λ m. take m xs) {x = min zero (length xs)} {y = 0} (omega arith)
take-min (suc n) [] = ap (λ m. take m []) {x = min (suc n) 0} {y = 0} (omega arith)
take-min (suc n) (x ∷ xs) =
    ap (λ m. take m (x ∷ xs)) {y = suc (min n (length xs))} (omega arith)
    ∙ ap (λ l. x ∷ l) (take-min n xs)

-- The pointers of a peeked batch point to the completions.
events_of-batch :
    (n : ℕ) (cqes : List CqEvent) (rest : List (Option CqEvent))
    → n ≤ length cqes
    → events_of (take n (map some (take n cqes) ++ rest)) ≡ some (take n cqes)
events_of-batch n cqes rest h =
    ap events_of (
      ap (λ m. take m (map some (take n cqes) ++ rest)) {y = length (map some (take n cqes))}
        (omega (arith, length-map (λ (c : CqEvent). some c) (take n cqes), length-take n cqes))
      ∙ take-append_front (map some (take n cqes)) rest)
    ∙ events_of-some (take n cqes)

module _ {K : Type 0} (shutdown : ℕ → K → K) (address : ℕ → ℕ) (server_fd addr len_addr : ℕ)
    (enter : Enter → K → Ring → Entered K) where
  abbrev pub rounds : ℕ → Server K → Option (Served (Server K))
  rounds = serve_round (make_buffers address) shutdown server_fd addr len_addr enter

  abbrev handled_all : List CqEvent → Server K → Served (Server K)
  handled_all = handle_all (make_buffers address) shutdown server_fd addr len_addr

  batch_of_lem :
      (buff : List (Option CqEvent)) (j : ℕ) (conns : List ConnInfo) (w : K) (ring : Ring)
      → length buff < u32_mod
      → IsCqValid j ring.cq_ring
      → cq_need_flush ring.sq_ring ≡ false
      → batch_of
          (make_buffers address)
          shutdown
          server_fd
          addr
          len_addr
          enter
          (peek_cq_event_batch_flush enter buff w ring)
          conns
        ≡ some (
            handled_all
              (take (length buff) (ready (2 ^ j) ring.cq_ring))
              (record { conns = conns; ring = ring; world = w }))
  unfolding batch_of
  batch_of_lem buff j conns w ring small v calm =
      ap (λ o. batch_of (make_buffers address) shutdown server_fd addr len_addr enter o conns)
        (peek_cq_event_batch_flush-plain enter buff (map some (take size cqes) ++ drop size buff)
          size w ring calm (peek_cq_event_batch_lem v buff small))
      ∙ ap (λ (o : Option (List CqEvent)). some (or_panic o >>= λ events. handled_all events s))
          (events_of-batch size cqes (drop size buff) (omega arith))
      ∙ ap (λ events. some (handled_all events s)) (take-min (length buff) cqes)
    where
      cqes : List CqEvent
      cqes = ready (2 ^ j) ring.cq_ring

      size : ℕ
      size = min (length buff) (length cqes)

      s : Server K
      s = record { conns = conns; ring = ring; world = w }

  -- A round whose `Submit` and wait succeed handles the completions that are ready, oldest first, up
  -- to the backlog.
  serve_round_lem :
      (fuel j n : ℕ) (s : Server K) (w1 w2 : K) (ring1 ring2 : Ring) (got : Got)
      → submit enter s.world s.ring ≡ ((n, none), w1, ring1)
      → wait_cq_events enter fuel 1 w1 ring1 ≡ some (got, w2, ring2)
      → got.err ≡ none
      → IsCqValid j ring2.cq_ring
      → cq_need_flush ring2.sq_ring ≡ false
      → rounds fuel s
        ≡ some (
            handled_all
              (take backlog (ready (2 ^ j) ring2.cq_ring))
              (record { conns = s.conns; ring = ring2; world = w2 }))
  unfolding serve_round after_submit after_wait
  serve_round_lem fuel j n s w1 w2 ring1 ring2 got p q fine v calm =
      rw (p, q, fine)
        (batch_of_lem (replicate backlog none) j s.conns w2 ring2
            (omega (arith, length-replicate {A = Option CqEvent} backlog none)) v calm
          ∙ ap
              (λ m. some (
                handled_all (take m (ready (2 ^ j) ring2.cq_ring))
                  (record { conns = s.conns; ring = ring2; world = w2 })))
              (length-replicate {A = Option CqEvent} backlog none))

  -- Each completion belongs to an operation that the kernel has taken when it is handled, with a
  -- result that the server survives: no accept that failed, or gave a descriptor of 4096 or more or
  -- one with an operation in flight.
  abbrev pub Plausible : List CqEvent → System K → Type 0
  Plausible [] sys = Unit {0}
  Plausible (cqe ∷ cqes) sys =
      (xs : List SqEntry) × (ys : List SqEntry) × (e : SqEntry) × (sys.taken ≡ xs ++ (e ∷ ys))
      × (cqe.user_data ≡ e.user_data)
      × Sane shutdown address server_fd addr len_addr (typ_of e) cqe.res sys
      × ((after : Server K)
          → handled shutdown address server_fd addr len_addr cqe sys.server ≡ running after
          → Plausible cqes (record { server = after; taken = xs ++ ys }))

  -- The completions are handled one after the other, each in the state that the one before it
  -- leaves: each is that of an operation that the kernel has taken, which it ends, and exactly what
  -- follows from its result is queued.
  abbrev pub Handles : List CqEvent → System K → System K → Type 0
  Handles [] sys sys' = sys ≡ sys'
  Handles (cqe ∷ cqes) sys sys' =
      (xs : List SqEntry) × (ys : List SqEntry) × (e : SqEntry) × (sys.taken ≡ xs ++ (e ∷ ys))
      × (cqe.user_data ≡ e.user_data)
      × (served : Serves shutdown address server_fd addr len_addr (typ_of e) e.user_data cqe.res
          sys.server (xs ++ ys) (handled shutdown address server_fd addr len_addr cqe sys.server))
      × Handles cqes (record { server = served.after; taken = xs ++ ys }) sys'

  module _ (listening : server_fd < max_conns) (ring : Ring) (w : K)
      (valid : IsValid 12 ring.sq_ring)
      (empty : pending max_conns ring.sq_ring ≡ record { submitted = []; prepared = [] }) where
    handled_all_lem :
        (cqes : List CqEvent) (sys : System K)
        → Reach shutdown address server_fd addr len_addr ring w sys
        → Plausible cqes sys
        → (sys' : System K) × Handles cqes sys sys'
          × Reach shutdown address server_fd addr len_addr ring w sys'
          × (handled_all cqes sys.server ≡ running sys'.server)
    unfolding handle_all
    handled_all_lem [] sys r p = (sys, refl, r, refl)
    handled_all_lem (cqe ∷ cqes) sys r (xs, ys, e, q, u, ok, more) =
        let served =
          echo-Serves shutdown address server_fd addr len_addr listening ring w valid empty sys xs
            ys e cqe r q u ok in
        let (sys', each, r', runs) =
          handled_all_lem cqes (record { server = served.after; taken = xs ++ ys })
            (next r (completes xs ys e cqe served.after q u ok served.runs))
            (more served.after served.runs) in
        (
          sys',
          (xs, ys, e, q, u, served, each),
          r',
          ap (λ o. o >>= handled_all cqes) served.runs ∙ runs,
        )

    -- A round of the server's loop whose Submit and wait succeed, from a state that is reached
    -- after them and without an overflow of the completion queue, handles every completion that is
    -- ready, up to the backlog, in order, and ends in a state that is reached: if the ring of 4096
    -- entries was empty at first, the listening socket is below 4096, and each completion, when its
    -- turn comes, is that of an operation that the kernel has taken: a send, a receive with an error
    -- or at most 2048 bytes, or an accept that gave a descriptor below 4096 with no operation in
    -- flight. Each handled completion ends its operation, and exactly what follows from its result
    -- is queued.
    pub echo_round :
        (fuel j n : ℕ) (s : Server K) (w1 : K) (ring1 : Ring) (got : Got) (sys : System K)
        → submit enter s.world s.ring ≡ ((n, none), w1, ring1)
        → wait_cq_events enter fuel 1 w1 ring1 ≡ some (got, sys.server.world, sys.server.ring)
        → got.err ≡ none
        → sys.server.conns ≡ s.conns
        → IsCqValid j sys.server.ring.cq_ring
        → cq_need_flush sys.server.ring.sq_ring ≡ false
        → Reach shutdown address server_fd addr len_addr ring w sys
        → Plausible (take backlog (ready (2 ^ j) sys.server.ring.cq_ring)) sys
        → (sys' : System K) × Handles
            (take backlog (ready (2 ^ j) sys.server.ring.cq_ring))
            sys
            sys'
          × Reach shutdown address server_fd addr len_addr ring w sys'
          × (rounds fuel s ≡ some (running sys'.server))
    echo_round fuel j n s w1 ring1 got sys p q fine same v calm r plausible =
        let cqes = take backlog (ready (2 ^ j) sys.server.ring.cq_ring) in
        let (sys', each, r', runs) = handled_all_lem cqes sys r plausible in
        (
          sys',
          each,
          r',
          serve_round_lem fuel j n s w1 sys.server.world ring1 sys.server.ring got p q fine v calm
              ∙ ap
                  (λ conns. some (
                    handled_all cqes
                      (record { conns = conns; ring = sys.server.ring; world = sys.server.world })))
                  (sym same)
              ∙ ap some runs,
        )

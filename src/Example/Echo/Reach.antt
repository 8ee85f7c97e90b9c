-- ===== src/Example/Echo/Reach.antt =====
-- No state that the server and the kernel reach makes the server fail.
use go_uring.Base.{
  ◌∙◌, ℕ, ◌≤◌, ◌<◌, ◌≡◌, refl, sym, ap, List, [], ◌∷◌, ◌++◌, true, arith, subst, Bool-cases, inl,
  inr, ◌⊎◌,
}
use go_uring.Uring.Entry.{SqEntry, CqEvent, is_neg32}
use go_uring.Uring.Params.{fast_poll_feature}
use go_uring.Uring.Sq.Queue.{Pending}
use go_uring.Uring.Sq.Inv.{IsValid, pending}
use go_uring.Uring.Ring.{Ring}
use go_uring.Example.Echo.{
  accepting, max_conns, running, fatal, Server, make_conns, add_accept, start_server, handle,
  dispatch, make_buffers, add_read, to_int, panicked, ◌>>=◌,
}
use go_uring.Example.Echo.Flights.{All, All-of_append, occ}
use go_uring.Example.Echo.Table.{Matches, typ_of, make_conns-IsTable, get_elem?-make_buffers_past}
use go_uring.Example.Echo.Queue.{Added, accept_entry, add_accept_lem}
use go_uring.Example.Echo.System.{
  System, queue, in_flight, IsServing, free-HasRoom, Added-IsServing,
}
use go_uring.Example.Echo.Handle.{handled, handle_lem}
use go_uring.Example.Echo.Serve.{Serves, Sane}
use go_uring.Example.Echo.Steps.{
  Step, submits, takes, posts, completes, Reach, start, next, submits-IsServing, posts-IsServing,
  takes-IsServing,
}

module _ {K : Type 0} (shutdown : ℕ → K → K) (address : ℕ → ℕ) (server_fd addr len_addr : ℕ) where
  module _ (listening : server_fd < max_conns) where
    completed :
        (sys : System K) (xs ys : List SqEntry) (e : SqEntry) (cqe : CqEvent)
        → IsServing server_fd sys
        → sys.taken ≡ xs ++ (e ∷ ys)
        → cqe.user_data ≡ e.user_data
        → Sane shutdown address server_fd addr len_addr (typ_of e) cqe.res sys
        → Serves shutdown address server_fd addr len_addr
            (typ_of e)
            e.user_data
            cqe.res
            sys.server
            (xs ++ ys)
            (handled shutdown address server_fd addr len_addr cqe sys.server)
    completed sys xs ys e cqe v q u ok =
        handle_lem shutdown address server_fd addr len_addr sys.server xs ys e cqe listening
          (subst (λ es. IsServing server_fd (record { server = sys.server; taken = es })) q v) u
          (subst
            (λ es.
              Sane shutdown address server_fd addr len_addr (typ_of e) cqe.res
                (record { server = sys.server; taken = es }))
            q ok)

    Step-IsServing :
        {sys sys' : System K}
        → Step shutdown address server_fd addr len_addr sys sys'
        → IsServing server_fd sys
        → IsServing server_fd sys'
    Step-IsServing {sys = sys} submits v =
        submits-IsServing shutdown address server_fd addr len_addr sys v
    Step-IsServing {sys = sys} (takes e others q) v =
        takes-IsServing shutdown address server_fd addr len_addr sys v e others q
    Step-IsServing {sys = sys} (posts c flags w) v =
        posts-IsServing shutdown address server_fd addr len_addr sys v c flags w
    Step-IsServing {sys = sys} (completes xs ys e cqe after q u ok runs) v =
        let c = completed sys xs ys e cqe v q u ok in
        subst (λ s. IsServing server_fd (record { server = s; taken = xs ++ ys })) (cc (c.runs))
          c.serving

    module _ (ring : Ring) (w : K) (valid : IsValid 12 ring.sq_ring)
        (empty : pending max_conns ring.sq_ring ≡ record { submitted = []; prepared = [] }) where
      abbrev starting : Server K
      starting = record { conns = make_conns; ring = ring; world = w }

      none_in_flight : (fd : ℕ) → in_flight fd (record { server = starting; taken = [] }) ≡ 0
      none_in_flight fd = omega (
        arith,
        ap (λ (q : Pending). occ fd q.submitted) empty,
        ap (λ (q : Pending). occ fd q.prepared) empty,
      )

      starting-IsServing : IsServing server_fd (record { server = starting; taken = [] })
      starting-IsServing = record {
        valid = valid;
        table = make_conns-IsTable;
        visible =
            subst (All (Matches server_fd make_conns))
              (sym (ap (λ (q : Pending). q.submitted) empty)) tt;
        prepared =
            subst (All (Matches server_fd make_conns))
              (sym (ap (λ (q : Pending). q.prepared) empty)) tt;
        taken = tt;
        once = λ fd. omega (arith, none_in_flight fd);
      }

      first_accept :
          Added server_fd accepting
            (accept_entry server_fd addr len_addr)
            starting
            (add_accept server_fd addr len_addr starting)
      first_accept =
          add_accept_lem starting
            (free-HasRoom starting-IsServing server_fd listening (none_in_flight server_fd))
            make_conns-IsTable server_fd listening addr len_addr

      first_accept-IsServing :
          IsServing server_fd (record { server = first_accept.after; taken = [] })
      unfolding typ_of
      first_accept-IsServing =
          Added-IsServing starting-IsServing server_fd listening (none_in_flight server_fd)
            accepting (accept_entry server_fd addr len_addr)
            (add_accept server_fd addr len_addr starting) first_accept refl refl (λ h. refl)

      start-IsServing :
          (s : Server K)
          → start_server server_fd addr len_addr ring w ≡ running s
          → IsServing server_fd (record { server = s; taken = [] })
      unfolding start_server
      start-IsServing s runs = elim (Bool-cases (fast_poll_feature ring.params)) [
        | inl has ↦
            let same : add_accept server_fd addr len_addr starting ≡ running s = rw has at runs in
            subst (λ t. IsServing server_fd (record { server = t; taken = [] }))
              {x = first_accept.after} {y = s} (cc (first_accept.runs)) first_accept-IsServing
        | inr lacks ↦ absurd (let no_start : fatal ≡ running s = rw lacks at runs in cc)
      ]

      pub start-queued :
          (s : Server K)
          → start_server server_fd addr len_addr ring w ≡ running s
          → queue s
            ≡ record { submitted = []; prepared = accept_entry server_fd addr len_addr ∷ [] }
      unfolding start_server
      start-queued s runs = elim (Bool-cases (fast_poll_feature ring.params)) [
        | inl has ↦
            let same : add_accept server_fd addr len_addr starting ≡ running s = rw has at runs in
            subst
              (λ (t : Server K).
                queue t
                ≡ record { submitted = []; prepared = accept_entry server_fd addr len_addr ∷ [] })
              {x = first_accept.after} {y = s} (cc (first_accept.runs))
              (first_accept.queued
                ∙ ap
                    (λ (q : Pending). record q {
                      prepared = q.prepared ++ (accept_entry server_fd addr len_addr ∷ []);
                    })
                    empty)
        | inr lacks ↦ absurd (let no_start : fatal ≡ running s = rw lacks at runs in cc)
      ]

      reached :
          {sys : System K}
          → Reach shutdown address server_fd addr len_addr ring w sys
          → IsServing server_fd sys
      reached (start s runs) = start-IsServing s runs
      reached (next r step) = Step-IsServing step (reached r)

      -- On a ring of 4096 entries that is empty at first, in every state that the server and the
      -- kernel reach in any order of their steps: the completion of an operation that the kernel
      -- has taken is handled without a panic and without a full queue, by the operation that it
      -- belongs to, if it is a send, a receive with an error or at most 2048 bytes, or an accept
      -- that gave a descriptor below 4096 with no operation in flight; accepts that fail or give a
      -- larger descriptor are left out here. Behind all that waits, exactly this is queued: for the
      -- accept, a receive on the new connection and the next accept; for a receive of n bytes, a
      -- send of these n bytes from the buffer that received them; for a send, a receive; after the
      -- end of the stream or an error of a receive nothing, and the connection is shut down. The
      -- listening socket is below 4096.
      pub echo-Serves :
          (sys : System K) (xs ys : List SqEntry) (e : SqEntry) (cqe : CqEvent)
          → Reach shutdown address server_fd addr len_addr ring w sys
          → sys.taken ≡ xs ++ (e ∷ ys)
          → cqe.user_data ≡ e.user_data
          → Sane shutdown address server_fd addr len_addr (typ_of e) cqe.res sys
          → Serves shutdown address server_fd addr len_addr
              (typ_of e)
              e.user_data
              cqe.res
              sys.server
              (xs ++ ys)
              (handled shutdown address server_fd addr len_addr cqe sys.server)
      echo-Serves sys xs ys e cqe r = completed sys xs ys e cqe (reached r)

      -- No connection ever has two operations in flight, and the state of a connection names the one
      -- that it has, wherever that is: visible to the kernel, prepared, or taken by the kernel.
      pub echo_in_flight :
          (sys : System K) (fd : ℕ)
          → Reach shutdown address server_fd addr len_addr ring w sys
          → (in_flight fd sys ≤ 1)
            × All (Matches server_fd sys.server.conns) (queue sys.server).submitted
            × All (Matches server_fd sys.server.conns) (queue sys.server).prepared
            × All (Matches server_fd sys.server.conns) sys.taken
      echo_in_flight sys fd r = let v = reached r in (v.once fd, v.visible, v.prepared, v.taken)

      -- `addRead` panics on an index that is not in its tables, before anything is queued.
      add_read_panics :
          (res : ℕ) (s : Server K)
          → (is_neg32 res ≡ true) ⊎ (max_conns ≤ res)
          → (add_read (make_buffers address) (to_int res) s >>= add_accept server_fd addr len_addr)
            ≡ panicked
      unfolding add_read
      add_read_panics res s (inl negative) = rw negative refl
      add_read_panics res s (inr past) = elim (Bool-cases (is_neg32 res)) [
        | inl negative ↦ rw negative refl
        | inr positive ↦ rw (positive, get_elem?-make_buffers_past address res past) refl
      ]

      -- The server does not survive an accept that failed, nor a descriptor that has no place in its
      -- table: it panics.
      pub echo_accept_panics :
          (sys : System K) (xs ys : List SqEntry) (e : SqEntry) (cqe : CqEvent)
          → Reach shutdown address server_fd addr len_addr ring w sys
          → sys.taken ≡ xs ++ (e ∷ ys)
          → cqe.user_data ≡ e.user_data
          → typ_of e ≡ accepting
          → (is_neg32 cqe.res ≡ true) ⊎ (max_conns ≤ cqe.res)
          → handled shutdown address server_fd addr len_addr cqe sys.server ≡ panicked
      unfolding handle dispatch
      echo_accept_panics sys xs ys e cqe r q u typ bad =
          let m =
            (All-of_append (Matches server_fd sys.server.conns) xs (e ∷ ys)
              (subst (All (Matches server_fd sys.server.conns)) q (reached r).taken)).1.0 in
          rw (u, m.found, m.same_typ, typ) (add_read_panics cqe.res _ bad)

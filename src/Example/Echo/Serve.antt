-- ===== src/Example/Echo/Serve.antt =====
-- The server beside a kernel that completes its operations in any order: it never fails, and it
-- echoes.
use go_uring.Base.{
  ℕ, ◌≤◌, ◌<◌, ◌≡◌, refl, sym, ap, ◌∙◌, List, [], ◌∷◌, ◌++◌, true, false, Bool-cases, inl, inr, ◌⊎◌,
  ◌==◌, if◌then◌else◌, arith, append_assoc, append-nil,
}
use go_uring.Base.Int.{pos}
use go_uring.Uring.Entry.{SqEntry, CqEvent, is_neg32}
use go_uring.Uring.Sq.Queue.{Pending}
use go_uring.Example.Echo.{
  ConnType, unset, accepting, reading, writing, max_conns, max_msg_len, Served, running, Server,
  make_buffers, is_not_positive, add_accept, add_read, add_write, dispatch, handle, ◌>>=◌,
}
use go_uring.Example.Echo.Table.{typ_of}
use go_uring.Example.Echo.Queue.{
  Added, accept_entry, recv_entry, send_entry, add_accept_lem, add_read_lem, add_write_lem,
}
use go_uring.Example.Echo.System.{
  System, queue, in_flight, in_flight-Added, IsServing, free-HasRoom, Added-IsServing,
}

module _ {K : Type 0} (shutdown : ℕ → K → K) (address : ℕ → ℕ) (server_fd addr len_addr : ℕ) where
  abbrev pub handles : CqEvent → Server K → Served (Server K)
  handles = handle (make_buffers address) shutdown server_fd addr len_addr

  -- What the server queues for a completed operation: a receive on a new connection and another
  -- accept; a send of the bytes that were received, from the buffer where they lie; a receive after
  -- a send; nothing after the end of the stream or an error.
  abbrev pub follow : ConnType → (fd res : ℕ) → List SqEntry
  follow unset fd res = []
  follow accepting fd res = recv_entry address res ∷ accept_entry server_fd addr len_addr ∷ []
  follow reading fd res = if is_not_positive res then [] else send_entry address fd res ∷ []
  follow writing fd res = recv_entry address fd ∷ []

  -- What it does to the connection.
  abbrev pub close_after : ConnType → (fd res : ℕ) → K → K
  close_after reading fd res w = if is_not_positive res then shutdown fd w else w
  close_after _ fd res w = w

  -- The results that the server survives: of an accept a descriptor below `max_conns` with nothing
  -- in flight, no error; of a receive an error, or at most as many bytes as the buffer holds; of a
  -- send any.
  abbrev pub Sane : ConnType → ℕ → System K → Type 0
  Sane accepting res sys = (res < max_conns) × (in_flight res sys ≡ 0)
  Sane reading res sys = (is_neg32 res ≡ true) ⊎ (res ≤ max_msg_len)
  Sane _ res sys = Unit {0}

  -- The server goes on, with what follows queued behind all that waits, and the invariant.
  pub record Serves (typ : ConnType) (fd res : ℕ) (s : Server K) (rest : List SqEntry)
      (out : Served (Server K)) : Type 0 where
    pub after : Server K
    pub runs : out ≡ running after
    pub serving : IsServing server_fd (record { server = after; taken = rest })
    pub queued :
        queue after ≡ record (queue s) { prepared = (queue s).prepared ++ follow typ fd res }
    pub closed : after.world ≡ close_after typ fd res s.world

  module _ (listening : server_fd < max_conns) (s : Server K) (rest : List SqEntry) where
    abbrev left : System K
    left = record { server = s; taken = rest }

    -- An operation that is queued for a free connection.
    added-Serves :
        (typ new : ConnType) (fd res : ℕ) (e : SqEntry) (out : Served (Server K))
        → IsServing server_fd left
        → in_flight fd left ≡ 0
        → fd < max_conns
        → Added fd new e s out
        → e.user_data ≡ fd
        → new ≡ typ_of e
        → (typ_of e ≡ accepting → fd ≡ server_fd)
        → follow typ fd res ≡ e ∷ []
        → close_after typ fd res s.world ≡ s.world
        → Serves typ fd res s rest out
    added-Serves typ new fd res e out v free lt a u y l one still = record {
      after = a.after;
      runs = a.runs;
      serving = Added-IsServing v fd lt free new e out a u y l;
      queued =
          a.queued ∙ ap (λ es. record (queue s) { prepared = (queue s).prepared ++ es }) (sym one);
      closed = a.kept ∙ sym still;
    }

    accepting-Serves :
        (res : ℕ)
        → IsServing server_fd left
        → in_flight server_fd left ≡ 0
        → res < max_conns
        → in_flight res left ≡ 0
        → (server_fd == res) ≡ false
        → Serves accepting server_fd res s rest
            (add_read (make_buffers address) (pos res) s >>= add_accept server_fd addr len_addr)
    unfolding typ_of
    accepting-Serves res v free lt fresh other = record {
      after = a.after;
      runs = ap (λ o. o >>= add_accept server_fd addr len_addr) r.runs ∙ a.runs;
      serving =
          Added-IsServing between server_fd listening still accepting
            (accept_entry server_fd addr len_addr) (add_accept server_fd addr len_addr r.after) a
            refl refl (λ h. refl);
      queued =
          a.queued
          ∙ ap
              (λ (q : Pending). record q {
                prepared = q.prepared ++ (accept_entry server_fd addr len_addr ∷ []);
              })
              r.queued
          ∙ ap (λ es. record (queue s) { prepared = es })
              (append_assoc (queue s).prepared (recv_entry address res ∷ [])
                (accept_entry server_fd addr len_addr ∷ []));
      closed = a.kept ∙ r.kept;
    }
      where
        r :
            Added res reading
              (recv_entry address res)
              s
              (add_read (make_buffers address) (pos res) s)
        r = add_read_lem s (free-HasRoom v res lt fresh) v.table res lt address

        between : IsServing server_fd (record { server = r.after; taken = rest })
        between =
            Added-IsServing v res lt fresh reading (recv_entry address res)
              (add_read (make_buffers address) (pos res) s) r refl refl (λ h. cc)

        still : in_flight server_fd (record { server = r.after; taken = rest }) ≡ 0
        still = ground (arith, in_flight-Added left r server_fd)

        a :
            Added server_fd accepting
              (accept_entry server_fd addr len_addr)
              r.after
              (add_accept server_fd addr len_addr r.after)
        a =
            add_accept_lem r.after (free-HasRoom between server_fd listening still) between.table
              server_fd listening addr len_addr

    nothing_queued : queue s ≡ record (queue s) { prepared = (queue s).prepared ++ [] }
    nothing_queued =
        ap (λ es. record (queue s) { prepared = es }) (sym (append-nil (queue s).prepared))

    closed-Serves :
        (fd res : ℕ)
        → IsServing server_fd left
        → is_not_positive res ≡ true
        → Serves reading fd res s rest (running (record s { world = shutdown fd s.world }))
    closed-Serves fd res v ended = record {
      after = record s { world = shutdown fd s.world };
      runs = refl;
      serving = record {
        valid = v.valid;
        table = v.table;
        visible = v.visible;
        prepared = v.prepared;
        taken = v.taken;
        once = v.once;
      };
      queued = rw ended nothing_queued;
      closed = rw ended refl;
    }

    -- The switch, for a completed operation that is no longer in flight.
    pub dispatch_lem :
        (typ : ConnType) (fd res : ℕ)
        → IsServing server_fd left
        → in_flight fd left ≡ 0
        → fd < max_conns
        → (typ ≡ accepting → (fd ≡ server_fd) × ((fd == res) ≡ false))
        → Sane typ res left
        → Serves typ fd res s rest
            (dispatch (make_buffers address) shutdown server_fd addr len_addr typ fd res s)
    unfolding dispatch typ_of
    dispatch_lem unset fd res v free lt l sane = record {
      after = s;
      runs = refl;
      serving = v;
      queued = nothing_queued;
      closed = refl;
    }
    dispatch_lem accepting fd res v free lt l sane =
        let nonneg : is_neg32 res ≡ false = ground arith in
        rw ((l refl).0, nonneg)
          (accepting-Serves res v (ap (λ t. in_flight t left) (sym (l refl).0) ∙ free) sane.0 sane.1
            (ap (λ t. t == res) (sym (l refl).0) ∙ (l refl).1))
    dispatch_lem reading fd res v free lt l sane = elim (Bool-cases (is_not_positive res)) [
      | inl ended ↦ rw ended (closed-Serves fd res v ended)
      | inr more ↦ rw more (
          added-Serves reading writing fd res (send_entry address fd res)
            (add_write (make_buffers address) fd res s) v free lt
            (add_write_lem s (free-HasRoom v fd lt free) v.table fd lt address res (ground arith)
              (ground arith))
            refl refl (λ h. cc) (rw more refl) (rw more refl))
    ]
    dispatch_lem writing fd res v free lt l sane =
        added-Serves writing reading fd res (recv_entry address fd)
          (add_read (make_buffers address) (pos fd) s) v free lt
          (add_read_lem s (free-HasRoom v fd lt free) v.table fd lt address) refl refl (λ h. cc)
          refl refl

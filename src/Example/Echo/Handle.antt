-- ===== src/Example/Echo/Handle.antt =====
-- The body of the loop over the completions, for the completion of an operation that the kernel has
-- taken.
use go_uring.Base.{ℕ, ◌<◌, ◌≡◌, List, ◌∷◌, ◌++◌, false, ◌==◌, arith, subst}
use go_uring.Uring.Entry.{SqEntry, CqEvent}
use go_uring.Uring.Cq.{seen_cqe}
use go_uring.Example.Echo.{
  ConnType, unset, accepting, reading, writing, max_conns, Served, Server, handle, dispatch,
  make_buffers,
}
use go_uring.Example.Echo.Flights.{occ-append}
use go_uring.Example.Echo.Table.{Matches, typ_of}
use go_uring.Example.Echo.System.{System, IsServing, complete-IsServing}
use go_uring.Example.Echo.Serve.{handles, Sane, Serves, dispatch_lem}

module _ {K : Type 0} (shutdown : ℕ → K → K) (address : ℕ → ℕ) (server_fd addr len_addr : ℕ) where
  abbrev pub handled : CqEvent → Server K → Served (Server K)
  handled = handles shutdown address server_fd addr len_addr

  module _ (s : Server K) (xs ys : List SqEntry) (e : SqEntry) (cqe : CqEvent)
      (listening : server_fd < max_conns) where
    abbrev before : System K
    before = record { server = s; taken = xs ++ (e ∷ ys) }

    abbrev seen : Server K
    seen = record s { ring = record s.ring { cq_ring = seen_cqe s.ring.cq_ring } }

    abbrev others : System K
    others = record { server = seen; taken = xs ++ ys }

    Sane-others :
        (typ : ConnType)
        → Sane shutdown address server_fd addr len_addr typ cqe.res before
        → Sane shutdown address server_fd addr len_addr typ cqe.res others
    Sane-others accepting ok =
        (ok.0, ground (arith, occ-append cqe.res xs (e ∷ ys), occ-append cqe.res xs ys))
    Sane-others reading ok = ok
    Sane-others unset ok = ok
    Sane-others writing ok = ok

    -- The completion of an operation in flight is handled by what the operation was.
    pub handle_lem :
        IsServing server_fd before
        → cqe.user_data ≡ e.user_data
        → Sane shutdown address server_fd addr len_addr (typ_of e) cqe.res before
        → Serves shutdown address server_fd addr len_addr
            (typ_of e)
            e.user_data
            cqe.res
            s
            (xs ++ ys)
            (handled cqe s)
    unfolding handle
    handle_lem v u ok =
        rw (u, m.found, m.same_typ, m.same_fd)
          (record {
            after = d.after;
            runs = d.runs;
            serving = d.serving;
            queued = d.queued;
            closed = d.closed;
          })
      where
        m : Matches server_fd s.conns e
        m = (complete-IsServing s xs ys e v).2

        unseen : IsServing server_fd others
        unseen =
            let o = (complete-IsServing s xs ys e v).0 in
            record {
              valid = o.valid;
              table = o.table;
              visible = o.visible;
              prepared = o.prepared;
              taken = o.taken;
              once = o.once;
            }

        fresh :
            typ_of e ≡ accepting → (e.user_data ≡ server_fd) × ((e.user_data == cqe.res) ≡ false)
        fresh h =
            let accepted : Sane shutdown address server_fd addr len_addr accepting cqe.res before =
              subst (λ t. Sane shutdown address server_fd addr len_addr t cqe.res before) h ok in
            (m.listens h, ground (arith, occ-append cqe.res xs (e ∷ ys), m.listens h))

        d :
            Serves shutdown address server_fd addr len_addr
              (typ_of e)
              e.user_data
              cqe.res
              seen
              (xs ++ ys)
              (dispatch
                (make_buffers address)
                shutdown
                server_fd
                addr
                len_addr
                (typ_of e)
                e.user_data
                cqe.res
                seen)
        d =
            dispatch_lem shutdown address server_fd addr len_addr listening seen (xs ++ ys)
              (typ_of e) e.user_data cqe.res unseen (complete-IsServing s xs ys e v).1 m.below fresh
              (Sane-others (typ_of e) ok)

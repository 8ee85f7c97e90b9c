-- ===== src/Example/Echo/Steps.antt =====
-- The server and the kernel, step by step in any order, and the invariant in each step.
use go_uring.Base.{ℕ, ◌≡◌, sym, ap, ◌∙◌, List, [], ◌∷◌, ◌++◌, arith, subst, drop}
use go_uring.Uring.Entry.{SqEntry, CqEvent}
use go_uring.Uring.Sq.{SqRing, flush_sq, consume}
use go_uring.Uring.Sq.Queue.{Pending}
use go_uring.Uring.Sq.Refine.Flush.{flush_sq_refines}
use go_uring.Uring.Sq.Refine.Consume.{consume_refines}
use go_uring.Uring.Cq.{CqRing}
use go_uring.Uring.Ring.{Ring}
use go_uring.Example.Echo.{running, Server, start_server}
use go_uring.Example.Echo.Flights.{All, All-append, occ, occ-append}
use go_uring.Example.Echo.Table.{Matches, typ_of}
use go_uring.Example.Echo.System.{System, queue, IsServing}
use go_uring.Example.Echo.Handle.{handled}
use go_uring.Example.Echo.Serve.{Sane}

abbrev pub with_sq : {K : Type 0} → Server K → SqRing → Server K
with_sq s sq = record s { ring = record s.ring { sq_ring = sq } }

-- What the kernel changes without taking an entry: completions, the flags, its own state.
abbrev pub moved : {K : Type 0} → CqRing → ℕ → K → Server K → Server K
moved c flags w s = record s {
  ring = record s.ring { cq_ring = c; sq_ring = record s.ring.sq_ring { k_flags = flags } };
  world = w;
}

module _ {K : Type 0} (shutdown : ℕ → K → K) (address : ℕ → ℕ) (server_fd addr len_addr : ℕ) where
  -- The program submits its entries; the kernel takes one of them, or moves its own state and the
  -- completion queue; a completion of an operation that was taken is handled.
  pub data Step (sys : System K) : System K → Type 0 where
    submits :
        Step sys (record sys { server = with_sq sys.server (flush_sq sys.server.ring.sq_ring).1 })
    takes :
        (e : SqEntry) (later : List SqEntry)
        → (queue sys.server).submitted ≡ e ∷ later
        → Step sys (record {
          server = with_sq sys.server (consume sys.server.ring.sq_ring);
          taken = sys.taken ++ (e ∷ []);
        })
    posts :
        (c : CqRing) (flags : ℕ) (w : K)
        → Step sys (record sys { server = moved c flags w sys.server })
    completes :
        (xs ys : List SqEntry) (e : SqEntry) (cqe : CqEvent) (after : Server K)
        → sys.taken ≡ xs ++ (e ∷ ys)
        → cqe.user_data ≡ e.user_data
        → Sane shutdown address server_fd addr len_addr (typ_of e) cqe.res sys
        → handled shutdown address server_fd addr len_addr cqe sys.server ≡ running after
        → Step sys (record { server = after; taken = xs ++ ys })

  -- The states that are reached from a start of the server on the ring.
  pub data Reach (ring : Ring) (w : K) : System K → Type 0 where
    start :
        (s : Server K)
        → start_server server_fd addr len_addr ring w ≡ running s
        → Reach ring w (record { server = s; taken = [] })
    next : {sys sys' : System K} → Reach ring w sys → Step sys sys' → Reach ring w sys'

  module _ (sys : System K) (v : IsServing server_fd sys) where
    abbrev waiting : Pending
    waiting = queue sys.server

    abbrev Placed : List SqEntry → Type 0
    Placed = All (Matches server_fd sys.server.conns)

    pub submits-IsServing :
        IsServing server_fd
          (record sys { server = with_sq sys.server (flush_sq sys.server.ring.sq_ring).1 })
    submits-IsServing =
        let refined = flush_sq_refines v.valid in
        let submitted = ap (λ (o : ℕ × Pending). o.1.submitted) refined.1 in
        let prepared = ap (λ (o : ℕ × Pending). o.1.prepared) refined.1 in
        record {
          valid = refined.0;
          table = v.table;
          visible = subst Placed (sym submitted) (
              All-append (Matches server_fd sys.server.conns) waiting.submitted waiting.prepared
                v.visible v.prepared);
          prepared = subst Placed (sym prepared) tt;
          taken = v.taken;
          once = λ fd. ground (
            arith,
            v.once fd,
            ap (occ fd) submitted,
            ap (occ fd) prepared,
            occ-append fd waiting.submitted waiting.prepared,
          );
        }

    pub takes-IsServing :
        (e : SqEntry) (others : List SqEntry)
        → waiting.submitted ≡ e ∷ others
        → IsServing server_fd (record {
          server = with_sq sys.server (consume sys.server.ring.sq_ring);
          taken = sys.taken ++ (e ∷ []);
        })
    takes-IsServing e others q =
        let refined = consume_refines v.valid in
        let submitted = ap (λ (o : Pending). o.submitted) refined.1 ∙ ap (drop 1) q in
        let prepared = ap (λ (o : Pending). o.prepared) refined.1 in
        let visible : Placed (e ∷ others) = subst Placed q v.visible in
        record {
          valid = refined.0;
          table = v.table;
          visible = subst Placed (sym submitted) visible.1;
          prepared = subst Placed (sym prepared) v.prepared;
          taken =
              All-append (Matches server_fd sys.server.conns) sys.taken (e ∷ []) v.taken
                (visible.0, tt);
          once = λ fd. ground (
            arith,
            v.once fd,
            ap (occ fd) submitted,
            ap (occ fd) prepared,
            ap (occ fd) q,
            occ-append fd sys.taken (e ∷ []),
          );
        }

    pub posts-IsServing :
        (c : CqRing) (flags : ℕ) (w : K)
        → IsServing server_fd (record sys { server = moved c flags w sys.server })
    posts-IsServing c flags w = record {
      valid = record {
        small = v.valid.small;
        entries = v.valid.entries;
        mask = v.valid.mask;
        array_room = v.valid.array_room;
        buff_room = v.valid.buff_room;
        head_word = v.valid.head_word;
        tail_word = v.valid.tail_word;
        sqe_tail_word = v.valid.sqe_tail_word;
        aligned = v.valid.aligned;
        room = v.valid.room;
        named = v.valid.named;
      };
      table = v.table;
      visible = v.visible;
      prepared = v.prepared;
      taken = v.taken;
      once = v.once;
    }

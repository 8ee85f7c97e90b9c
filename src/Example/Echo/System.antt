-- ===== src/Example/Echo/System.antt =====
-- The server with the operations that the kernel has taken from its queue: what holds in every state
-- between two completions.
use go_uring.Base.{
  ℕ, ◌+◌, ◌≤◌, ◌<◌, ◌≡◌, sym, ap, ◌∙◌, List, [], ◌∷◌, ◌++◌, length-append, arith, subst, ◌==◌,
  if◌then◌else◌,
}
use go_uring.Uring.Entry.{SqEntry, zero_entry, set_user_data}
use go_uring.Uring.Sq.Queue.{Pending}
use go_uring.Uring.Sq.Inv.{IsValid, pending}
use go_uring.Example.Echo.{ConnType, accepting, ConnInfo, max_conns, Served, Server}
use go_uring.Example.Echo.Flights.{
  All, All-append, All-of_append, occ, occ-append, IsBelow, length-le-bound,
}
use go_uring.Example.Echo.Table.{
  IsTable, IsTable-set, Matches, Matches-set_self, All-Matches-set, typ_of,
}
use go_uring.Example.Echo.Queue.{Added, HasRoom}

pub record System (K : Type 0) : Type 0 where
  pub server : Server K
  pub taken : List SqEntry

Matches-IsBelow :
    (server_fd : ℕ) (conns : List ConnInfo) (es : List SqEntry)
    → All (Matches server_fd conns) es
    → IsBelow max_conns es
Matches-IsBelow server_fd conns [] m = tt
Matches-IsBelow server_fd conns (e ∷ es) m = (m.0.below, Matches-IsBelow server_fd conns es m.1)

module _ {K : Type 0} where
  -- What the queue of the server holds.
  abbrev pub queue : Server K → Pending
  queue s = pending max_conns s.ring.sq_ring

  -- How many operations in flight carry the descriptor `fd`: visible to the kernel, prepared, taken.
  abbrev pub in_flight : ℕ → System K → ℕ
  in_flight fd sys =
      occ fd (queue sys.server).submitted + (occ fd (queue sys.server).prepared + occ fd sys.taken)

  -- Each operation in flight belongs to the state of its connection, and no connection has two.
  pub record IsServing (server_fd : ℕ) (sys : System K) : Type 0 where
    pub valid : IsValid 12 sys.server.ring.sq_ring
    pub table : IsTable sys.server.conns
    pub visible : All (Matches server_fd sys.server.conns) (queue sys.server).submitted
    pub prepared : All (Matches server_fd sys.server.conns) (queue sys.server).prepared
    pub taken : All (Matches server_fd sys.server.conns) sys.taken
    pub once : (fd : ℕ) → in_flight fd sys ≤ 1

  -- The operation that was queued is in flight, besides those that were.
  pub in_flight-Added :
      (sys : System K) {fd : ℕ} {typ : ConnType} {e : SqEntry} {out : Served (Server K)}
      → (a : Added fd typ e sys.server out) (ud : ℕ)
      → in_flight ud (record { server = a.after; taken = sys.taken })
        ≡ in_flight ud sys + (if e.user_data == ud then 1 else 0)
  in_flight-Added sys {e = e} a ud = omega (
    arith,
    ap (λ (q : Pending). occ ud q.submitted) a.queued,
    ap (λ (q : Pending). occ ud q.prepared) a.queued,
    occ-append ud (queue sys.server).prepared (e ∷ []),
  )

  module _ {server_fd : ℕ} {sys : System K} (v : IsServing server_fd sys) (fd : ℕ)
      (lt : fd < max_conns) (free : in_flight fd sys ≡ 0) where
    abbrev conns : List ConnInfo
    conns = sys.server.conns

    abbrev waiting : Pending
    waiting = queue sys.server

    -- With one more operation, for `fd`, there would still be at most `max_conns`.
    abbrev with_one : List SqEntry
    with_one = set_user_data zero_entry fd ∷ (waiting.submitted ++ (waiting.prepared ++ sys.taken))

    with_one-once : (ud : ℕ) → occ ud with_one ≤ 1
    unfolding set_user_data
    with_one-once ud = ground (
      arith,
      v.once ud,
      occ-append ud waiting.submitted (waiting.prepared ++ sys.taken),
      occ-append ud waiting.prepared sys.taken,
    )

    with_one-IsBelow : IsBelow max_conns with_one
    unfolding set_user_data
    with_one-IsBelow = (
      lt,
      All-append (λ (e : SqEntry). e.user_data < max_conns) waiting.submitted
          (waiting.prepared ++ sys.taken)
          (Matches-IsBelow server_fd conns waiting.submitted v.visible)
          (All-append (λ (e : SqEntry). e.user_data < max_conns) waiting.prepared sys.taken
            (Matches-IsBelow server_fd conns waiting.prepared v.prepared)
            (Matches-IsBelow server_fd conns sys.taken v.taken)),
    )

    -- While a connection has no operation in flight, the queue has room for one.
    pub free-HasRoom : HasRoom sys.server
    free-HasRoom = (
      v.valid,
      omega (
        arith,
        length-le-bound max_conns with_one with_one-IsBelow with_one-once,
        length-append waiting.submitted (waiting.prepared ++ sys.taken),
        length-append waiting.prepared sys.taken,
      ),
    )

    -- An operation that is queued for that connection keeps the invariant.
    pub Added-IsServing :
        (typ : ConnType) (e : SqEntry) (out : Served (Server K)) (a : Added fd typ e sys.server out)
        → e.user_data ≡ fd
        → typ ≡ typ_of e
        → (typ_of e ≡ accepting → fd ≡ server_fd)
        → IsServing server_fd (record { server = a.after; taken = sys.taken })
    Added-IsServing typ e out a u y l = record {
      valid = a.valid;
      table = subst IsTable (sym a.stored) (IsTable-set conns fd a.info v.table a.is_conn);
      visible =
          subst Placed (ap (λ (q : Pending). q.submitted) (sym a.queued))
            (moved waiting.submitted (omega (arith, free)) v.visible);
      prepared = subst Placed (ap (λ (q : Pending). q.prepared) (sym a.queued)) (
          All-append (Matches server_fd a.after.conns) waiting.prepared (e ∷ [])
            (moved waiting.prepared (omega (arith, free)) v.prepared)
            (
              subst (λ c. Matches server_fd c e) (sym a.stored)
                  (Matches-set_self server_fd conns fd a.info e v.table u lt a.same_fd
                    (a.same_typ ∙ y) (λ h. u ∙ l h)),
              tt,
            ));
      taken = moved sys.taken (omega (arith, free)) v.taken;
      once = λ ud. ground (arith, v.once ud, in_flight-Added sys a ud);
    }
      where
        Placed : List SqEntry → Type 0
        Placed = All (Matches server_fd a.after.conns)

        moved :
            (es : List SqEntry)
            → occ fd es ≡ 0
            → All (Matches server_fd conns) es
            → All (Matches server_fd a.after.conns) es
        moved es z m =
            subst (λ c. All (Matches server_fd c) es) (sym a.stored)
              (All-Matches-set server_fd conns fd a.info es z m)

  -- A completed operation is no longer in flight.
  pub complete-IsServing :
      {server_fd : ℕ} (s : Server K) (xs ys : List SqEntry) (e : SqEntry)
      → IsServing server_fd (record { server = s; taken = xs ++ (e ∷ ys) })
      → IsServing server_fd (record { server = s; taken = xs ++ ys })
        × (in_flight e.user_data (record { server = s; taken = xs ++ ys }) ≡ 0)
        × Matches server_fd s.conns e
  complete-IsServing {server_fd} s xs ys e v =
      let parts = All-of_append (Matches server_fd s.conns) xs (e ∷ ys) v.taken in
      (
        record {
          valid = v.valid;
          table = v.table;
          visible = v.visible;
          prepared = v.prepared;
          taken = All-append (Matches server_fd s.conns) xs ys parts.0 parts.1.1;
          once = λ fd. ground (arith, v.once fd, occ-append fd xs (e ∷ ys), occ-append fd xs ys);
        },
        ground (
          arith,
          v.once e.user_data,
          occ-append e.user_data xs (e ∷ ys),
          occ-append e.user_data xs ys,
        ),
        parts.1.0,
      )

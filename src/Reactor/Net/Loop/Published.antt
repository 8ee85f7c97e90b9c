-- ===== src/Reactor/Net/Loop/Published.antt =====
-- A request without a timeout, from `queue` to the entry that the publisher queues for it.
use go_uring.Base.{
  ℕ, ◌^◌, ◌<◌, ◌≡◌, refl, ap, ap₂, ◌∙◌, Option, some, List, [], ◌∷◌, ◌++◌, length, lt→ltb, get_or,
  get_or-set_self, ltb, if◌then◌else◌, true,
}
use go_uring.Base.Int.{ℤ, is_zero}
use go_uring.Uring.Entry.{SqEntry, zero_entry}
use go_uring.Uring.Sq.{SqRing, Queued, ok, entry_of}
use go_uring.Uring.Sq.Queue.{Pending, push, total}
use go_uring.Uring.Sq.Inv.{IsValid, pending}
use go_uring.Reactor.RequestId.{request_fd, request_nonce}
use go_uring.Reactor.Registry.{CbRegistry, registry_pop}
use go_uring.Reactor.Net.{
  NetOperation, operation_of, net_fd, SubSqeRequest, RingNetEventLoop, NetworkReactor, loop_for_fd,
  send_request, queue, publish_request,
}
use go_uring.Reactor.Net.Queue.{IsReactor, loop_for_fd-lt, queue-length}
use go_uring.Reactor.Net.Publish.{publish_request_plain}
use go_uring.Reactor.Net.Loop.{receive_request, publisher_request}

-- The publisher has queued the entry behind all that was pending, no callback is lost, and these
-- requests are left.
pub record Published {C : Type 0} (k : ℕ) (e : SqEntry) (left : List SubSqeRequest)
    (before : RingNetEventLoop) (reg : CbRegistry C)
    (out : Option (Queued × RingNetEventLoop × CbRegistry C)) : Type 0 where
  pub after : RingNetEventLoop
  pub runs : out ≡ some (ok, after, reg)
  pub valid : IsValid k after.ring.sq_ring
  pub queued : pending (2 ^ k) after.ring.sq_ring ≡ record (pending (2 ^ k) before.ring.sq_ring) {
    prepared = (pending (2 ^ k) before.ring.sq_ring).prepared ++ (e ∷ []);
  }
  pub buss : after.req_buss ≡ left

-- The ring of a loop has a free entry.
abbrev pub HasRoom : ℕ → RingNetEventLoop → Type 0
HasRoom k loop = IsValid k loop.ring.sq_ring × (total (pending (2 ^ k) loop.ring.sq_ring) < 2 ^ k)

module _ {C : Type 0} {k : ℕ} (spec link_spec : ℕ) (e : SqEntry) where
  publisher_request_lem :
      (req : SubSqeRequest) (reqs : List SubSqeRequest) (loop : RingNetEventLoop)
      (reg : CbRegistry C)
      → loop.req_buss ≡ req ∷ reqs
      → HasRoom k loop
      → is_zero req.timeout ≡ true
      → entry_of spec req.op req.flags req.user_data zero_entry ≡ some e
      → Published k e reqs loop reg (publisher_request spec link_spec loop reg)
  unfolding publisher_request receive_request
  publisher_request_lem req reqs loop reg waits (v, room) plain entry = rw waits (record {
    after = after;
    runs =
        ap₂ (λ q g. some (q, after, g)) (ap (λ (o : Queued × Pending). o.0) (both ∙ pushed)) kept;
    valid = done.0;
    queued = ap (λ (o : Queued × Pending). o.1) (both ∙ pushed);
    buss = refl;
  })
    where
      sq : SqRing
      sq = (publish_request spec link_spec req loop.ring.sq_ring reg).1

      after : RingNetEventLoop
      after = record {
        ring = record loop.ring { sq_ring = sq };
        req_buss = reqs;
        submit_allowed = 1;
      }

      done :
          IsValid k sq
          × (((publish_request spec link_spec req loop.ring.sq_ring reg).0, pending (2 ^ k) sq)
              ≡ push (2 ^ k) e (pending (2 ^ k) loop.ring.sq_ring))
          × ((publish_request spec link_spec req loop.ring.sq_ring reg).2 ≡ (
              if ltb (total (pending (2 ^ k) loop.ring.sq_ring)) (2 ^ k)
              then reg
              else (registry_pop reg (request_fd req.user_data) (request_nonce req.user_data)).1))
      done = publish_request_plain v spec link_spec req reg e plain entry

      grown : Pending
      grown = record (pending (2 ^ k) loop.ring.sq_ring) {
        prepared = (pending (2 ^ k) loop.ring.sq_ring).prepared ++ (e ∷ []);
      }

      pushed : push (2 ^ k) e (pending (2 ^ k) loop.ring.sq_ring) ≡ (ok, grown)
      pushed = rw (lt→ltb _ _ room) refl

      both :
          ((publish_request spec link_spec req loop.ring.sq_ring reg).0, pending (2 ^ k) sq)
          ≡ push (2 ^ k) e (pending (2 ^ k) loop.ring.sq_ring)
      both = done.1

      kept : (publish_request spec link_spec req loop.ring.sq_ring reg).2 ≡ reg
      kept = done.2 ∙ rw (lt→ltb _ _ room) refl

module _ {C : Type 0} (default : RingNetEventLoop) (r : NetworkReactor C) (v : IsReactor r)
    (op : NetOperation) (cb : C) (timeout : ℤ) where
  abbrev loop_of : NetworkReactor C → RingNetEventLoop
  loop_of r' = get_or r'.loops (loop_for_fd (length r'.loops) (net_fd op)) default

  -- What the loop of the descriptor holds once the request is sent to it.
  queue-loop_of :
      let (ud, r') = queue default op cb timeout r in
      loop_of r' ≡ record (loop_of r) {
        req_buss =
            (loop_of r).req_buss
            ++ (record { op = operation_of op; flags = 0; user_data = ud; timeout = timeout } ∷ []);
      }
  unfolding queue send_request
  queue-loop_of =
      ap (λ n. get_or (queue default op cb timeout r).1.loops (loop_for_fd n (net_fd op)) default)
        (queue-length default r v op cb timeout)
      ∙ get_or-set_self r.loops (loop_for_fd (length r.loops) (net_fd op)) _ default
          (loop_for_fd-lt default r v (net_fd op))

  -- On a loop whose channel is empty, the publisher queues the entry of the operation.
  pub queue-Published :
      {k : ℕ} (spec link_spec : ℕ) (e : SqEntry)
      → (loop_of r).req_buss ≡ []
      → HasRoom k (loop_of r)
      → is_zero timeout ≡ true
      → let (ud, r') = queue default op cb timeout r in
        (entry_of spec (operation_of op) 0 ud zero_entry ≡ some e)
        → Published k e []
            (loop_of r)
            r'.registry
            (publisher_request spec link_spec (loop_of r') r'.registry)
  queue-Published {k} spec link_spec e empty room plain entry =
      let (ud, r') = queue default op cb timeout r in
      let req : SubSqeRequest = record {
        op = operation_of op;
        flags = 0;
        user_data = ud;
        timeout = timeout;
      } in
      let p =
        publisher_request_lem spec link_spec e req []
          (record (loop_of r) { req_buss = (loop_of r).req_buss ++ (req ∷ []) }) r'.registry
          (ap (λ l. l ++ (req ∷ [])) empty) room plain entry in
      rw queue-loop_of (record {
        after = p.after;
        runs = p.runs;
        valid = p.valid;
        queued = p.queued;
        buss = p.buss;
      })

-- ===== src/Reactor/Net/Queue.antt =====
-- `queue`: where the request goes, and what its id is good for.
use go_uring.Base.{
  ℕ, ◌/◌, ◌%◌, ◌^◌, ◌<◌, ◌≡◌, ◌≢◌, refl, ap, ap₂, sym, ◌∙◌, some, List, [], ◌∷◌, ◌++◌, length,
  length-set, get_or, get_or-set_self, get_or-set_ne, ◌==◌, ==_refl, ==_ne, ℕ_discrete,
  if◌then◌else◌, arith,
}
use native.Mathlib.Nat.{mod-lt}
use go_uring.Base.Int.{ℤ, pos}
use go_uring.Base.Word.{u32_mod}
use go_uring.Uring.Operation.{cancel}
use go_uring.Reactor.RequestId.{
  timeout_nonce, cancel_nonce, pack_request_id, request_fd, request_nonce,
}
use go_uring.Reactor.RequestId.Pack.{unpack-pack, pack_request_id-ne-reserved}
use go_uring.Reactor.Registry.{CbRegistry, registry_add, shard_num_and_flatten_idx}
use go_uring.Reactor.Registry.Lookup.{IsRegistry, lookup, registry_add_lem}
use go_uring.Reactor.Net.{
  NetOperation, operation_of, net_fd, SubSqeRequest, RingNetEventLoop, NetworkReactor, loop_for_fd,
  fd_per_granule, send_request, queue, cancel_request,
}

-- The registry has a shard for each loop, and deals descriptors in the granules of the loops.
pub record IsReactor {C : Type 0} (r : NetworkReactor C) : Type 0 where
  pub registry : IsRegistry r.registry
  pub same_count : length r.loops ≡ r.registry.shard_cnt
  pub granules : r.registry.granularity ≡ fd_per_granule

-- The requests on the channel of a loop.
abbrev pub buss_of : RingNetEventLoop → List RingNetEventLoop → ℕ → List SubSqeRequest
buss_of default loops i = (get_or loops i default).req_buss

send_request_lem :
    (i j : ℕ) (req : SubSqeRequest) (default : RingNetEventLoop) (loops : List RingNetEventLoop)
    → i < length loops
    → (length (send_request i req default loops) ≡ length loops)
      × (buss_of default (send_request i req default loops) j
          ≡ (if i == j then buss_of default loops j ++ (req ∷ []) else buss_of default loops j))
unfolding send_request
send_request_lem i j req default loops h =
    let loop = get_or loops i default in
    let sent : RingNetEventLoop = record loop { req_buss = loop.req_buss ++ (req ∷ []) } in
    (
      length-set loops i sent,
      elim (ℕ_discrete i j) [
        | yes e ↦
            rw (sym e, ==_refl i)
              (ap (λ (l : RingNetEventLoop). l.req_buss) (get_or-set_self loops i sent default h))
        | no ne ↦
            rw (==_ne i j ne)
              (ap (λ (l : RingNetEventLoop). l.req_buss) (get_or-set_ne loops i j sent default ne))
      ],
    )

module _ {C : Type 0} (default : RingNetEventLoop) (r : NetworkReactor C) (v : IsReactor r) where
  -- The loop of a descriptor has the number of the registry's shard for it.
  pub loop_for_fd-shard :
      (fd : ℕ) → loop_for_fd (length r.loops) fd ≡ (shard_num_and_flatten_idx r.registry fd).0
  unfolding loop_for_fd shard_num_and_flatten_idx
  loop_for_fd-shard fd = ap₂ (λ g n. fd / g % n) (sym v.granules) v.same_count

  pub loop_for_fd-lt : (fd : ℕ) → loop_for_fd (length r.loops) fd < length r.loops
  unfolding loop_for_fd
  loop_for_fd-lt fd =
      mod-lt (fd / fd_per_granule) (omega (arith, v.same_count, v.registry.some_shard))

  registry_add-counts :
      (fd : ℕ) (cb : C)
      → ((registry_add r.registry fd cb).1.shard_cnt ≡ r.registry.shard_cnt)
        × ((registry_add r.registry fd cb).1.granularity ≡ r.registry.granularity)
  unfolding registry_add
  registry_add-counts fd cb = (refl, refl)

  pub queue-length :
      (op : NetOperation) (cb : C) (timeout : ℤ)
      → length (queue default op cb timeout r).1.loops ≡ length r.loops
  unfolding queue
  queue-length op cb timeout =
      (send_request_lem (loop_for_fd (length r.loops) (net_fd op)) 0 _ default r.loops
        (loop_for_fd-lt (net_fd op))).0

  module _ (op : NetOperation) (cb : C) (timeout : ℤ) (small : net_fd op < 2 ^ 31) where
    abbrev pub added : ℕ × CbRegistry C
    added = registry_add r.registry (net_fd op) cb

    pub nonce-word : added.0 < u32_mod
    nonce-word = omega (arith, (registry_add_lem r.registry v.registry (net_fd op) cb 0 0).1)

    abbrev pub id : ℕ
    id = (queue default op cb timeout r).0

    pub unpacked : (request_fd id ≡ net_fd op) × (request_nonce id ≡ added.0)
    unfolding queue
    unpacked = unpack-pack (net_fd op) added.0 (omega arith) nonce-word

    kept : lookup added.1 (net_fd op) added.0 ≡ some cb
    kept =
        (registry_add_lem r.registry v.registry (net_fd op) cb (net_fd op) added.0).2
        ∙ rw (==_refl (net_fd op), ==_refl added.0) refl

    abbrev request : SubSqeRequest
    request = record {
      op = operation_of op;
      flags = 0;
      user_data = pack_request_id (net_fd op) added.0;
      timeout = timeout;
    }

    -- The id that `queue` returns is not reserved, and under it the registry keeps the callback. The
    -- request carries the operation, the id and the timeout, and is sent to the loop of the
    -- descriptor, behind what waits there; the other loops get nothing, and the reactor stays valid.
    pub queue_lem :
        (i : ℕ)
        → let (ud, r') = queue default op cb timeout r in
          IsReactor r'
          × (lookup r'.registry (request_fd ud) (request_nonce ud) ≡ some cb)
          × ((ud ≢ timeout_nonce) × (ud ≢ cancel_nonce))
          × (buss_of default r'.loops i ≡ (
              if loop_for_fd (length r.loops) (net_fd op) == i
              then buss_of default r.loops i
                ++ (record { op = operation_of op; flags = 0; user_data = ud; timeout = timeout }
                    ∷ [])
              else buss_of default r.loops i))
    unfolding queue
    queue_lem i =
        let after = registry_add_lem r.registry v.registry (net_fd op) cb (net_fd op) added.0 in
        let sent =
          send_request_lem (loop_for_fd (length r.loops) (net_fd op)) i request default r.loops
            (loop_for_fd-lt (net_fd op)) in
        (
          record {
            registry = after.0;
            same_count = sent.0 ∙ v.same_count ∙ sym (registry_add-counts (net_fd op) cb).0;
            granules = (registry_add-counts (net_fd op) cb).1 ∙ v.granules;
          },
          ap₂ (lookup added.1) unpacked.0 unpacked.1 ∙ kept,
          pack_request_id-ne-reserved (net_fd op) added.0 small nonce-word,
          sent.1,
        )

    -- `Cancel` with the id of a queued operation sends its request, which names the id, to the loop
    -- that the operation was sent to, behind it, and to no other.
    pub cancel_request_lem :
        (i : ℕ)
        → let (ud, r') = queue default op cb timeout r in
          buss_of default (cancel_request default ud r').loops i ≡ (
            if loop_for_fd (length r.loops) (net_fd op) == i
            then buss_of default r'.loops i
              ++ (record { op = cancel 0 ud; flags = 0; user_data = cancel_nonce; timeout = pos 0 }
                  ∷ [])
            else buss_of default r'.loops i)
    unfolding cancel_request
    cancel_request_lem i =
        let loops = (queue default op cb timeout r).1.loops in
        let to = ap₂ loop_for_fd (queue-length op cb timeout) unpacked.0 in
        (send_request_lem (loop_for_fd (length loops) (request_fd id)) i
          (record { op = cancel 0 id; flags = 0; user_data = cancel_nonce; timeout = pos 0 })
          default loops
          (omega (arith, to, queue-length op cb timeout, loop_for_fd-lt (net_fd op)))).1
        ∙ ap
            (λ (n : ℕ).
              if n == i
              then buss_of default loops i
                ++ (record {
                  op = cancel 0 id;
                  flags = 0;
                  user_data = cancel_nonce;
                  timeout = pos 0;
                }
                    ∷ [])
              else buss_of default loops i)
            to

-- ===== src/Reactor/Net/Answer.antt =====
-- From `queue` to the callback.
use go_uring.Base.{◌^◌, ◌<◌, ◌≡◌, refl, ap, ap₂, sym, ◌∙◌, false, some, List, [], ◌∷◌, arith}
use go_uring.Base.Int.{ℤ}
use go_uring.Base.Word.{u32_mod, u64_mod}
use go_uring.Uring.Entry.{CqEvent}
use go_uring.Reactor.RequestId.{request_nonce}
use go_uring.Reactor.RequestId.Pack.{pack_request_id-sum}
use go_uring.Reactor.Registry.{CbRegistry, registry_add}
use go_uring.Reactor.Registry.Lookup.{lookup}
use go_uring.Reactor.Registry.Pending.{
  Call, run_calls, adds_to, is_popped, callback_waits, run_calls-IsRegistry,
}
use go_uring.Reactor.Net.{
  NetOperation, net_fd, RingNetEventLoop, NetworkReactor, queue, deliver, is_reserved,
}
use go_uring.Reactor.Net.Queue.{IsReactor, queue_lem, unpacked, nonce-word, id}
use go_uring.Reactor.Net.Deliver.{waiting, deliver_lem}

module _ {C : Type 0} (default : RingNetEventLoop) (r : NetworkReactor C) (v : IsReactor r)
    (op : NetOperation) (cb : C) (timeout : ℤ) (small : net_fd op < 2 ^ 31) where
  abbrev reg : CbRegistry C
  reg = (registry_add r.registry (net_fd op) cb).1

  queue-registry : (queue default op cb timeout r).1.registry ≡ reg
  unfolding queue
  queue-registry = refl

  id-word : id default r v op cb timeout small < u64_mod
  unfolding queue
  id-word =
      let nonce = (registry_add r.registry (net_fd op) cb).0 in
      omega (
        arith,
        pack_request_id-sum (net_fd op) nonce (omega arith)
            (nonce-word default r v op cb timeout small),
        nonce-word default r v op cb timeout small,
      )

  -- Whatever is added to the registry and popped from it between `queue` and the completion with the
  -- id that it returned, the consumer calls the callback that was queued, with that completion, if
  -- nothing popped the id and fewer than 2^32 callbacks were added for the descriptor.
  pub queue_answered :
      (calls : List (Call C)) (cqe : CqEvent)
      → let (ud, r') = queue default op cb timeout r in
        (cqe.user_data ≡ ud)
        → adds_to (net_fd op) calls < u32_mod
        → is_popped (net_fd op) (request_nonce ud) calls ≡ false
        → (deliver (cqe ∷ []) (run_calls calls r'.registry)).0 ≡ (some cb, cqe) ∷ []
  queue_answered calls cqe same few kept =
      let ud = (queue default op cb timeout r).0 in
      let nonce = (registry_add r.registry (net_fd op) cb).0 in
      let queued = queue_lem default r v op cb timeout small 0 in
      let at = unpacked default r v op cb timeout small in
      let late = run_calls calls (queue default op cb timeout r).1.registry in
      let unpopped : is_popped (net_fd op) nonce calls ≡ false =
        ap (λ n. is_popped (net_fd op) n calls) (sym at.1) ∙ kept in
      let waits : waiting late cqe.user_data ≡ some cb =
        ap (waiting late) same
        ∙ ap₂ (λ fd n. lookup late fd n) at.0 at.1
        ∙ ap (λ rg. lookup (run_calls calls rg) (net_fd op) nonce) queue-registry
        ∙ callback_waits r.registry reg (net_fd op) nonce cb calls v.registry refl few unpopped in
      let plain : is_reserved cqe ≡ false = ground (arith, same, queued.2) in
      (deliver_lem (cqe ∷ []) late (run_calls-IsRegistry calls _ queued.0.registry)
        (omega (arith, same, id-word), tt, tt)).0
      ∙ rw plain (ap (λ w. (w, cqe) ∷ []) waits)

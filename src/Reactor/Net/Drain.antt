-- ===== src/Reactor/Net/Drain.antt =====
-- The consumer of the network reactor: its loop over the batches is one delivery of all completions
-- that are ready.
use go_uring.Base.{◌≡◌, refl, ap, Bool-cases, inl, inr, List, [], ◌∷◌, ◌++◌}
use go_uring.Uring.Entry.{CqEvent}
use go_uring.Uring.Ring.{Ring}
use go_uring.Reactor.Consumer.Drain.{IsDelivery, and_then}
use go_uring.Reactor.Registry.{CbRegistry, registry_pop}
use go_uring.Reactor.RequestId.{request_fd, request_nonce}
use go_uring.Reactor.Net.{deliver, is_reserved}

module _ {C : Type 0} where
  deliver-append :
      (xs ys : List CqEvent) (reg : CbRegistry C)
      → deliver (xs ++ ys) reg ≡ and_then (deliver xs reg).0 (deliver ys (deliver xs reg).1)
  unfolding deliver
  deliver-append [] ys reg = refl
  deliver-append (x ∷ xs) ys reg =
      let (cb, reg') = registry_pop reg (request_fd x.user_data) (request_nonce x.user_data) in
      elim (Bool-cases (is_reserved x)) [
        | inl reserved ↦ rw reserved (deliver-append xs ys reg)
        | inr other ↦ rw other (ap (and_then ((cb, x) ∷ [])) (deliver-append xs ys reg'))
      ]

  pub deliver-IsDelivery : IsDelivery (deliver {C = C})
  unfolding deliver
  deliver-IsDelivery = record { deliver_nil = λ reg. refl; deliver_append = deliver-append }

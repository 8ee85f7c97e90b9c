-- ===== src/Reactor/Net/Round.antt =====
-- reactor/net.go, runConsumer: one round, the wait for a completion and then the loop over the batches.
mod Tests
use go_uring.Base.{
  ℕ, ◌+◌, refl, ap, sym, subst, ◌∙◌, Option, none, List, [], ◌∷◌, ◌⊎◌, inl, inr, arith,
}
use go_uring.Base.Int.{ℤ}
use go_uring.Uring.Entry.{CqEvent}
use go_uring.Uring.Cq.Inv.{ready, length-ready}
use go_uring.Uring.Ring.{Ring, Enter, Entered, Outcome, Got}
use go_uring.Uring.Ring.Rounds.{Delivers}
use go_uring.Uring.Ring.Timeout.{waited, overflow, Returns, wait_cq_events_with_timeout_total}
use go_uring.Reactor.Registry.{CbRegistry}
use go_uring.Reactor.Net.{deliver}
use go_uring.Reactor.Consumer.{Drain, round_of}

module _ {K C : Type 0} (enter : Enter → K → Ring → Entered K) (wait_fuel fuel spec : ℕ) (tick : ℤ)
    (buff : List (Option CqEvent)) (reg : CbRegistry C) where
  unfoldable pub consumer_round : K → Ring → Option (Drain K C (CbRegistry C))
  unfolding round_of deliver
  consumer_round w ring = round_of enter deliver wait_fuel fuel spec tick buff reg w ring

-- ===== src/Reactor/Generic/Round.antt =====
-- reactor/reactor.go, runConsumer: one round, with the map of the callbacks.
mod Tests
use go_uring.Base.{
  ℕ, ◌+◌, ◌^◌, ◌≤◌, ◌<◌, ◌≡◌, refl, ap, sym, subst, ◌∙◌, true, false, Bool-cases, ◌++◌, Option,
  none, some, List, [], ◌∷◌, ◌⊎◌, inl, inr, length, arith,
}
use go_uring.Base.Int.{ℤ}
use go_uring.Base.Word.{u32_mod}
use go_uring.Uring.Entry.{CqEvent}
use go_uring.Uring.Sq.{cq_need_flush}
use go_uring.Uring.Cq.Inv.{IsValid, ready, length-ready}
use go_uring.Uring.Params.{ext_arg_feature}
use go_uring.Uring.Ring.{Ring, Enter, Entered, Outcome, Got}
use go_uring.Uring.Ring.Kernel.{Honours}
use go_uring.Uring.Ring.Rounds.{Delivers}
use go_uring.Uring.Ring.Timeout.{
  Waited, waited, overflow, Returns, wait_cq_events_with_timeout, wait_cq_events_with_timeout_total,
}
use go_uring.Reactor.Registry.{CbRegistry}
use go_uring.Reactor.Net.{deliver}
use go_uring.Reactor.Consumer.{Drain, round_of}
use go_uring.Reactor.Consumer.Drain.{IsDelivery, and_then}
use go_uring.Reactor.Consumer.Round.{RoundEnds, round_of_lem}
use go_uring.Reactor.Registry.{update}
use go_uring.Reactor.Net.{is_reserved}
use go_uring.Reactor.Generic.{deliver_nonces}

module _ {C : Type 0} where
  deliver_nonces-append :
      (xs ys : List CqEvent) (callbacks : ℕ → Option C)
      → deliver_nonces (xs ++ ys) callbacks
        ≡ and_then
            (deliver_nonces xs callbacks).0
            (deliver_nonces ys (deliver_nonces xs callbacks).1)
  unfolding deliver_nonces
  deliver_nonces-append [] ys callbacks = refl
  deliver_nonces-append (x ∷ xs) ys callbacks = elim (Bool-cases (is_reserved x)) [
    | inl reserved ↦ rw reserved (deliver_nonces-append xs ys callbacks)
    | inr other ↦ rw other (
        ap (and_then ((callbacks x.user_data, x) ∷ []))
          (deliver_nonces-append xs ys (update callbacks x.user_data none)))
  ]

  deliver_nonces-IsDelivery : IsDelivery (deliver_nonces {C = C})
  unfolding deliver_nonces
  deliver_nonces-IsDelivery = record {
    deliver_nil = λ callbacks. refl;
    deliver_append = deliver_nonces-append;
  }

module _ {K C : Type 0} (enter : Enter → K → Ring → Entered K) (wait_fuel fuel spec : ℕ) (tick : ℤ)
    (buff : List (Option CqEvent)) (callbacks : ℕ → Option C) where
  -- The round, less the submit signal before it, which Goroutines has.
  unfoldable pub nonces_round : K → Ring → Option (Drain K C (ℕ → Option C))
  unfolding round_of deliver_nonces
  nonces_round w ring = round_of enter deliver_nonces wait_fuel fuel spec tick buff callbacks w ring

  -- After a wait that ends without an overflow of the completion queue, with a documented kernel and
  -- IORING_FEAT_EXT_ARG, a round of the generic reactor's consumer calls nothing and changes no
  -- callback if the wait gave an error, and otherwise delivers all completions that are ready, of
  -- which there is one, and leaves none.
  pub nonces_round_lem :
      (k : ℕ) (w w' : K) (ring ring' : Ring) (out : Waited)
      → Honours k enter
      → IsValid k ring.cq_ring
      → ext_arg_feature ring.params ≡ true
      → 2 ≤ wait_fuel
      → 2 ^ k < fuel
      → 0 < length buff
      → length buff < u32_mod
      → wait_cq_events_with_timeout enter wait_fuel spec 1 tick w ring ≡ some (out, w', ring')
      → cq_need_flush ring'.sq_ring ≡ false
      → RoundEnds deliver_nonces callbacks k out w' ring' (nonces_round w ring)
  unfolding nonces_round
  nonces_round_lem k w w' ring ring' out h v ext wait_enough enough place small ended calm =
      round_of_lem enter deliver_nonces wait_fuel fuel spec tick buff callbacks k w' ring' calm
        place small deliver_nonces-IsDelivery enough h w ring out v ext wait_enough ended

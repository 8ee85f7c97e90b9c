-- ===== src/Reactor/Consumer/Round.antt =====
-- A round of a consumer: the wait for a completion and then the loop over the batches.
use go_uring.Base.{
  none, refl, ℕ, ◌^◌, ◌≤◌, ◌<◌, ◌≡◌, sym, subst, true, false, Option, some, List, [], ◌∷◌, inl, inr,
  length, arith,
}
use go_uring.Base.Int.{ℤ}
use go_uring.Base.Word.{u32_mod}
use go_uring.Uring.Entry.{CqEvent}
use go_uring.Uring.Sq.{cq_need_flush}
use go_uring.Uring.Cq.Inv.{IsValid, ready, length-ready}
use go_uring.Uring.Params.{ext_arg_feature}
use go_uring.Uring.Ring.{Ring, Enter, Entered, Got}
use go_uring.Uring.Ring.Kernel.{Honours}
use go_uring.Uring.Ring.Rounds.{Delivers}
use go_uring.Uring.Ring.Timeout.{
  Waited, waited, overflow, Returns, wait_cq_events_with_timeout, wait_cq_events_with_timeout_total,
}
use go_uring.Reactor.Consumer.{Drain, drain, after_error, after_wait, round_of}
use go_uring.Reactor.Consumer.Drain.{Delivered, IsDelivery, Drains, drain_lem}

-- What a round ends with, if its wait has ended in `w'` and `ring'`, by the error of the wait: after
-- an error nothing is called and nothing changes, else all completions that were ready then are
-- delivered, of which there is one.
abbrev pub EndsAfter :
    {K C R : Type 0}
    → (List CqEvent → R → Delivered C R)
    → R
    → (k : ℕ) → Option ℕ
    → K
    → Ring
    → Option (Drain K C R)
    → Type 0
EndsAfter deliver reg k (some e) w' ring' round = round ≡ some ([], w', ring', reg)
EndsAfter deliver reg k none w' ring' round =
    (cqe : CqEvent) × (rest : List CqEvent) × (ready (2 ^ k) ring'.cq_ring ≡ cqe ∷ rest)
    × Drains k (deliver (cqe ∷ rest) reg) round

-- The wait for it does not overflow the submission queue: it queues nothing.
abbrev pub RoundEnds :
    {K C R : Type 0}
    → (List CqEvent → R → Delivered C R)
    → R
    → (k : ℕ) → Waited
    → K
    → Ring
    → Option (Drain K C R)
    → Type 0
RoundEnds deliver reg k (waited got) w' ring' round = EndsAfter deliver reg k got.err w' ring' round
RoundEnds deliver reg k overflow w' ring' round = ⊥

module _ {K C R : Type 0} (enter : Enter → K → Ring → Entered K)
    (deliver : List CqEvent → R → Delivered C R) (wait_fuel fuel spec : ℕ) (tick : ℤ)
    (buff : List (Option CqEvent)) (reg : R) where
  module _ (k : ℕ) (w' : K) (ring' : Ring) (calm : cq_need_flush ring'.sq_ring ≡ false)
      (place : 0 < length buff) (small : length buff < u32_mod) (d : IsDelivery deliver)
      (enough : 2 ^ k < fuel) where
    after_error-EndsAfter :
        (got : Got)
        → Delivers k (some (got, w', ring'))
        → EndsAfter deliver reg k got.err w' ring'
            (after_error enter deliver wait_fuel fuel spec tick buff reg got.err w' ring')
    unfolding after_error
    after_error-EndsAfter got (v, inl (e, failed)) = rw failed refl
    after_error-EndsAfter got (v, inr (cqe, rest, is, q)) = rw is (
      cqe,
      rest,
      q,
      subst (λ l. Drains k (deliver l reg) (drain enter deliver fuel buff w' ring' reg)) q
          (drain_lem enter deliver d fuel buff w' ring' reg v calm place small
            (omega (arith, length-ready k ring'.cq_ring, v.room))),
    )

    after_wait-RoundEnds :
        (out : Waited)
        → Returns k (some (out, w', ring'))
        → RoundEnds deliver reg k out w' ring'
            (after_wait enter deliver wait_fuel fuel spec tick buff reg (some (out, w', ring')))
    unfolding after_wait
    after_wait-RoundEnds (waited got) d = after_error-EndsAfter got d
    after_wait-RoundEnds overflow d = absurd d

    -- After a wait that ends without an overflow of the completion queue, with a documented kernel and
    -- IORING_FEAT_EXT_ARG, a round of the consumer calls nothing and changes no callback if the
    -- wait gave an error, and otherwise delivers all completions that are ready, of which there is
    -- one, and leaves none.
    pub round_of_lem :
        Honours k enter
        → (w : K) (ring : Ring) (out : Waited) → IsValid k ring.cq_ring
        → ext_arg_feature ring.params ≡ true
        → 2 ≤ wait_fuel
        → wait_cq_events_with_timeout enter wait_fuel spec 1 tick w ring ≡ some (out, w', ring')
        → RoundEnds deliver reg k out w' ring'
            (round_of enter deliver wait_fuel fuel spec tick buff reg w ring)
    unfolding round_of
    round_of_lem h w ring out v ext wait_enough ended =
        subst
          (λ o.
            RoundEnds deliver reg k out w' ring'
              (after_wait enter deliver wait_fuel fuel spec tick buff reg o))
          (sym ended)
          (after_wait-RoundEnds out (
            subst (Returns k) ended (
              wait_cq_events_with_timeout_total enter h wait_fuel spec 1 tick w ring v ext
                wait_enough)))

-- ===== src/Reactor/Consumer/Drain.antt =====
-- The consumer's loop over the batches is one delivery of all completions that are ready.
use mathlib.Core.Option
use go_uring.Base.{
  ℕ, zero, suc, ◌^◌, ◌<◌, ◌≤◌, ◌≡◌, refl, ap, sym, ◌∙◌, false, Option, none, some, List, [], ◌∷◌,
  ◌++◌, map, length, length-append, length-take, length-drop, length-map, take, drop,
  take-append-drop, min, arith,
}
use go_uring.Uring.Entry.{CqEvent}
use go_uring.Uring.Sq.{cq_need_flush}
use go_uring.Uring.Cq.{advance_cq}
use go_uring.Uring.Cq.Inv.{IsValid, ready}
use go_uring.Uring.Cq.Ready.{advance_cq_lem}
use go_uring.Uring.Cq.Batch.{peek_cq_event_batch_lem}
use go_uring.Uring.Ring.{Ring, Enter, Entered}
use go_uring.Uring.Ring.Peek.{peek_cq_event_batch_flush-plain}
use go_uring.Base.Word.{u32_mod}
use go_uring.Reactor.Consumer.{Drain, events_of, drain_events, drain_batch, drain}

pub events_of-some : (cqes : List CqEvent) → events_of (map some cqes) ≡ some cqes
unfolding events_of
events_of-some [] = refl
events_of-some (cqe ∷ cqes) = ap (Option.map (λ l. cqe ∷ l)) (events_of-some cqes)

pub take-append_front : {A : Type 0} (xs ys : List A) → take (length xs) (xs ++ ys) ≡ xs
take-append_front [] ys = refl
take-append_front (x ∷ xs) ys = ap (λ l. x ∷ l) (take-append_front xs ys)

abbrev pub Delivered : Type 0 → Type 0 → Type 0
Delivered C R = List (Option C × CqEvent) × R

-- The calls of one delivery before those of another.
abbrev pub and_then : {C R : Type 0} → List (Option C × CqEvent) → Delivered C R → Delivered C R
and_then calls (more, reg) = (calls ++ more, reg)

-- A batch may be delivered in two parts, or be empty.
pub record IsDelivery {C R : Type 0} (deliver : List CqEvent → R → Delivered C R) : Type 0 where
  pub deliver_nil : (reg : R) → deliver [] reg ≡ ([], reg)
  pub deliver_append :
      (xs ys : List CqEvent) (reg : R)
      → deliver (xs ++ ys) reg ≡ and_then (deliver xs reg).0 (deliver ys (deliver xs reg).1)

-- The loop is done: no completion is ready, and what it has called and left is `spec`.
abbrev pub Drains : {K C R : Type 0} → ℕ → Delivered C R → Option (Drain K C R) → Type 0
Drains k spec none = ⊥
Drains k spec (some (calls, w, ring, reg)) =
    IsValid k ring.cq_ring × (ready (2 ^ k) ring.cq_ring ≡ []) × ((calls, reg) ≡ spec)

-- One more batch before a loop that ends.
Drains-more :
    {K C R : Type 0} (k : ℕ) (calls : List (Option C × CqEvent)) (spec : Delivered C R)
    (o : Option (Drain K C R))
    → Drains k spec o
    → Drains k
        (and_then calls spec)
        (Option.map (λ (rest : Drain K C R). (calls ++ rest.0, rest.1, rest.2, rest.3)) o)
Drains-more k calls spec none h = h
Drains-more k calls spec (some (more, w, ring, reg)) h = (h.0, h.1, ap (and_then calls) h.2)

length-zero : (xs : List CqEvent) → length xs ≡ 0 → xs ≡ []
length-zero [] e = refl
length-zero (x ∷ xs) e = absurd (omega arith)

module _ {K C R : Type 0} (enter : Enter → K → Ring → Entered K)
    (deliver : List CqEvent → R → Delivered C R) (d : IsDelivery deliver) {k : ℕ} where
  module _ (buff : List (Option CqEvent)) (w : K) (ring : Ring) (reg : R)
      (v : IsValid k ring.cq_ring) (calm : cq_need_flush ring.sq_ring ≡ false)
      (small : length buff < u32_mod) where
    abbrev all : List CqEvent
    all = ready (2 ^ k) ring.cq_ring

    abbrev size : ℕ
    size = min (length buff) (length all)

    abbrev front : List CqEvent
    front = take size all

    abbrev filled : List (Option CqEvent)
    filled = map some front ++ drop size buff

    length-front : length (map some front) ≡ size
    length-front = omega (arith, length-map {B = Option CqEvent} some front, length-take size all)

    length-filled : length filled ≡ length buff
    length-filled = omega (
      arith,
      length-append (map some front) (drop size buff),
      length-front,
      length-drop size buff,
    )

    events : events_of (take size filled) ≡ some front
    events =
        ap events_of (
          ap (λ n. take n filled) (sym length-front)
          ∙ take-append_front (map some front) (drop size buff))
        ∙ events_of-some front

    drain_round :
        (fuel : ℕ)
        → drain enter deliver (suc fuel) buff w ring reg
          ≡ drain_events enter deliver size
              (some front)
              w
              ring
              reg
              (drain enter deliver fuel filled)
    unfolding drain drain_batch
    drain_round fuel =
        ap (λ o. drain_batch enter deliver o reg (drain enter deliver fuel))
          (peek_cq_event_batch_flush-plain enter buff filled size w ring calm
            (peek_cq_event_batch_lem v buff small))
        ∙ ap
            (λ cqes.
              drain_events enter deliver size cqes w ring reg (drain enter deliver fuel filled))
            events

    -- The round that finds nothing.
    last_round :
        (fuel : ℕ)
        → 0 < length buff
        → size ≡ 0
        → Drains k (deliver all reg) (drain enter deliver (suc fuel) buff w ring reg)
    unfolding drain_events
    last_round fuel some_place e =
        let none_ready : all ≡ [] = length-zero all (omega arith) in
        rw (drain_round fuel, e)
          (v, none_ready, sym (ap (λ l. deliver l reg) none_ready ∙ d.deliver_nil reg))

    -- A round that delivers a batch, before a loop that drains the rest.
    next_round :
        (fuel m : ℕ)
        → size ≡ suc m
        → ((ring' : Ring) (reg' : R)
            → IsValid k ring'.cq_ring
            → cq_need_flush ring'.sq_ring ≡ false
            → length (ready (2 ^ k) ring'.cq_ring) < fuel
            → Drains k
                (deliver (ready (2 ^ k) ring'.cq_ring) reg')
                (drain enter deliver fuel filled w ring' reg'))
        → length all ≤ fuel
        → Drains k (deliver all reg) (drain enter deliver (suc fuel) buff w ring reg)
    unfolding drain_events
    next_round fuel m e ih enough =
        let seen = advance_cq_lem v (suc m) (omega (arith, e)) in
        let ring' : Ring = record ring { cq_ring = advance_cq (suc m) ring.cq_ring } in
        let (calls, reg') = deliver front reg in
        let fewer = ap length seen.1 ∙ length-drop (suc m) all in
        let rest : deliver all reg ≡ and_then calls (deliver (ready (2 ^ k) ring'.cq_ring) reg') =
          ap (λ l. deliver l reg)
            (sym (take-append-drop size all)
              ∙ ap (λ l. front ++ l) (ap (λ n. drop n all) e ∙ sym seen.1))
          ∙ d.deliver_append front (ready (2 ^ k) ring'.cq_ring) reg in
        let round =
          drain_round fuel
          ∙ ap
              (λ n.
                drain_events enter deliver n (some front) w ring reg
                  (drain enter deliver fuel filled))
              e in
        rw (round, rest)
          (Drains-more k calls (deliver (ready (2 ^ k) ring'.cq_ring) reg')
            (drain enter deliver fuel filled w ring' reg')
            (ih ring' reg' seen.0 calm (omega (arith, fewer))))

  -- Without an overflow, and with a buffer of at least one place, the loop over the batches ends
  -- once no completion is ready. Its calls and the registry are those of one delivery of all
  -- completions that were ready, in their order, whatever the size of the buffer.
  pub drain_lem :
      (fuel : ℕ) (buff : List (Option CqEvent)) (w : K) (ring : Ring) (reg : R)
      → IsValid k ring.cq_ring
      → cq_need_flush ring.sq_ring ≡ false
      → 0 < length buff
      → length buff < u32_mod
      → length (ready (2 ^ k) ring.cq_ring) < fuel
      → Drains k
          (deliver (ready (2 ^ k) ring.cq_ring) reg)
          (drain enter deliver fuel buff w ring reg)
  drain_lem zero buff w ring reg v calm some_place small enough = absurd (omega arith)
  drain_lem (suc fuel) buff w ring reg v calm some_place small enough =
      go (size buff w ring reg v calm small) refl (λ ring' reg' v' calm' fits.
        drain_lem fuel (filled buff w ring reg v calm small) w ring' reg' v' calm'
          (omega (arith, length-filled buff w ring reg v calm small))
          (omega (arith, length-filled buff w ring reg v calm small)) fits)
    where
      go :
          (n : ℕ)
          → size buff w ring reg v calm small ≡ n
          → ((ring' : Ring) (reg' : R)
              → IsValid k ring'.cq_ring
              → cq_need_flush ring'.sq_ring ≡ false
              → length (ready (2 ^ k) ring'.cq_ring) < fuel
              → Drains k
                  (deliver (ready (2 ^ k) ring'.cq_ring) reg')
                  (drain enter deliver fuel (filled buff w ring reg v calm small) w ring' reg'))
          → Drains k
              (deliver (ready (2 ^ k) ring.cq_ring) reg)
              (drain enter deliver (suc fuel) buff w ring reg)
      go zero e ih = last_round buff w ring reg v calm small fuel some_place e
      go (suc m) e ih = next_round buff w ring reg v calm small fuel m e ih (omega arith)

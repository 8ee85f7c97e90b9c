-- ===== src/Reactor/Generic/Answer.antt =====
-- An operation of the generic reactor, from `Queue` to the call of its callback.
use go_uring.Base.{
  ℕ, ◌+◌, ◌<◌, ◌≡◌, refl, ap, ap₂, ltb, subst, sym, ◌∙◌, Bool, false, ◌||◌, Option, none, some,
  List, [], ◌∷◌, length, get_or, set, arith, ◌==◌, if◌then◌else◌, Bool-cases, inl, inr, length-set,
  get_or-set_self,
}
use native.Mathlib.Nat.{mod-lt}
use go_uring.Base.Int.{ℤ}
use go_uring.Base.Word.{u64_mod}
use go_uring.Uring.Entry.{CqEvent}
use go_uring.Uring.Operation.{Operation}
use go_uring.Uring.Sq.{Queued, ok}
use go_uring.Reactor.RequestId.{cancel_nonce}
use go_uring.Reactor.Nonce.{next_nonce_lem}
use go_uring.Reactor.Registry.{update}
use go_uring.Reactor.Net.{SubSqeRequest, is_reserved}
use go_uring.Reactor.Generic.{
  RingEventLoop, Reactor, keep_callback, loop_queue, loop_for_nonce, deliver_nonces, queue_on_loop,
  reactor_queue,
}

-- What happens to the callbacks of a loop: a request is queued, or a batch is delivered.
pub data LoopCall (C : Type 0) : Type 0 where
  keeps : (nonce : ℕ) → Option C → LoopCall C
  delivers : List CqEvent → LoopCall C

abbrev pub names : ℕ → List CqEvent → Bool
names nonce [] = false
names nonce (cqe ∷ cqes) = nonce == cqe.user_data || names nonce cqes

module _ {C : Type 0} where
  abbrev pub run_loop_calls : List (LoopCall C) → (ℕ → Option C) → ℕ → Option C
  run_loop_calls [] callbacks = callbacks
  run_loop_calls (keeps nonce cb ∷ calls) callbacks =
      run_loop_calls calls (update callbacks nonce cb)
  run_loop_calls (delivers cqes ∷ calls) callbacks =
      run_loop_calls calls (deliver_nonces cqes callbacks).1

  abbrev pub uses : ℕ → List (LoopCall C) → Bool
  uses nonce [] = false
  uses nonce (keeps n cb ∷ calls) = nonce == n || uses nonce calls
  uses nonce (delivers cqes ∷ calls) = names nonce cqes || uses nonce calls

  update-other :
      (callbacks : ℕ → Option C) (n nonce : ℕ) (cb : Option C)
      → (nonce == n) ≡ false
      → update callbacks n cb nonce ≡ callbacks nonce
  update-other callbacks n nonce cb h = ground arith

  deliver_nonces-other :
      (cqes : List CqEvent) (callbacks : ℕ → Option C) (nonce : ℕ)
      → names nonce cqes ≡ false
      → (deliver_nonces cqes callbacks).1 nonce ≡ callbacks nonce
  unfolding deliver_nonces
  deliver_nonces-other [] callbacks nonce h = refl
  deliver_nonces-other (cqe ∷ cqes) callbacks nonce h = elim (Bool-cases (is_reserved cqe)) [
    | inl reserved ↦ rw reserved (deliver_nonces-other cqes callbacks nonce (ground arith))
    | inr other ↦ rw other (
        deliver_nonces-other cqes (update callbacks cqe.user_data none) nonce (ground arith)
        ∙ update-other callbacks cqe.user_data nonce none (ground arith))
  ]

  run_loop_calls-other :
      (calls : List (LoopCall C)) (callbacks : ℕ → Option C) (nonce : ℕ)
      → uses nonce calls ≡ false
      → run_loop_calls calls callbacks nonce ≡ callbacks nonce
  run_loop_calls-other [] callbacks nonce h = refl
  run_loop_calls-other (keeps n cb ∷ calls) callbacks nonce h =
      run_loop_calls-other calls (update callbacks n cb) nonce (ground arith)
      ∙ update-other callbacks n nonce cb (ground arith)
  run_loop_calls-other (delivers cqes ∷ calls) callbacks nonce h =
      run_loop_calls-other calls (deliver_nonces cqes callbacks).1 nonce (ground arith)
      ∙ deliver_nonces-other cqes callbacks nonce (ground arith)

loop_for_nonce-lt : (n nonce : ℕ) → 0 < n → loop_for_nonce n nonce < n
unfolding loop_for_nonce
loop_for_nonce-lt n nonce h = mod-lt nonce h

module _ {C : Type 0} {n n' : ℕ} {q q' : Queued} {r r' : Reactor C}
    (e : ◌≡◌ {A = Option (ℕ × Queued × Reactor C)} (some (n, q, r)) (some (n', q', r'))) where
  nonce_of : n ≡ n'
  nonce_of = cc

  reply_of : q ≡ q'
  reply_of = cc

  reactor_of : r ≡ r'
  reactor_of = cc

module _ {C : Type 0} (default : RingEventLoop C) (r : Reactor C) (some_loops : 0 < length r.loops)
    (small : r.current_nonce < u64_mod) (op : Operation) (cb : Option C) (timeout : ℤ)
    (spec link_spec : ℕ) where
  abbrev new_nonce : ℕ
  new_nonce = if ltb (r.current_nonce + 1) cancel_nonce then r.current_nonce + 1 else 0

  abbrev place : ℕ
  place = loop_for_nonce (length r.loops) new_nonce

  abbrev req : SubSqeRequest
  req = record { op = op; flags = 0; user_data = new_nonce; timeout = timeout }

  abbrev queued_loop : Queued × RingEventLoop C
  queued_loop = loop_queue spec link_spec req cb (get_or r.loops place default)

  abbrev reactor : Reactor C
  reactor = record { loops = set r.loops place queued_loop.1; current_nonce = new_nonce }

  reactor_queue-queued :
      reactor_queue spec link_spec default op cb timeout r
      ≡ some (new_nonce, queued_loop.0, reactor)
  unfolding reactor_queue queue_on_loop
  reactor_queue-queued =
      ap (queue_on_loop spec link_spec default op cb timeout r)
        (next_nonce_lem 0 r.current_nonce small)

  kept_callback : queued_loop.0 ≡ ok → queued_loop.1.callbacks new_nonce ≡ cb
  unfolding loop_queue keep_callback
  kept_callback fine = rw fine (ground arith)

  abbrev Answered : List (LoopCall C) → CqEvent → ℕ × Reactor C → Type 0
  Answered calls cqe (nonce, r') =
      cqe.user_data ≡ nonce
      → uses nonce calls ≡ false
      → let loop = get_or r'.loops (loop_for_nonce (length r'.loops) nonce) default in
        (deliver_nonces (cqe ∷ []) (run_loop_calls calls loop.callbacks)).0 ≡ (cb, cqe) ∷ []

  answered :
      (calls : List (LoopCall C)) (cqe : CqEvent)
      → queued_loop.0 ≡ ok
      → Answered calls cqe (new_nonce, reactor)
  unfolding deliver_nonces
  answered calls cqe fine same other =
      rw not_reserved (ap (λ c. (c, cqe) ∷ []) (ap after same ∙ kept))
    where
      after : ℕ → Option C
      after =
          run_loop_calls calls
            (get_or reactor.loops (loop_for_nonce (length reactor.loops) new_nonce)
              default).callbacks

      not_reserved : is_reserved cqe ≡ false
      not_reserved = ground arith

      the_loop :
          get_or reactor.loops (loop_for_nonce (length reactor.loops) new_nonce) default
          ≡ queued_loop.1
      the_loop =
          ap (λ n. get_or reactor.loops (loop_for_nonce n new_nonce) default)
            (length-set r.loops place queued_loop.1)
          ∙ get_or-set_self r.loops place queued_loop.1 default
              (loop_for_nonce-lt (length r.loops) new_nonce some_loops)

      kept :
          run_loop_calls calls
            (get_or reactor.loops
              (loop_for_nonce (length reactor.loops) new_nonce)
              default).callbacks
            new_nonce
          ≡ cb
      kept =
          ap (λ (l : RingEventLoop C). run_loop_calls calls l.callbacks new_nonce) the_loop
          ∙ run_loop_calls-other calls queued_loop.1.callbacks new_nonce other
          ∙ kept_callback fine

  -- An operation that `Queue` has queued is answered by its callback: the first completion with the
  -- returned nonce, on the loop of the nonce, calls it, whatever was queued and delivered for other
  -- nonces on this loop in between.
  pub reactor_queue_answered :
      (nonce : ℕ) (r' : Reactor C) (calls : List (LoopCall C)) (cqe : CqEvent)
      → reactor_queue spec link_spec default op cb timeout r ≡ some (nonce, ok, r')
      → cqe.user_data ≡ nonce
      → uses nonce calls ≡ false
      → let loop = get_or r'.loops (loop_for_nonce (length r'.loops) nonce) default in
        (deliver_nonces (cqe ∷ []) (run_loop_calls calls loop.callbacks)).0 ≡ (cb, cqe) ∷ []
  reactor_queue_answered nonce r' calls cqe queued =
      subst (Answered calls cqe) (ap₂ (λ n s. (n, s)) (nonce_of both) (reactor_of both))
        (answered calls cqe (reply_of both))
    where
      both :
          ◌≡◌ {A = Option (ℕ × Queued × Reactor C)}
            (some (new_nonce, queued_loop.0, reactor))
            (some (nonce, ok, r'))
      both = sym reactor_queue-queued ∙ queued

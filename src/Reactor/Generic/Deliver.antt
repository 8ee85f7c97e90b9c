-- ===== src/Reactor/Generic/Deliver.antt =====
-- The consumer of the generic reactor on a batch of completions.
use go_uring.Base.{
  ℕ, ◌≡◌, refl, ap, ap₂, sym, ◌∙◌, Option, none, List, [], ◌∷◌, ==_ne, if◌then◌else◌, Bool-cases,
  inl, inr,
}
use go_uring.Uring.Entry.{CqEvent}
use go_uring.Reactor.Registry.{update}
use go_uring.Reactor.Net.{is_reserved}
use go_uring.Reactor.Net.Deliver.{IsNew, IsBatch, calls_of}
use go_uring.Reactor.Generic.{deliver_nonces}

module _ {C : Type 0} where
  calls_of-update :
      (cqes : List CqEvent) (callbacks : ℕ → Option C) (nonce : ℕ)
      → IsNew nonce cqes
      → calls_of (update callbacks nonce none) cqes ≡ calls_of callbacks cqes
  calls_of-update [] callbacks nonce new = refl
  calls_of-update (cqe ∷ cqes) callbacks nonce new =
      ap₂
        (λ f (rest : List (Option C × CqEvent)). if is_reserved cqe then rest else (f, cqe) ∷ rest)
        (rw (==_ne nonce cqe.user_data (λ e. new.0 (sym e))) refl)
        (calls_of-update cqes callbacks nonce new.1)

  -- For completions with different nonces the consumer calls, in their order, the callback that is
  -- kept for each of them when the batch begins, and none for the reserved ones.
  pub deliver_nonces_lem :
      (cqes : List CqEvent) (callbacks : ℕ → Option C)
      → IsBatch cqes
      → (deliver_nonces cqes callbacks).0 ≡ calls_of callbacks cqes
  unfolding deliver_nonces
  deliver_nonces_lem [] callbacks batch = refl
  deliver_nonces_lem (cqe ∷ cqes) callbacks batch = elim (Bool-cases (is_reserved cqe)) [
    | inl reserved ↦ rw reserved (deliver_nonces_lem cqes callbacks batch.2)
    | inr other ↦ rw other (
        ap (λ calls. (callbacks cqe.user_data, cqe) ∷ calls)
          (deliver_nonces_lem cqes (update callbacks cqe.user_data none) batch.2
            ∙ calls_of-update cqes callbacks cqe.user_data batch.1))
  ]

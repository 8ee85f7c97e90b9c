-- ===== src/Reactor/Net/Deliver.antt =====
-- What the consumer does with a batch of completions: which callbacks it calls.
use go_uring.Base.{
  ℕ, ◌<◌, ◌≡◌, ◌≢◌, refl, ap₂, sym, ◌∙◌, ◌&&◌, Option, List, [], ◌∷◌, ◌==◌, if◌then◌else◌, arith,
  Bool-cases, inl, inr,
}
use go_uring.Base.Word.{u64_mod}
use go_uring.Uring.Entry.{CqEvent}
use go_uring.Reactor.RequestId.{pack_request_id, request_fd, request_nonce}
use go_uring.Reactor.RequestId.Pack.{pack-unpack}
use go_uring.Reactor.Registry.{CbRegistry, registry_pop}
use go_uring.Reactor.Registry.Lookup.{IsRegistry, lookup, registry_pop_lem}
use go_uring.Reactor.Net.{is_reserved, deliver}

-- The completions of a batch have different ids.
abbrev pub IsNew : ℕ → List CqEvent → Type 0
IsNew ud [] = Unit {0}
IsNew ud (cqe ∷ cqes) = (cqe.user_data ≢ ud) × IsNew ud cqes

abbrev pub IsBatch : List CqEvent → Type 0
IsBatch [] = Unit {0}
IsBatch (cqe ∷ cqes) = (cqe.user_data < u64_mod) × IsNew cqe.user_data cqes × IsBatch cqes

-- The callback that waits for an id.
module _ {C : Type 0} where
  abbrev pub waiting : CbRegistry C → ℕ → Option C
  waiting reg ud = lookup reg (request_fd ud) (request_nonce ud)

  -- The calls that a batch is worth, for what waits.
  abbrev pub calls_of : (ℕ → Option C) → List CqEvent → List (Option C × CqEvent)
  calls_of f [] = []
  calls_of f (cqe ∷ cqes) =
      let rest = calls_of f cqes in if is_reserved cqe then rest else (f cqe.user_data, cqe) ∷ rest

  -- Removing the callback of one id keeps those of the others.
  waiting-pop :
      (reg : CbRegistry C) (ud ud' : ℕ)
      → IsRegistry reg
      → ud < u64_mod
      → ud' < u64_mod
      → ud' ≢ ud
      → waiting (registry_pop reg (request_fd ud) (request_nonce ud)).1 ud' ≡ waiting reg ud'
  waiting-pop reg ud ud' v p q ne =
      let fd = request_fd ud in
      let n = request_nonce ud in
      let after = registry_pop_lem reg v fd n (request_fd ud') (request_nonce ud') in
      after.2 ∙ elim (Bool-cases (fd == request_fd ud' && n == request_nonce ud')) [
        | inl same ↦ absurd (
            ne (
              sym (pack-unpack ud' q)
              ∙ ap₂ pack_request_id (ground (arith, same)) (ground (arith, same))
              ∙ pack-unpack ud p))
        | inr other ↦ rw other refl
      ]

  calls_of-pop :
      (cqes : List CqEvent) (reg : CbRegistry C) (ud : ℕ)
      → IsRegistry reg
      → ud < u64_mod
      → IsBatch cqes
      → IsNew ud cqes
      → calls_of (waiting (registry_pop reg (request_fd ud) (request_nonce ud)).1) cqes
        ≡ calls_of (waiting reg) cqes
  calls_of-pop [] reg ud v p batch new = refl
  calls_of-pop (cqe ∷ cqes) reg ud v p batch new =
      ap₂
        (λ f (rest : List (Option C × CqEvent)). if is_reserved cqe then rest else (f, cqe) ∷ rest)
        (waiting-pop reg ud cqe.user_data v p batch.0 new.0)
        (calls_of-pop cqes reg ud v p batch.2 new.1)

  pub deliver_lem :
      (cqes : List CqEvent) (reg : CbRegistry C)
      → IsRegistry reg
      → IsBatch cqes
      → ((deliver cqes reg).0 ≡ calls_of (waiting reg) cqes) × IsRegistry (deliver cqes reg).1
  unfolding deliver
  deliver_lem [] reg v batch = (refl, v)
  deliver_lem (cqe ∷ cqes) reg v batch =
      let fd = request_fd cqe.user_data in
      let n = request_nonce cqe.user_data in
      let after = registry_pop_lem reg v fd n 0 0 in
      let skipped = deliver_lem cqes reg v batch.2 in
      let rest = deliver_lem cqes (registry_pop reg fd n).1 after.0 batch.2 in
      elim (Bool-cases (is_reserved cqe)) [
        | inl reserved ↦ rw reserved skipped
        | inr other ↦ rw other (
          ap₂ (λ cb calls. (cb, cqe) ∷ calls) after.1
              (rest.0 ∙ calls_of-pop cqes reg cqe.user_data v batch.0 batch.2 batch.1),
          rest.1,
        )
      ]

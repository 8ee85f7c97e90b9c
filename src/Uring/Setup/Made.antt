-- ===== src/Uring/Setup/Made.antt =====
-- The parameters of the ring that `New` makes.
use go_uring.Base.{ℕ, ◌≡◌, refl, ◌⊎◌, inl, inr, List, ltb, Bool-cases}
use go_uring.Uring.Params.{RingParams, SetupOption, apply_options, zero_params}
use go_uring.Uring.Setup.{Os, NewRing, made, new_ring, new_ring_with, alloc_ring, max_entries}
use go_uring.Uring.Setup.Memory.{Sum-cases}

-- io_uring_setup(2) writes the sizes, the features and the offsets, and no flag or descriptor.
abbrev pub KeepsParams : {K : Type 0} → Os K → Type 0
KeepsParams {K} os =
    (n : ℕ) (p : RingParams) (w : K) (fd : ℕ) (p' : RingParams)
    → (os.setup n p w).0 ≡ inr (fd, p')
    → (p'.flags ≡ p.flags) × (p'.wq_fd ≡ p.wq_fd)

abbrev pub HasParams : List SetupOption → NewRing → Type 0
HasParams opts (made fd p' out) =
    (p'.flags ≡ (apply_options opts zero_params).flags)
    × (p'.wq_fd ≡ (apply_options opts zero_params).wq_fd)
HasParams opts out = Unit

pub new_ring-HasParams :
    {K : Type 0} (os : Os K)
    → KeepsParams os
    → (entries : ℕ) (opts : List SetupOption) (w : K)
    → HasParams opts (new_ring os entries opts w).0
unfolding new_ring new_ring_with
new_ring-HasParams {K} os keeps entries opts w = elim (Bool-cases (ltb max_entries entries)) [
  | inl many ↦ rw many tt
  | inr few ↦ rw few (elim (Sum-cases setup.0) [
    | inl (e, failed) ↦ rw failed tt
    | inr ((fd, p'), done) ↦ rw done (keeps entries p w fd p' done)
  ])
]
  where
    p : RingParams
    p = apply_options opts zero_params

    setup : (ℕ ⊎ (ℕ × RingParams)) × K
    setup = os.setup entries p w

-- The outcome of a ring is that of `allocRing`.
abbrev pub IsAlloc : {K : Type 0} → Os K → NewRing → Type 0
IsAlloc {K} os (made fd p' out) = (w : K) × ((alloc_ring os fd p' w).0 ≡ out)
IsAlloc os out = Unit

pub new_ring-IsAlloc :
    {K : Type 0} (os : Os K) (entries : ℕ) (opts : List SetupOption) (w : K)
    → IsAlloc os (new_ring os entries opts w).0
unfolding new_ring new_ring_with
new_ring-IsAlloc {K} os entries opts w = elim (Bool-cases (ltb max_entries entries)) [
  | inl many ↦ rw many tt
  | inr few ↦ rw few (elim (Sum-cases setup.0) [
    | inl (e, failed) ↦ rw failed tt
    | inr ((fd, p'), done) ↦ rw done (setup.1, refl)
  ])
]
  where
    setup : (ℕ ⊎ (ℕ × RingParams)) × K
    setup = os.setup entries (apply_options opts zero_params) w

-- ===== src/Uring/CreateMany.antt =====
-- CreateMany of uring/ring.go: several rings, in pools that share the workers of their first ring. The
-- counts are not negative.
pub mod Opened
pub mod Closed
pub mod Pools
pub mod Ends
pub mod OnePool
pub mod Count
mod Tests
use go_uring.Base.{
  ℕ, zero, suc, ◌+◌, ◌-◌, ◌/◌, ◌%◌, Bool, true, false, Option, none, some, ◌⊎◌, inl, inr, List, [],
  ◌∷◌, ◌++◌, ltb, ◌==◌, if◌then◌else◌, not,
}
use go_uring.Uring.Params.{RingParams, SetupOption, with_attached_wq}
use go_uring.Uring.Setup.{
  Os, Mapping, NewRing, too_many_entries, setup_failed, made, new_ring, close_ring, and_then,
}

-- A `*Ring`, by its descriptor, parameters and buffers.
pub record RingHandle : Type 0 where
  pub fd : ℕ
  pub params : RingParams
  pub mapping : Mapping

-- The error of `New`; a ring whose `allocRing` failed comes with it.
pub data RingError : Type 0 where
  entries_error : RingError
  setup_error : (errno : ℕ) → RingError
  alloc_error : (fd errno : ℕ) → RingError

unfoldable pub ring_of : NewRing → RingError ⊎ RingHandle
ring_of too_many_entries = inl entries_error
ring_of (setup_failed e) = inl (setup_error e)
ring_of (made fd p (inl e)) = inl (alloc_error fd e)
ring_of (made fd p (inr (m, sq, cq))) = inr (record { fd = fd; params = p; mapping = m })

-- The map from descriptors to `Close` functions, and the rings so far.
pub record Made : Type 0 where
  pub defers : List RingHandle
  pub rings : List RingHandle

abbrev pub without : ℕ → List RingHandle → List RingHandle
without fd [] = []
without fd (r ∷ rs) = let rest = without fd rs in if r.fd == fd then rest else r ∷ rest

unfoldable pub add_made : RingHandle → Made → Made
add_made r st = record { defers = r ∷ without r.fd st.defers; rings = st.rings ++ (r ∷ []) }

-- The results of `CreateMany`; a count of 0 pools is a division by zero.
pub data Created : Type 0 where
  panicked not_enough not_multiple : Created
  ring_failed : RingError → Created
  created : Made → Created

unfoldable pub created_of : RingError ⊎ Made → Created
created_of (inl e) = ring_failed e
created_of (inr st) = created st

-- `order` is the order in which `range` visits the map.
module _ {K : Type 0} (os : Os K) (order : List RingHandle → List RingHandle) (entries : ℕ) where
  -- Each ring is closed; the errors with their descriptors.
  close_each : List RingHandle → K → List (ℕ × ℕ) × K
  unfolding close_ring
  close_each [] w = ([], w)
  close_each (r ∷ rs) w =
      let (e, w') = close_ring os r.fd r.mapping w in
      let (es, w'') = close_each rs w' in (elim e [ none ↦ es | some n ↦ (r.fd, n) ∷ es ], w'')

  -- The function that `CreateMany` returns with the rings: its error wraps those of the calls.
  unfoldable pub close_all : Made → K → List (ℕ × ℕ) × K
  unfolding close_each
  close_all st w = close_each (order st.defers) w

  -- `New` and what follows it: the rings are closed, or the ring is put into the map and the slice.
  add_ring : List SetupOption → Made → K → (RingError ⊎ (RingHandle × Made)) × K
  unfolding and_then new_ring ring_of add_made close_all
  add_ring opts st w =
      let (made_ring, w') = new_ring os entries opts w in
      and_then (ring_of made_ring, w') (λ w''. (close_all st w'').1)
        (λ r w''. (inr (r, add_made r st), w''))

  module _ (opts : List SetupOption) where
    -- The inner loop, for `n` rings that are attached to the ring `main_fd`.
    attached : (main_fd n : ℕ) → Made → K → (RingError ⊎ Made) × K
    unfolding add_ring and_then
    attached main_fd zero st w = (inr st, w)
    attached main_fd (suc n) st w =
        and_then (add_ring (opts ++ (with_attached_wq main_fd ∷ [])) st w) (λ w'. w')
          (λ added. attached main_fd n added.1)

    -- The first ring of a pool and those that are attached to it.
    pub pool : (per_pool : ℕ) → Made → K → (RingError ⊎ Made) × K
    unfolding attached add_ring and_then
    pool per_pool st w =
        and_then (add_ring opts st w) (λ w'. w')
          (λ added. attached added.0.fd (per_pool - 1) added.1)

    -- The outer loop, with `i`; its fuel is the number of rings.
    pools : (fuel count per_pool i : ℕ) → Made → K → (RingError ⊎ Made) × K
    unfolding pool and_then
    pools zero count per_pool i st w = (inr st, w)
    pools (suc fuel) count per_pool i st w =
        if ltb i count
        then and_then (pool per_pool st w) (λ w'. w')
            (pools fuel count per_pool (i + (per_pool - 1) + 1))
        else (inr st, w)

    unfoldable pub create_many : (count wp_count : ℕ) → K → Created × K
    unfolding pools created_of
    create_many count wp_count w =
        let (out, w') =
          pools count count (count / wp_count) 0 (record { defers = []; rings = [] }) w in
        if ltb count wp_count
        then (not_enough, w)
        else if wp_count == 0
        then (panicked, w)
        else if not (count % wp_count == 0)
        then (not_multiple, w)
        else (created_of out, w')

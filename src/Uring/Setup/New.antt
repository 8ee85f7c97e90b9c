-- ===== src/Uring/Setup/New.antt =====
-- `New`: what it maps and opens.
use go_uring.Base.{ℕ, ◌≡◌, refl, ◌∙◌, Bool, true, false, ◌⊎◌, inl, inr, List, ltb, Bool-cases}
use go_uring.Uring.Params.{RingParams, SetupOption, apply_options, zero_params}
use go_uring.Uring.Setup.{
  Os, NewRing, too_many_entries, setup_failed, made, new_ring, new_ring_with, max_entries,
}
use go_uring.Uring.Setup.Memory.{Tracks, set, Sum-cases}
use go_uring.Uring.Setup.Alloc.{IsAllocated, alloc_ring-Allocated}
use go_uring.Uring.Setup.Close.{alloc_ring-opened}

module _ {K : Type 0} (os : Os K) {mapped opened : K → ℕ → Bool} (t : Tracks os mapped opened) where
  -- From `w` to `w'`: nothing for an error alone; the descriptor of a ring is opened, and what is mapped
  -- depends on `allocRing`.
  abbrev pub IsNew : (w w' : K) → NewRing → Type 0
  IsNew w w' too_many_entries = (opened w' ≡ opened w) × (mapped w' ≡ mapped w)
  IsNew w w' (setup_failed e) = (opened w' ≡ opened w) × (mapped w' ≡ mapped w)
  IsNew w w' (made fd p out) =
      (opened w fd ≡ false)
      × (opened w' ≡ set fd true (opened w))
      × IsAllocated (mapped w) (mapped w') out

  -- `New` that returns an error alone changes nothing. Otherwise the descriptor is open afterwards, also
  -- when the buffers could not be mapped and an error is returned with the ring; then no more is
  -- mapped than before.
  pub new_ring_lem :
      (entries : ℕ) (opts : List SetupOption) (w : K)
      → let (out, w') = new_ring os entries opts w in IsNew w w' out
  unfolding new_ring new_ring_with
  new_ring_lem entries opts w = elim (Bool-cases (ltb max_entries entries)) [
    | inl many ↦ rw many (refl, refl)
    | inr few ↦ rw few (elim (Sum-cases setup.0) [
      | inl (e, failed) ↦ rw failed (t.setup_fails entries p w e failed, t.setup_keeps entries p w)
      | inr ((fd, p'), done) ↦ rw done (
        (t.setup_opens entries p w fd p' done).0,
        alloc_ring-opened os t fd p' setup.1 ∙ (t.setup_opens entries p w fd p' done).1,
        alloc_ring-Allocated os t (mapped w) fd p' setup.1 (t.setup_keeps entries p w),
      )
    ])
  ]
    where
      p : RingParams
      p = apply_options opts zero_params

      setup : (ℕ ⊎ (ℕ × RingParams)) × K
      setup = os.setup entries p w
